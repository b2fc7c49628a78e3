-- ===== src/Gc/LiveSet.antt =====
-- The live set has what the walks from the refs find, and what the index names.
use dit.Prelude.{
  ℕ, ◌≡◌, refl, String, Bool, true, false, none, some, List, [], ◌∷◌, ◌==◌, ◌||◌, ◌&&◌, ok, raise,
  first_ok, has, arith, eq_iff, Bool-cases, inl, inr, eq_of_test,
}
use mathlib.Core.Path.{subst}
use dit.Prelude.Dict.{Dict}
use dit.Walker.{
  commit, tree, manifest, Item, Found, seen, add, add_all, Objects, rows_of, walk_commit_objects,
}
use dit.Walker.Items.{has-add, has-add_all}
use dit.Gc.{Run, then_run, unite, mark_refs, mark_entry, mark_index}

-- `live'` has at least what `live` has.
pub record Grows (live live' : Found) : Type 0 where
  pub items : (x : Item) → seen live x ≡ true → seen live' x ≡ true
  pub rows : (h : String) → has live.rows h ≡ true → has live'.rows h ≡ true
  pub sidecars : (h : String) → has live.sidecars h ≡ true → has live'.sidecars h ≡ true
  pub blobs : (h : String) → has live.blobs h ≡ true → has live'.blobs h ≡ true

Grows-refl : (live : Found) → Grows live live
Grows-refl live = record {
  items = λ x k. k;
  rows = λ h k. k;
  sidecars = λ h k. k;
  blobs = λ h k. k;
}

pub Grows-trans : (a b c : Found) → Grows a b → Grows b c → Grows a c
Grows-trans a b c p q = record {
  items = λ x k. q.items x (p.items x k);
  rows = λ h k. q.rows h (p.rows h k);
  sidecars = λ h k. q.sidecars h (p.sidecars h k);
  blobs = λ h k. q.blobs h (p.blobs h k);
}

seen-unite :
    (live walked : Found) (x : Item) → seen (unite live walked) x ≡ (seen walked x || seen live x)
seen-unite live walked (commit, h) = has-add_all walked.commits h live.commits
seen-unite live walked (tree, h) = has-add_all walked.trees h live.trees
seen-unite live walked (manifest, h) = has-add_all walked.manifests h live.manifests

unite-Grows_old : (live walked : Found) → Grows live (unite live walked)
unite-Grows_old live walked = record {
  items = λ x k. ground (arith, seen-unite live walked x);
  rows = λ h k. ground (arith, has-add_all walked.rows h live.rows);
  sidecars = λ h k. ground (arith, has-add_all walked.sidecars h live.sidecars);
  blobs = λ h k. ground (arith, has-add_all walked.blobs h live.blobs);
}

unite-Grows_new : (live walked : Found) → Grows walked (unite live walked)
unite-Grows_new live walked = record {
  items = λ x k. ground (arith, seen-unite live walked x);
  rows = λ h k. ground (arith, has-add_all walked.rows h live.rows);
  sidecars = λ h k. ground (arith, has-add_all walked.sidecars h live.sidecars);
  blobs = λ h k. ground (arith, has-add_all walked.blobs h live.blobs);
}

pub then_run_ok :
    {A B : Type 0} (call : Run A) (rest : A → Run B) {out : B}
    → then_run call rest ≡ some (ok out)
    → (mid : A) × (call ≡ some (ok mid)) × (rest mid ≡ some (ok out))
then_run_ok none rest h = cc
then_run_ok (some (raise e)) rest h = cc
then_run_ok (some (ok mid)) rest h = (mid, refl, h)

-- An index has an entry of this type and hash.
unfoldable pub has_entry : Dict (String × String) → String → String → Bool
has_entry [] obj_type h = false
has_entry ((path, (k, g)) ∷ d) obj_type h = (k == obj_type && g == h) || has_entry d obj_type h

module _ (objects : Objects) where
  mark_refs-Grows :
      (fuel : ℕ) (live live' : Found) (refs : List String)
      → mark_refs objects fuel live refs ≡ some (ok live')
      → Grows live live'
  unfolding mark_refs
  mark_refs-Grows fuel live live' [] run =
      let e : live ≡ live' = cc in subst (Grows live) e (Grows-refl live)
  mark_refs-Grows fuel live live' (h ∷ hs) run =
      let (walked, _, rest) =
        then_run_ok (walk_commit_objects objects fuel h)
          (λ w. mark_refs objects fuel (unite live w) hs) run in
      Grows-trans live (unite live walked) live' (unite-Grows_old live walked)
        (mark_refs-Grows fuel (unite live walked) live' hs rest)

  -- The walk from each ref is in the live set.
  pub mark_refs-walk :
      (fuel : ℕ) (live live' : Found) (refs : List String) (h : String)
      → mark_refs objects fuel live refs ≡ some (ok live')
      → has refs h ≡ true
      → (walked : Found) × (walk_commit_objects objects fuel h ≡ some (ok walked))
        × Grows walked live'
  unfolding mark_refs has
  mark_refs-walk fuel live live' [] h run there = cc
  mark_refs-walk fuel live live' (g ∷ hs) h run there =
      let (walked, walk, rest) =
        then_run_ok (walk_commit_objects objects fuel g)
          (λ w. mark_refs objects fuel (unite live w) hs) run in
      elim (Bool-cases (g == h)) [
        | inl same ↦ (
          walked,
          subst (λ u. walk_commit_objects objects fuel u ≡ some (ok walked)) (eq_of_test g h same)
              walk,
          Grows-trans walked (unite live walked) live' (unite-Grows_new live walked)
              (mark_refs-Grows fuel (unite live walked) live' hs rest),
        )
        | inr other ↦ mark_refs-walk fuel (unite live walked) live' hs h rest (ground arith)
      ]

  marked : Found → String → List String → Found
  marked live h hs = record live { manifests = add h live.manifests; rows = add_all hs live.rows }

  marked-seen :
      (live : Found) (h : String) (hs : List String) (x : Item)
      → seen live x ≡ true
      → seen (marked live h hs) x ≡ true
  unfolding marked
  marked-seen live h hs (commit, g) k = k
  marked-seen live h hs (tree, g) k = k
  marked-seen live h hs (manifest, g) k = ground (arith, has-add h g live.manifests)

  marked-Grows : (live : Found) (h : String) (hs : List String) → Grows live (marked live h hs)
  unfolding marked
  marked-Grows live h hs = record {
    items = λ x. marked-seen live h hs x;
    rows = λ g k. ground (arith, has-add_all hs g live.rows);
    sidecars = λ g k. k;
    blobs = λ g k. k;
  }

  with_blob : Found → String → Found
  with_blob live h = record live { blobs = add h live.blobs }

  with_blob-seen :
      (live : Found) (h : String) (x : Item) → seen live x ≡ true → seen (with_blob live h) x ≡ true
  unfolding with_blob
  with_blob-seen live h (commit, g) k = k
  with_blob-seen live h (tree, g) k = k
  with_blob-seen live h (manifest, g) k = k

  with_blob-Grows : (live : Found) (h : String) → Grows live (with_blob live h)
  unfolding with_blob
  with_blob-Grows live h = record {
    items = λ x. with_blob-seen live h x;
    rows = λ g k. k;
    sidecars = λ g k. k;
    blobs = λ g k. ground (arith, has-add h g live.blobs);
  }

  -- What a step of the loop over the index adds.
  mark_entry-Grows :
      (live live' : Found) (obj_type h : String)
      → mark_entry objects live obj_type h ≡ ok live'
      → Grows live live'
        × ((obj_type == "manifest") ≡ true → has live'.manifests h ≡ true)
        × ((obj_type == "blob") ≡ true → has live'.blobs h ≡ true)
  unfolding mark_entry marked with_blob
  mark_entry-Grows live live' obj_type h run = elim (Bool-cases (obj_type == "manifest")) [
    | inl is_manifest ↦
        let (m, _, rest) =
          first_ok (objects.load_manifest h) (λ m. ok (marked live h (rows_of m)))
            (rw is_manifest at run) in
        let e : marked live h (rows_of m) ≡ live' = cc in
        (
          subst (Grows live) e (marked-Grows live h (rows_of m)),
          λ k.
              subst (λ (u : Found). has u.manifests h ≡ true) e
                (ground (arith, has-add h h live.manifests, eq_iff h h)),
          λ k.
              let both : false ≡ true =
                subst (λ u. (u == "blob") ≡ true) (eq_of_test obj_type "manifest" is_manifest) k in
              cc,
        )
    | inr other ↦ elim (Bool-cases (obj_type == "blob")) [
      | inl is_blob ↦
          let r : ok (with_blob live h) ≡ ok live' = rw (other, is_blob) at run in
          let e : with_blob live h ≡ live' = cc in
          (
            subst (Grows live) e (with_blob-Grows live h),
            λ k. ground (arith, k, other),
            λ k.
                subst (λ (u : Found). has u.blobs h ≡ true) e
                  (ground (arith, has-add h h live.blobs, eq_iff h h)),
          )
      | inr neither ↦
          let r : ok live ≡ ok live' = rw (other, neither) at run in
          let e : live ≡ live' = cc in
          (
            subst (Grows live) e (Grows-refl live),
            λ k. ground (arith, k, other),
            λ k. ground (arith, k, neither),
          )
    ]
  ]

  pub mark_index-Grows :
      (live live' : Found) (d : Dict (String × String))
      → mark_index objects live d ≡ ok live'
      → Grows live live'
        × ((h : String) → has_entry d "manifest" h ≡ true → has live'.manifests h ≡ true)
        × ((h : String) → has_entry d "blob" h ≡ true → has live'.blobs h ≡ true)
  unfolding mark_index has_entry
  mark_index-Grows live live' [] run =
      let e : live ≡ live' = cc in (subst (Grows live) e (Grows-refl live), λ h k. cc, λ h k. cc)
  mark_index-Grows live live' ((path, (obj_type, g)) ∷ d) run =
      let (mid, first, rest) =
        first_ok (mark_entry objects live obj_type g) (λ m. mark_index objects m d) run in
      let (grows, manifests, blobs) = mark_entry-Grows live mid obj_type g first in
      let (grows', manifests', blobs') = mark_index-Grows mid live' d rest in
      (
        Grows-trans live mid live' grows grows',
        λ h k. elim (Bool-cases (obj_type == "manifest" && g == h)) [
          | inl this ↦
              grows'.items (manifest, h)
                (subst (λ u. has mid.manifests u ≡ true) (eq_of_test g h (ground arith))
                  (manifests (ground arith)))
          | inr later ↦ manifests' h (ground arith)
        ],
        λ h k. elim (Bool-cases (obj_type == "blob" && g == h)) [
          | inl this ↦ grows'.blobs h (
              subst (λ u. has mid.blobs u ≡ true) (eq_of_test g h (ground arith))
                (blobs (ground arith)))
          | inr later ↦ blobs' h (ground arith)
        ],
      )
