-- ===== src/Walker/Exact.antt =====
-- What `walk_commit_objects` finds, in terms of the objects.
use mathlib.Core.Path.{subst}
use dit.Prelude.{
  Error, ℕ, zero, suc, ◌+◌, ◌<◌, ◌≡◌, ◌↔◌, refl, ap, ◌∙◌, String, true, false, some, List, [], ◌∷◌,
  ◌||◌, Result, ok, raise, ◌>>=◌, has, arith, Bool-cases, Result-cases, inl, inr,
}
use dit.Walker.{
  commit, tree, manifest, Item, Found, nothing_found, seen, mark, push, Contents, collect_leaves,
  Objects, contents, round, walk, walk_commit_objects,
}
use dit.Walker.Items.{item_eq_self, has-add_all, seen-mark}
use dit.Walker.Termination.{IsListed, links_left}
use dit.Walker.Reachable.{Reach, here, next, walk_commit_objects_total}
use dit.Walker.Spec.{HoldsRow, HoldsSidecar, HoldsBlob, Raises, Reached, root_itself, along}
use dit.Walker.Leads.{
  links-Leads, Leads-links, rows-HoldsRow, HoldsRow-rows, sidecars-HoldsSidecar,
  HoldsSidecar-sidecars, blobs-HoldsBlob, HoldsBlob-blobs,
}

-- One of the three sets of hashes of the result, and the hashes of an object that go into it.
record Leaf : Type 0 where
  found : Found → List String
  held : Contents → List String
  collects :
      (c : Contents) (r : Found) (x : Item) (g : String)
      → has (found (collect_leaves c (mark r x))) g ≡ (has (held c) g || has (found r) g)
  starts : (g : String) → has (found nothing_found) g ≡ false

nothing_has : (g : String) → has [] g ≡ false
unfolding has
nothing_has g = refl

rows_collect :
    (c : Contents) (r : Found) (x : Item) (g : String)
    → has (collect_leaves c (mark r x)).rows g ≡ (has c.rows g || has r.rows g)
rows_collect c r (commit, h) g = has-add_all c.rows g r.rows
rows_collect c r (tree, h) g = has-add_all c.rows g r.rows
rows_collect c r (manifest, h) g = has-add_all c.rows g r.rows

sidecars_collect :
    (c : Contents) (r : Found) (x : Item) (g : String)
    → has (collect_leaves c (mark r x)).sidecars g ≡ (has c.sidecars g || has r.sidecars g)
sidecars_collect c r (commit, h) g = has-add_all c.sidecars g r.sidecars
sidecars_collect c r (tree, h) g = has-add_all c.sidecars g r.sidecars
sidecars_collect c r (manifest, h) g = has-add_all c.sidecars g r.sidecars

blobs_collect :
    (c : Contents) (r : Found) (x : Item) (g : String)
    → has (collect_leaves c (mark r x)).blobs g ≡ (has c.blobs g || has r.blobs g)
blobs_collect c r (commit, h) g = has-add_all c.blobs g r.blobs
blobs_collect c r (tree, h) g = has-add_all c.blobs g r.blobs
blobs_collect c r (manifest, h) g = has-add_all c.blobs g r.blobs

abbrev row_leaf : Leaf
row_leaf = record {
  found = λ r. r.rows;
  held = λ c. c.rows;
  collects = rows_collect;
  starts = nothing_has;
}

abbrev sidecar_leaf : Leaf
sidecar_leaf = record {
  found = λ r. r.sidecars;
  held = λ c. c.sidecars;
  collects = sidecars_collect;
  starts = nothing_has;
}

abbrev blob_leaf : Leaf
blob_leaf = record {
  found = λ r. r.blobs;
  held = λ c. c.blobs;
  collects = blobs_collect;
  starts = nothing_has;
}

module _ (objects : Objects) (leaf : Leaf) where
  -- Every hash of the set is held by an object that is seen.
  From : Found → Type 0
  From r =
      (g : String)
      → has (leaf.found r) g ≡ true
      → (x : Item) × (c : Contents) × (seen r x ≡ true)
        × (contents objects x ≡ ok c)
        × (has (leaf.held c) g ≡ true)

  visit-From :
      (r : Found) (x : Item) (c : Contents)
      → contents objects x ≡ ok c
      → From r
      → From (collect_leaves c (mark r x))
  unfolding From
  visit-From r x c read f g there = elim (Bool-cases (has (leaf.held c) g)) [
    | inl new ↦ (x, c, ground (arith, seen-mark c r x x, item_eq_self x), read, new)
    | inr other ↦
        let (y, b, seen_y, read_y, held_y) = f g (ground (arith, leaf.collects c r x g)) in
        (y, b, ground (arith, seen-mark c r x y, seen_y), read_y, held_y)
  ]

  walk-From :
      (fuel : ℕ) (r : Found) (stack : List Item) (out : Found)
      → From r
      → walk objects fuel r stack ≡ some (ok out)
      → From out
  unfolding walk round
  walk-From zero r stack out f run = cc
  walk-From (suc fuel) r [] out f run = let same : r ≡ out = cc in subst From same f
  walk-From (suc fuel) r (x ∷ stack) out f run = elim (Bool-cases (seen r x)) [
    | inl old ↦ walk-From fuel r stack out f (rw (old, walk, round) at run)
    | inr new ↦ elim (Result-cases (contents objects x)) [
      | inr (e, failed) ↦
          let stopped : some (raise e) ≡ some (ok out) = rw (new, failed, walk, round) at run in cc
      | inl (c, read) ↦
          walk-From fuel (collect_leaves c (mark r x)) (push c.links stack) out
            (visit-From r x c read f) (rw (new, read, walk, round) at run)
    ]
  ]

  walked-From :
      (fuel : ℕ) (h : String) (out : Found)
      → walk_commit_objects objects fuel h ≡ some (ok out)
      → From out
  unfolding walk_commit_objects From
  walked-From fuel h out run =
      walk-From fuel nothing_found ((commit, h) ∷ []) out (λ g there. ground (arith, leaf.starts g))
        run

first_raise :
    {A B : Type 0} (r : Result A) (f : A → B) (e : Error)
    → (do a ← r; ok (f a)) ≡ raise e
    → r ≡ raise e
first_raise (ok a) f e h = cc
first_raise (raise e') f e h = cc

module _ (objects : Objects) where
  Reach-Reached : (root x : Item) → Reach objects root x → Reached objects root x
  Reach-Reached root x here = root_itself
  Reach-Reached root y (next {x} z c p read link) =
      along (Reach-Reached root x p) (links-Leads objects x z c read link)

  Reached-Reach : (root x : Item) → Reached objects root x → Reach objects root x
  Reached-Reach root x root_itself = here
  Reached-Reach root y (along {x} p l) =
      let (c, read, link) = Leads-links objects x y l in next y c (Reached-Reach root x p) read link

  contents-Raises : (x : Item) (e : Error) → contents objects x ≡ raise e → Raises objects x e
  unfolding contents
  contents-Raises (commit, h) e failed = first_raise (objects.load_commit h) _ e failed
  contents-Raises (tree, h) e failed = first_raise (objects.load_tree h) _ e failed
  contents-Raises (manifest, h) e failed = first_raise (objects.load_manifest h) _ e failed

-- In a store whose objects with links are all in a list, fuel above the number of their links plus
-- one is enough for `walk_commit_objects` to end. If it gives a result, the commits, trees and
-- manifests in it are exactly those that are reached from the commit, along the tree and the
-- parents of a commit and the tree and manifest entries of a tree. The rows in it are exactly those
-- of the reached manifests, the sidecars exactly those that an entry of a reached tree names by a
-- hash that is not empty, and the blobs exactly those of the blob entries of the reached trees. If
-- it raises, the exception is that of reading an object that is reached.
pub walk_commit_objects_lem :
    (objects : Objects) (us : List Item) (fuel : ℕ) (h : String)
    → IsListed objects us
    → 1 + links_left objects us nothing_found < fuel
    → (result : Result Found) × (walk_commit_objects objects fuel h ≡ some result)
      × ((r : Found)
          → result ≡ ok r
          → ((x : Item) → (seen r x ≡ true) ↔ Reached objects (commit, h) x)
            × ((g : String)
                → (has r.rows g ≡ true)
                  ↔ ((x : Item) × Reached objects (commit, h) x × HoldsRow objects x g))
            × ((g : String)
                → (has r.sidecars g ≡ true)
                  ↔ ((x : Item) × Reached objects (commit, h) x × HoldsSidecar objects x g))
            × ((g : String)
                → (has r.blobs g ≡ true)
                  ↔ ((x : Item) × Reached objects (commit, h) x × HoldsBlob objects x g)))
      × ((e : Error)
          → result ≡ raise e
          → (x : Item) × Reached objects (commit, h) x × Raises objects x e)
unfolding From
walk_commit_objects_lem objects us fuel h listed enough =
    let (result, run, found_, failed) = walk_commit_objects_total objects us fuel h listed enough in
    (
      result,
      run,
      (λ r e.
          let (items, leaves) = found_ r e in
          let done_ : walk_commit_objects objects fuel h ≡ some (ok r) = run ∙ ap some e in
          let reached : (x : Item) → seen r x ≡ true → Reached objects (commit, h) x =
            λ x k. Reach-Reached objects (commit, h) x ((items x).0 k) in
          (
            (λ x. (reached x, λ p. (items x).1 (Reached-Reach objects (commit, h) x p))),
            (λ g. (
              λ k.
                  let (x, c, s, read, held) = walked-From objects row_leaf fuel h r done_ g k in
                  (x, reached x s, rows-HoldsRow objects x g c read held),
              λ q.
                  let (x, p, k) = q in
                  let (c, read, held) = HoldsRow-rows objects x g k in
                  (leaves x c (Reached-Reach objects (commit, h) x p) read).rows g held,
            )),
            (λ g. (
              λ k.
                  let (x, c, s, read, held) = walked-From objects sidecar_leaf fuel h r done_ g k in
                  (x, reached x s, sidecars-HoldsSidecar objects x g c read held),
              λ q.
                  let (x, p, k) = q in
                  let (c, read, held) = HoldsSidecar-sidecars objects x g k in
                  (leaves x c (Reached-Reach objects (commit, h) x p) read).sidecars g held,
            )),
            (λ g. (
              λ k.
                  let (x, c, s, read, held) = walked-From objects blob_leaf fuel h r done_ g k in
                  (x, reached x s, blobs-HoldsBlob objects x g c read held),
              λ q.
                  let (x, p, k) = q in
                  let (c, read, held) = HoldsBlob-blobs objects x g k in
                  (leaves x c (Reached-Reach objects (commit, h) x p) read).blobs g held,
            )),
          )),
      (λ err e.
          let (x, p, r) = failed err e in
          (x, Reach-Reached objects (commit, h) x p, contents-Raises objects x err r)),
    )
