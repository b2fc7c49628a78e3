-- ===== src/Blame/Origins.antt =====
-- Every row is blamed on a commit that has it and whose parent lacks it, or that only reorders the
-- rows.
use mathlib.Core.Path.{subst}
use dit.Prelude.{
  ℕ, suc, ◌≡◌, ◌⊎◌, refl, ◌∙◌, String, true, not, ◌&&◌, ◌||◌, Option, some, List, [], ◌∷◌, ◌++◌,
  ◌==◌, ok, has, filter, arith, eq_iff, eq_of_test, Bool-cases, inl, inr,
}
use dit.Prelude.Dict
use dit.Prelude.Dict.{Dict}
use dit.Objects.{ManifestEntry, Manifest, Commit, row_hashes}
use dit.Diff.{DiffResult, new_hashes}
use dit.Diff.NewRows.{reported}
use dit.Blame.{
  BlameEntry, Blame, discard, index_of, added_rows, refreshed_rows, new_rows, blamed, attribute,
  attribute_all, attribute_rest,
}

has-discard :
    (x : String) (us : List String) (h : String) → has (discard x us) h ≡ (has us h && not (x == h))
unfolding has filter
has-discard x [] h = refl
has-discard x (u ∷ us) h = ground (arith, eq_iff u x, eq_iff u h, eq_iff x h, has-discard x us h)

index_of-found :
    (es : List ManifestEntry) (h : String)
    → has (row_hashes es) h ≡ true
    → (i : ℕ) × (index_of es h ≡ ok i)
unfolding has row_hashes index_of
index_of-found [] h there = cc
index_of-found (e ∷ es) h there = elim (Bool-cases (e.row_hash == h)) [
  | inl here_ ↦ (0, rw here_ refl)
  | inr later ↦
      let (i, found_) = index_of-found es h (ground arith) in (suc i, rw (later, found_) refl)
]

-- The hashes of reported rows.
abbrev keys_of : List (String × Option String) → List String
keys_of [] = []
keys_of (x ∷ xs) = x.0 ∷ keys_of xs

has-added_rows :
    (es : List ManifestEntry) (h : String) → has (keys_of (added_rows es)) h ≡ has (row_hashes es) h
unfolding has added_rows row_hashes
has-added_rows [] h = refl
has-added_rows (e ∷ es) h = ground (arith, has-added_rows es h)

has-refreshed_rows :
    (ts : List (String × String × String)) (h : String)
    → has (keys_of (refreshed_rows ts)) h ≡ has (new_hashes ts) h
unfolding has refreshed_rows new_hashes
has-refreshed_rows [] h = refl
has-refreshed_rows (t ∷ ts) h = ground (arith, has-refreshed_rows ts h)

has-keys_append :
    (xs ys : List (String × Option String)) (h : String)
    → has (keys_of (xs ++ ys)) h ≡ (has (keys_of xs) h || has (keys_of ys) h)
unfolding has
has-keys_append [] ys h = refl
has-keys_append (x ∷ xs) ys h = ground (arith, has-keys_append xs ys h)

pub has-new_rows : (d : DiffResult) (h : String) → has (keys_of (new_rows d)) h ≡ reported d h
has-new_rows d h =
    has-keys_append (added_rows d.added) (refreshed_rows d.refreshed) h
    ∙ ground (arith, has-added_rows d.added h, has-refreshed_rows d.refreshed h)

-- The row is blamed, on a commit of which `O` says so.
abbrev pub Found : (String → String → Type 0) → Dict BlameEntry → String → Type 0
Found O d h = (e : BlameEntry) × (Dict.get d h ≡ some e) × O h e.commit_hash

module _ (O : String → String → Type 0) (target : Manifest) (c : String) (commit : Commit) where
  put-Found :
      (d : Dict BlameEntry) (x h : String) (i : ℕ) (q : Option String)
      → O x c
      → (Found O d h) ⊎ (x ≡ h)
      → Found O (Dict.put d x (blamed i x q c commit)) h
  put-Found d x h i q o old = elim (Bool-cases (x == h)) [
    | inl same ↦ (
      blamed i x q c commit,
      Dict.get-put d x h (blamed i x q c commit) ∙ rw same refl,
      subst (λ u. O u c) (eq_of_test x h same) o,
    )
    | inr other ↦ elim old [
      | inr same ↦ absurd (ground (arith, eq_iff x h, other, same))
      | inl (e, there, oe) ↦ (e, Dict.get-put d x h (blamed i x q c commit) ∙ rw other there, oe)
    ]
  ]

  pub attribute_all_lem :
      (xs : List (String × Option String)) (s : Blame)
      → ((h : String) → has (keys_of xs) h ≡ true → O h c)
      → ((h : String) → has s.unattributed h ≡ true → has (row_hashes target.entries) h ≡ true)
      → (s' : Blame) × (attribute_all target c commit s xs ≡ ok s')
        × ((h : String)
            → has s'.unattributed h ≡ (has s.unattributed h && not (has (keys_of xs) h)))
        × ((h : String) → Found O s.blame_map h → Found O s'.blame_map h)
        × ((h : String)
            → has s.unattributed h ≡ true
            → has (keys_of xs) h ≡ true
            → Found O s'.blame_map h)
  unfolding attribute_all attribute has
  attribute_all_lem [] s good sub =
      (s, refl, (λ h. ground arith), (λ h f. f), λ h u k. (absurd (ground (arith, k))))
  attribute_all_lem ((x, q) ∷ xs) s good sub = elim (Bool-cases (has s.unattributed x)) [
    | inr done_ ↦
        let (s', ran, us, kept, found_) =
          attribute_all_lem xs s (λ h k. good h (ground arith)) sub in
        (
          s',
          rw done_ ran,
          (λ h. ground (arith, us h, eq_iff x h)),
          kept,
          (λ h u k. found_ h u (ground (arith, u, k, done_, eq_iff x h))),
        )
    | inl open_ ↦
        let (i, at_) = index_of-found target.entries x (sub x open_) in
        let o : O x c = good x (ground (arith, eq_iff x x)) in
        let s₁ : Blame = record {
          unattributed = discard x s.unattributed;
          blame_map = Dict.put s.blame_map x (blamed i x q c commit);
        } in
        let (s', ran, us, kept, found_) =
          attribute_all_lem xs s₁ (λ h k. good h (ground arith))
            (λ h u. sub h (ground (arith, u, has-discard x s.unattributed h))) in
        (
          s',
          rw (open_, at_) ran,
          (λ h. ground (arith, us h, has-discard x s.unattributed h)),
          (λ h f. kept h (put-Found s.blame_map x h i q o (inl f))),
          (λ h u k. elim (Bool-cases (x == h)) [
            | inl same ↦ kept h (put-Found s.blame_map x h i q o (inr (eq_of_test x h same)))
            | inr other ↦
                found_ h (ground (arith, u, other, has-discard x s.unattributed h))
                  (ground (arith, k, other))
          ]),
        )
  ]

  pub attribute_rest_lem :
      (us : List String) (i : ℕ) (es : List ManifestEntry) (d : Dict BlameEntry)
      → ((h : String) → has us h ≡ true → O h c)
      → ((h : String) → Found O d h → Found O (attribute_rest target c commit us i es d) h)
        × ((h : String)
            → has us h ≡ true
            → has (row_hashes es) h ≡ true
            → Found O (attribute_rest target c commit us i es d) h)
  unfolding attribute_rest row_hashes has
  attribute_rest_lem us i [] d good = ((λ h f. f), λ h u k. (absurd (ground (arith, k))))
  attribute_rest_lem us i (e ∷ es) d good = elim (Bool-cases (has us e.row_hash)) [
    | inr done_ ↦
        let (kept, found_) = attribute_rest_lem us (suc i) es d good in
        (
          (λ h f. rw done_ (kept h f)),
          (λ h u k. rw done_ (found_ h u (ground (arith, k, u, done_, eq_iff e.row_hash h)))),
        )
    | inl open_ ↦
        let (kept, found_) =
          attribute_rest_lem us (suc i) es
            (Dict.put d e.row_hash (blamed i e.row_hash e.query_fingerprint c commit)) good in
        let o = good e.row_hash open_ in
        (
          (λ h f. rw open_ (kept h (put-Found d e.row_hash h i e.query_fingerprint o (inl f)))),
          (λ h u k. elim (Bool-cases (e.row_hash == h)) [
            | inl same ↦ rw open_ (
                kept h (
                  put-Found d e.row_hash h i e.query_fingerprint o
                    (inr (eq_of_test e.row_hash h same))))
            | inr other ↦ rw open_ (found_ h u (ground (arith, k, other)))
          ]),
        )
  ]
