-- ===== src/Blame/Correct.antt =====
-- `blame_file` blames every row.
use dit.Prelude.{
  ℕ, suc, ◌≡◌, ◌⊎◌, refl, ap, sym, ◌∙◌, String, true, false, ◌||◌, Option, none, some, List, [],
  ◌∷◌, ◌==◌, Result, ok, raise, has, has-to_set, to_set, file_not_found, if◌then◌else◌, arith,
  eq_iff, All, Bool-cases, Option-cases, inl, inr,
}
use dit.Prelude.Dict
use dit.Prelude.Dict.{Dict}
use dit.Objects.{ManifestEntry, Manifest, Commit, row_hashes}
use dit.Commits.{Loader}
use dit.Diff.{is_empty}
use dit.Diff.NewRows.{Reorders, reported, diff-reported}
use dit.Blame.{
  BlameEntry, Blame, new_rows, first_parent, settle, walk, blame_map_of, Line, lines, blame_file,
}
use dit.Blame.Origins.{Found, has-new_rows, attribute_all_lem, attribute_rest_lem}

abbrev pub hashes_of : List Line → List String
hashes_of [] = []
hashes_of (l ∷ ls) = l.row_hash ∷ hashes_of ls

not_in_empty : (us : List String) (h : String) → is_empty us ≡ true → has us h ≡ true → ⊥
unfolding has
not_in_empty [] h e u = cc
not_in_empty (x ∷ us) h e u = cc

module _ (load : Loader) (manifest_of : String → Result Manifest) where
  -- What is before a commit: no parent, a first parent without the file, or one whose file lacks
  -- the row or is only reordered.
  abbrev pub IsNewAt : Commit → Manifest → String → Type 0
  IsNewAt commit m h =
      (first_parent commit.parent_hashes ≡ none)
      ⊎ ((p : String) × (first_parent commit.parent_hashes ≡ some p)
          × ((manifest_of p ≡ raise file_not_found)
              ⊎ ((parent_manifest : Manifest) × (manifest_of p ≡ ok parent_manifest)
                  × ((has (row_hashes parent_manifest.entries) h ≡ false)
                      ⊎ Reorders parent_manifest m))))

  -- The file has the row at this commit, and it is new there.
  abbrev pub IsOrigin : String → String → Type 0
  IsOrigin h c =
      (commit : Commit) × (m : Manifest) × (load c ≡ ok (some commit))
      × (manifest_of c ≡ ok m)
      × (has (row_hashes m.entries) h ≡ true)
      × IsNewAt commit m h

  -- The first parents that have the file, all there, in fewer steps than the fuel.
  pub data History : String → ℕ → Type 0 where
    root :
        (c : String) (commit : Commit) (fuel : ℕ)
        → (c == "") ≡ false
        → load c ≡ ok (some commit)
        → first_parent commit.parent_hashes ≡ none
        → History c (suc fuel)
    created :
        (c p : String) (commit : Commit) (fuel : ℕ)
        → (c == "") ≡ false
        → load c ≡ ok (some commit)
        → first_parent commit.parent_hashes ≡ some p
        → manifest_of p ≡ raise file_not_found
        → History c (suc fuel)
    changed :
        (c p : String) (commit : Commit) (m : Manifest) (fuel : ℕ)
        → (c == "") ≡ false
        → load c ≡ ok (some commit)
        → first_parent commit.parent_hashes ≡ some p
        → manifest_of p ≡ ok m
        → History p fuel
        → History c (suc fuel)

  module _ (target : Manifest) where
    -- The rows that are not yet blamed are in the file at the commit that is looked at.
    record IsPending (m : Manifest) (s : Blame) : Type 0 where
      waits :
          (h : String)
          → has s.unattributed h ≡ true
          → (has (row_hashes target.entries) h ≡ true) × (has (row_hashes m.entries) h ≡ true)
      all :
          (h : String)
          → has (row_hashes target.entries) h ≡ true
          → (has s.unattributed h ≡ true) ⊎ Found IsOrigin s.blame_map h

    abbrev AllFound : Option (Result Blame) → Type 0
    AllFound r =
        (s : Blame) × (r ≡ some (ok s))
        × ((h : String) → has (row_hashes target.entries) h ≡ true → Found IsOrigin s.blame_map h)

    settle-AllFound :
        (c : String) (commit : Commit) (m : Manifest) (s : Blame)
        → IsPending m s
        → load c ≡ ok (some commit)
        → manifest_of c ≡ ok m
        → ((h : String) → IsNewAt commit m h)
        → AllFound (some (ok (settle target c commit s)))
    settle-AllFound c commit m s i loaded at_ new =
        let (kept, found_) =
          attribute_rest_lem IsOrigin target c commit s.unattributed 0 target.entries s.blame_map
            (λ h u. (commit, m, loaded, at_, (i.waits h u).1, new h)) in
        (
          settle target c commit s,
          refl,
          λ h there. elim (i.all h there) [ inl u ↦ found_ h u there | inr f ↦ kept h f ],
        )

    empty-AllFound :
        (m : Manifest) (s : Blame)
        → IsPending m s
        → is_empty s.unattributed ≡ true
        → AllFound (some (ok s))
    empty-AllFound m s i none_ = (
      s,
      refl,
      λ h there. elim (i.all h there) [
        | inl u ↦ absurd (not_in_empty s.unattributed h none_ u)
        | inr f ↦ f
      ],
    )

    -- The test of the loop: where it fails, all rows are found.
    test-AllFound :
        (c : String) (m : Manifest) (s : Blame) (r : Option (Result Blame))
        → (c == "") ≡ false
        → IsPending m s
        → AllFound r
        → AllFound (if c == "" || is_empty s.unattributed then some (ok s) else r)
    test-AllFound c m s r named i f = elim (Bool-cases (is_empty s.unattributed)) [
      | inl none_ ↦ rw (named, none_) (empty-AllFound m s i none_)
      | inr some_ ↦ rw (named, some_) f
    ]

    walk-AllFound :
        (c : String) (m : Manifest) (s : Blame) (fuel : ℕ)
        → History c fuel
        → manifest_of c ≡ ok m
        → IsPending m s
        → AllFound (walk load manifest_of target fuel c m s)
    unfolding walk
    walk-AllFound _ m s _ (root c commit fuel named loaded alone) at_ i =
        test-AllFound c m s _ named i
          (rw (loaded, alone) (settle-AllFound c commit m s i loaded at_ (λ h. inl alone)))
    walk-AllFound _ m s _ (created c p commit fuel named loaded parent absent) at_ i =
        test-AllFound c m s _ named i (
          rw (loaded, parent, absent)
            (settle-AllFound c commit m s i loaded at_ (λ h. inr (p, parent, inl absent))))
    walk-AllFound _ m s _ (changed c p commit parent_manifest fuel named loaded parent there before)
          at_ i =
        let (d, ran, new, old) = diff-reported parent_manifest m in
        let (s', done_, us, kept, found_) =
          attribute_all_lem IsOrigin target c commit (new_rows d) s
            (λ h k.
              let (in_m, why) = new h (sym (has-new_rows d h) ∙ k) in
              (commit, m, loaded, at_, in_m, inr (p, parent, inr (parent_manifest, there, why))))
            (λ h u. (i.waits h u).0) in
        let i' : IsPending parent_manifest s' = record {
          waits = λ h u.
              let open_ : has s.unattributed h ≡ true = ground (arith, u, us h) in
              let (in_target, in_m) = i.waits h open_ in
              (in_target, old h (ground (arith, u, us h, has-new_rows d h)) in_m);
          all = λ h t. elim (i.all h t) [
            | inr f ↦ inr (kept h f)
            | inl u ↦ elim (Bool-cases (reported d h)) [
              | inl k ↦ inr (found_ h u (has-new_rows d h ∙ k))
              | inr k ↦ inl (ground (arith, u, us h, k, has-new_rows d h))
            ]
          ];
        } in
        test-AllFound c m s _ named i (
          rw (loaded, parent, there, ran, done_)
            (walk-AllFound p parent_manifest s' fuel before there i'))

    start-IsPending :
        IsPending target
          (record { unattributed = to_set (row_hashes target.entries); blame_map = [] })
    start-IsPending = record {
      waits = λ h u. let t = sym (has-to_set (row_hashes target.entries) h) ∙ u in (t, t);
      all = λ h t. inl (has-to_set (row_hashes target.entries) h ∙ t);
    }

    lines-IsOrigin :
        (commit_hash : String) (d : Dict BlameEntry) (i : ℕ) (es : List ManifestEntry)
        → ((h : String) → has (row_hashes es) h ≡ true → Found IsOrigin d h)
        → All (λ (l : Line). IsOrigin l.row_hash l.commit_hash) (lines commit_hash d i es)
    unfolding lines row_hashes has
    lines-IsOrigin commit_hash d i [] f = tt
    lines-IsOrigin commit_hash d i (e ∷ es) f =
        let (b, there, o) = f e.row_hash (ground (arith, eq_iff e.row_hash e.row_hash)) in
        (rw there o, lines-IsOrigin commit_hash d (suc i) es (λ h k. f h (ground (arith, k))))

  lines-rows :
      (commit_hash : String) (d : Dict BlameEntry) (i : ℕ) (es : List ManifestEntry)
      → hashes_of (lines commit_hash d i es) ≡ row_hashes es
  unfolding lines row_hashes
  lines-rows commit_hash d i [] = refl
  lines-rows commit_hash d i (e ∷ es) = elim (Option-cases (Dict.get d e.row_hash)) [
    | inl absent ↦ rw absent (ap (λ r. e.row_hash ∷ r) (lines-rows commit_hash d (suc i) es))
    | inr (b, there) ↦ rw there (ap (λ r. e.row_hash ∷ r) (lines-rows commit_hash d (suc i) es))
  ]

  -- If the file is there at the commit, and the commits of its first parents are there as far back
  -- as they have the file, in fewer steps than the fuel, then the blame of the file ends without an
  -- error. It lists the rows of the file in order, and each with a commit at which the file has the
  -- row, such that the commit has no parent, or its first parent does not have the file, or the
  -- file there lacks the row, or the commit only reorders the file: the same set of row hashes in
  -- another list of entries.
  pub blame_file_lem :
      (commit_hash : String) (target : Manifest) (fuel : ℕ)
      → History commit_hash fuel
      → manifest_of commit_hash ≡ ok target
      → (ls : List Line) × (blame_file load manifest_of fuel commit_hash ≡ some (ok ls))
        × (hashes_of ls ≡ row_hashes target.entries)
        × All (λ (l : Line). IsOrigin l.row_hash l.commit_hash) ls
  unfolding blame_file blame_map_of
  blame_file_lem commit_hash target fuel history there =
      let (s, ran, found_) =
        walk-AllFound target commit_hash target _ fuel history there (start-IsPending target) in
      (
        lines commit_hash s.blame_map 0 target.entries,
        rw (there, ran) refl,
        lines-rows commit_hash s.blame_map 0 target.entries,
        lines-IsOrigin target commit_hash s.blame_map 0 target.entries found_,
      )
