-- ===== src/Diff/Patch.antt =====
-- What `diff_manifests` reports, against the rows of the two manifests.
use mathlib.Core.List.{Mem, mem-cons, mem-cons_self, mem-cons_of_mem, not-mem-nil}
use mathlib.Core.Logic.Or
use dit.Prelude.{
  ◌≡◌, refl, ap, String, Bool, true, false, not, ◌&&◌, ◌||◌, ◌==◌, List, [], ◌∷◌, ok, has, arith,
  eq_iff, All, filter, not-false, Bool-cases, eq_of_test, inl, inr,
}
use dit.Prelude.Dict
use dit.Objects.{ManifestEntry, Manifest, row_hashes, entries_eq}
use dit.Diff.{
  DiffResult, Matching, old_hashes, new_hashes, not_in, is_empty, is_unchanged, surface_order,
  diff_manifests, index_removed,
}
use dit.Diff.Index.{IsIndexed, index_removed-IsIndexed}
use dit.Diff.Pairing.{IsRefresh, IsMatching, match_added_lem}

filter-All {ℓ κ} :
    {A : Type ℓ} (P : A → Type κ) (p : A → Bool) (xs : List A)
    → ((x : A) → Mem x xs → p x ≡ true → P x)
    → All P (filter p xs)
unfolding filter
filter-All P p [] f = tt
filter-All P p (x ∷ xs) f =
    let rest = filter-All P p xs (λ y m h. f y (mem-cons_of_mem x m) h) in
    elim (Bool-cases (p x)) [
      | inl keep ↦ rw keep (f x mem-cons_self keep, rest)
      | inr drop ↦ rw drop rest
    ]

-- Dropping the rows of a set from a list drops exactly their hashes.
pub has-not_in :
    (hs : List String) (es : List ManifestEntry) (h : String)
    → has (row_hashes (not_in hs es)) h ≡ (has (row_hashes es) h && not (has hs h))
unfolding filter row_hashes has
has-not_in hs [] h = refl
has-not_in hs (e ∷ es) h = elim (Bool-cases (e.row_hash == h)) [
  | inl same ↦
      let k = eq_of_test e.row_hash h same in
      elim (Bool-cases (has hs h)) [
        | inl there ↦ ground (arith, k, there, same, has-not_in hs es h)
        | inr gone ↦ ground (arith, k, gone, same, has-not_in hs es h)
      ]
  | inr other ↦ elim (Bool-cases (has hs e.row_hash)) [
    | inl there ↦ ground (arith, there, other, has-not_in hs es h)
    | inr gone ↦ ground (arith, gone, other, has-not_in hs es h)
  ]
]

-- A row of a manifest has its hash among the manifest's hashes.
pub has-mem :
    (es : List ManifestEntry) {e : ManifestEntry} → Mem e es → has (row_hashes es) e.row_hash ≡ true
unfolding row_hashes has
has-mem [] m = absurd (not-mem-nil m)
has-mem (x ∷ xs) {e} m =
    Or.elim (hlevel) (mem-cons.0 m) (λ here. rw here (ground (arith, eq_iff x.row_hash x.row_hash)))
      (λ later. ground (arith, has-mem xs later))

pub is_empty→nil {ℓ} : {A : Type ℓ} (xs : List A) → is_empty xs ≡ true → xs ≡ []
is_empty→nil [] h = refl
is_empty→nil (x ∷ xs) h = cc

pub is_unchanged_lem :
    (r : DiffResult)
    → is_unchanged r ≡ true
    → (r.added ≡ []) × (r.removed ≡ []) × (r.refreshed ≡ [])
is_unchanged_lem r h = (
  is_empty→nil r.added (ground arith),
  is_empty→nil r.removed (ground arith),
  is_empty→nil r.refreshed (ground arith),
)

module _ (old new : Manifest) where
  -- A row of the old manifest whose hash the new one lacks, and the other way round.
  abbrev pub IsGone : ManifestEntry → Type 0
  IsGone e = Mem e old.entries × (has (row_hashes new.entries) e.row_hash ≡ false)

  abbrev pub IsNew : ManifestEntry → Type 0
  IsNew e = Mem e new.entries × (has (row_hashes old.entries) e.row_hash ≡ false)

  abbrev pub raw_removed : List ManifestEntry
  raw_removed = not_in (row_hashes new.entries) old.entries

  abbrev pub raw_added : List ManifestEntry
  raw_added = not_in (row_hashes old.entries) new.entries

  abbrev start : Matching
  start = record {
    old_by_qfp = index_removed [] raw_removed;
    refreshed = [];
    refreshed_old_hashes = [];
    refreshed_new_hashes = [];
  }

  abbrev pub report : Matching → DiffResult
  report m = record {
    added = not_in m.refreshed_new_hashes raw_added;
    removed = not_in m.refreshed_old_hashes raw_removed;
    refreshed = m.refreshed;
  }

  raw_removed-IsGone : All IsGone raw_removed
  raw_removed-IsGone =
      filter-All IsGone _ old.entries
        (λ e m h. (m, not-false (has (row_hashes new.entries) e.row_hash) h))

  raw_added-IsNew : All IsNew raw_added
  raw_added-IsNew =
      filter-All IsNew _ new.entries
        (λ e m h. (m, not-false (has (row_hashes old.entries) e.row_hash) h))

  IsIndexed-nil : IsIndexed IsGone []
  unfolding Dict.get
  IsIndexed-nil = record { at = λ q es found. cc }

  start-IsMatching : IsMatching IsGone IsNew start
  unfolding old_hashes new_hashes
  start-IsMatching = record {
    indexed = index_removed-IsIndexed IsGone [] raw_removed IsIndexed-nil raw_removed-IsGone;
    refreshes = tt;
    olds = λ h. refl;
    news = λ h. refl;
  }

  -- `diff_manifests` ends its loop, with pairs of a row that is gone and a row that is new.
  pub diff_lem :
      (m : Matching) × (diff_manifests old new ≡ ok (surface_order old new (report m)))
      × IsMatching IsGone IsNew m
  unfolding diff_manifests
  diff_lem =
      let (m, done, h) =
        match_added_lem IsGone IsNew start raw_added start-IsMatching raw_added-IsNew in
      (m, rw done, h)

  old_hashes_gone :
      (ts : List (String × String × String)) (h : String)
      → All (IsRefresh IsGone IsNew) ts
      → has (old_hashes ts) h ≡ true
      → (has (row_hashes old.entries) h ≡ true) × (has (row_hashes new.entries) h ≡ false)
  unfolding old_hashes has
  old_hashes_gone [] h rs p = cc
  old_hashes_gone (t ∷ ts) h ((o, n, go, gn, e, fo, fn), rs) p = elim (Bool-cases (t.0 == h)) [
    | inl same ↦
        let k : o.row_hash ≡ h =
          cc (eq_of_test t.0 h same, ap (λ (x : String × String × String). x.0) e) in
        (rw k at (has-mem old.entries go.0), rw k at go.1)
    | inr other ↦ old_hashes_gone ts h rs (ground arith)
  ]

  pub new_hashes_new :
      (ts : List (String × String × String)) (h : String)
      → All (IsRefresh IsGone IsNew) ts
      → has (new_hashes ts) h ≡ true
      → (has (row_hashes new.entries) h ≡ true) × (has (row_hashes old.entries) h ≡ false)
  unfolding new_hashes has
  new_hashes_new [] h rs p = cc
  new_hashes_new (t ∷ ts) h ((o, n, go, gn, e, fo, fn), rs) p = elim (Bool-cases (t.1 == h)) [
    | inl same ↦
        let k : n.row_hash ≡ h =
          cc (eq_of_test t.1 h same, ap (λ (x : String × String × String). x.1) e) in
        (rw k at (has-mem new.entries gn.0), rw k at gn.1)
    | inr other ↦ new_hashes_new ts h rs (ground arith)
  ]

  pub refreshed-surface_order : (r : DiffResult) → (surface_order old new r).refreshed ≡ r.refreshed
  unfolding surface_order
  refreshed-surface_order r = ground arith

  -- The hashes of the new manifest, made of those of the old one and of the report.
  abbrev pub patched : DiffResult → String → Bool
  patched r h =
      (has (row_hashes old.entries) h
        && not (has (row_hashes r.removed) h || has (old_hashes r.refreshed) h))
      || (has (row_hashes r.added) h || has (new_hashes r.refreshed) h)

  pub patched-report :
      (m : Matching) (h : String)
      → IsMatching IsGone IsNew m
      → patched (report m) h ≡ has (row_hashes new.entries) h
  patched-report m h i = ground (
    arith,
    has-not_in m.refreshed_new_hashes raw_added h,
    has-not_in m.refreshed_old_hashes raw_removed h,
    has-not_in (row_hashes old.entries) new.entries h,
    has-not_in (row_hashes new.entries) old.entries h,
    i.olds h,
    i.news h,
    old_hashes_gone m.refreshed h i.refreshes,
    new_hashes_new m.refreshed h i.refreshes,
  )

  pub patched-surface_order :
      (r : DiffResult) (h : String)
      → patched r h ≡ has (row_hashes new.entries) h
      → patched (surface_order old new r) h ≡ has (row_hashes new.entries) h
  unfolding surface_order old_hashes new_hashes has
  patched-surface_order r h i = elim (Bool-cases (is_unchanged r)) [
    | inl same ↦ elim (Bool-cases (entries_eq old.entries new.entries)) [
      | inl e ↦ rw (same, e, surface_order) i
      | inr e ↦
          let c = (is_unchanged_lem r same).2 in rw (same, e, surface_order) (rw c (ground arith))
    ]
    | inr changed ↦ rw (changed, surface_order) i
  ]
