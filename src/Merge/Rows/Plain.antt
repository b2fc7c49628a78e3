-- ===== src/Merge/Rows/Plain.antt =====
-- The merge of rows without fingerprints, as a merge of sets of rows.
use mathlib.Core.Path.{subst, sym}
use dit.Prelude.{
  ◌≡◌, refl, ap, ◌∙◌, String, Bool, true, false, not, ◌&&◌, none, List, [], ◌∷◌, ◌++◌, ◌==◌, ◌||◌,
  ok, has, has-append, filter, All, if◌then◌else◌, arith, eq_iff, Bool-cases, inl, inr, eq_of_test,
  to_set,
}
use dit.Prelude.Dict
use dit.Prelude.Dict.{Dict}
use dit.Objects.{ManifestEntry, Manifest, row_hashes, fingerprint}
use dit.Merge.Rows.{
  by_qfp, refreshes, resolve, unresolved, Merged, add_row, add_rows, Context, winner, values,
  is_refreshed, is_dropped, deleted_hashes, is_theirs_only, keep_row, keep_rows, build,
  merge_manifests,
}
use dit.Merge.Rows.Loop.{IsMerged, add_row-IsMerged, has-add_row}

abbrev pub IsPlain : Manifest → Type 0
IsPlain m = All (λ e. fingerprint e ≡ none) m.entries

by_qfp-plain :
    (d : Dict ManifestEntry) (es : List ManifestEntry)
    → All (λ e. fingerprint e ≡ none) es
    → by_qfp d es ≡ d
unfolding by_qfp
by_qfp-plain d [] h = refl
by_qfp-plain d (e ∷ es) (h, hs) = rw h (by_qfp-plain d es hs)

merge_manifests-plain :
    (base ours theirs : Manifest) (path : String)
    → IsPlain base
    → merge_manifests base ours theirs path ≡ ok (build base ours theirs [] [] unresolved, [])
unfolding merge_manifests refreshes resolve Dict.keys to_set
merge_manifests-plain base ours theirs path h = rw (by_qfp-plain [] base.entries h)

is_refreshed-nil : (e : ManifestEntry) → is_refreshed [] e ≡ false
unfolding is_refreshed Dict.get
is_refreshed-nil e = ground arith

winner-plain :
    (d : Dict ManifestEntry) (e : ManifestEntry) → fingerprint e ≡ none → winner d e ≡ none
unfolding winner
winner-plain d e h = rw (h, winner)

has-deleted_hashes :
    (ours theirs : List String) (es : List ManifestEntry) (h : String)
    → has (deleted_hashes ours theirs [] [] es) h
      ≡ (has (row_hashes es) h && not (has ours h && has theirs h))
unfolding deleted_hashes row_hashes has
has-deleted_hashes ours theirs [] h = refl
has-deleted_hashes ours theirs (e ∷ es) h = elim (Bool-cases (e.row_hash == h)) [
  | inl same ↦
      let k = eq_of_test e.row_hash h same in
      rw k (ground (arith, is_refreshed-nil e, has-deleted_hashes ours theirs es h, eq_iff h h))
  | inr other ↦ ground (arith, is_refreshed-nil e, other, has-deleted_hashes ours theirs es h)
]

-- A test that looks only at the hash filters hashes.
has-filter :
    (p : ManifestEntry → Bool) (g : String → Bool) (es : List ManifestEntry) (h : String)
    → ((e : ManifestEntry) → p e ≡ g e.row_hash)
    → has (row_hashes (filter p es)) h ≡ (has (row_hashes es) h && g h)
unfolding filter row_hashes has
has-filter p g [] h f = refl
has-filter p g (e ∷ es) h f = elim (Bool-cases (e.row_hash == h)) [
  | inl same ↦
      let k : g e.row_hash ≡ g h = ap g (eq_of_test e.row_hash h same) in
      ground (arith, f e, k, same, has-filter p g es h f)
  | inr other ↦ ground (arith, f e, other, has-filter p g es h f)
]

add_rows-has :
    (m : Merged) (es : List ManifestEntry) (h : String)
    → IsMerged m
    → has (row_hashes (add_rows m es).rows) h ≡ (has (row_hashes m.rows) h || has (row_hashes es) h)
unfolding add_rows row_hashes has
add_rows-has m [] h i = ground arith
add_rows-has m (e ∷ es) h i =
    ground (arith, add_rows-has (add_row m e) es h (add_row-IsMerged m e tt i), has-add_row m e h i)

module _ (base theirs deleted : List String) where
  abbrev plain_context : Context
  plain_context = record {
    base_hashes = base;
    theirs_hashes = theirs;
    theirs_refreshed = [];
    conflict_hashes = [];
    resolved = [];
    deleted = deleted;
  }

  abbrev dropped : String → Bool
  dropped h = (has base h && not (has theirs h)) || has deleted h

  keep_row-plain :
      (m : Merged) (e : ManifestEntry)
      → fingerprint e ≡ none
      → keep_row plain_context m e ≡ (if dropped e.row_hash then m else add_row m e)
  unfolding keep_row is_dropped has
  keep_row-plain m e h =
      rw (winner-plain [] e h, keep_row) (rw (is_refreshed-nil e, is_dropped) (ground arith))

  -- One row of `ours` that is left out, and one that is added, before the rest.
  same_gone :
      (m : Merged) (e : ManifestEntry) (es : List ManifestEntry) (h : String) {b : Bool}
      → dropped e.row_hash ≡ true
      → b ≡ (has (row_hashes m.rows) h || (has (row_hashes es) h && not (dropped h)))
      → b ≡ (
          has (row_hashes m.rows) h
          || ((e.row_hash == h || has (row_hashes es) h) && not (dropped h)))
  same_gone m e es h gone rest = elim (Bool-cases (e.row_hash == h)) [
    | inl same ↦
        let k : dropped h ≡ true = rw (eq_of_test e.row_hash h same) at gone in
        ground (arith, k, same, rest)
    | inr other ↦ rw other rest
  ]

  same_kept :
      (m : Merged) (e : ManifestEntry) (es : List ManifestEntry) (h : String) {b : Bool}
      → dropped e.row_hash ≡ false
      → IsMerged m
      → b ≡ (has (row_hashes (add_row m e).rows) h || (has (row_hashes es) h && not (dropped h)))
      → b ≡ (
          has (row_hashes m.rows) h
          || ((e.row_hash == h || has (row_hashes es) h) && not (dropped h)))
  same_kept m e es h kept i rest = elim (Bool-cases (e.row_hash == h)) [
    | inl same ↦
        let k : dropped h ≡ false = rw (eq_of_test e.row_hash h same) at kept in
        ground (arith, k, same, rest, has-add_row m e h i)
    | inr other ↦ ground (arith, other, rest, has-add_row m e h i)
  ]

  abbrev Law : Merged → ManifestEntry → List ManifestEntry → String → Merged → Type 0
  Law m e es h m' =
      (has (row_hashes (keep_rows plain_context m' es).rows) h ≡ (
        has (row_hashes m.rows) h
        || ((e.row_hash == h || has (row_hashes es) h) && not (dropped h))))
      × IsMerged (keep_rows plain_context m' es)

  keep_rows-has :
      (m : Merged) (es : List ManifestEntry) (h : String)
      → All (λ e. fingerprint e ≡ none) es
      → IsMerged m
      → (has (row_hashes (keep_rows plain_context m es).rows) h
          ≡ (has (row_hashes m.rows) h || (has (row_hashes es) h && not (dropped h))))
        × IsMerged (keep_rows plain_context m es)
  unfolding keep_rows row_hashes has
  keep_rows-has m [] h ps i = (ground arith, i)
  keep_rows-has m (e ∷ es) h (p, ps) i = elim (Bool-cases (dropped e.row_hash)) [
    | inl gone ↦
        let step : keep_row plain_context m e ≡ m = keep_row-plain m e p ∙ rw gone in
        let (rest, inv) = keep_rows-has m es h ps i in
        subst (Law m e es h) (sym step) (same_gone m e es h gone rest, inv)
    | inr kept ↦
        let step : keep_row plain_context m e ≡ add_row m e = keep_row-plain m e p ∙ rw kept in
        let (rest, inv) = keep_rows-has (add_row m e) es h ps (add_row-IsMerged m e tt i) in
        subst (Law m e es h) (sym step) (same_kept m e es h kept i rest, inv)
  ]

-- The rows that `theirs` adds.
has-theirs_only :
    (base ours : List String) (es : List ManifestEntry) (h : String)
    → has (row_hashes (filter (is_theirs_only base (ours ++ []) [] []) es)) h
      ≡ (has (row_hashes es) h && (not (has base h) && not (has ours h)))
unfolding is_theirs_only has
has-theirs_only base ours es h =
    has-filter (is_theirs_only base (ours ++ []) [] []) (λ k. not (has base k) && not (has ours k))
      es h (λ e. ground (arith, has-append ours [] e.row_hash))

pub IsMerged-nil : IsMerged (record { rows = []; seen_hashes = [] })
unfolding has row_hashes
IsMerged-nil = record { seen = λ h. refl; distinct = tt }

build-has :
    (base ours theirs : Manifest)
    → IsPlain ours
    → (h : String)
    → has (row_hashes (build base ours theirs [] [] unresolved)) h ≡ (
        (has (row_hashes ours.entries) h && has (row_hashes theirs.entries) h)
        || ((has (row_hashes ours.entries) h && not (has (row_hashes base.entries) h))
            || (has (row_hashes theirs.entries) h && not (has (row_hashes base.entries) h))))
unfolding build values row_hashes has
build-has base ours theirs po h =
    let b = row_hashes base.entries in
    let o = row_hashes ours.entries in
    let t = row_hashes theirs.entries in
    let d = deleted_hashes o t [] [] base.entries in
    let (kept, inv) =
      keep_rows-has b t d (record { rows = []; seen_hashes = [] }) ours.entries h po IsMerged-nil in
    ground (
      arith,
      kept,
      add_rows-has
          (keep_rows (plain_context b t d) (record { rows = []; seen_hashes = [] }) ours.entries)
          (filter (is_theirs_only b (o ++ []) [] []) theirs.entries) h inv,
      has-theirs_only b o theirs.entries h,
      has-deleted_hashes o t base.entries h,
    )

-- Of manifests without fingerprints `merge_manifests` is the merge of sets: it raises nothing, finds
-- no conflict, and keeps a hash exactly when both sides have it, or one side has it and the base
-- does not.
pub merge_manifests-plain_set :
    (base ours theirs : Manifest) (path : String)
    → IsPlain base
    → IsPlain ours
    → (merged : List ManifestEntry) × (merge_manifests base ours theirs path ≡ ok (merged, []))
      × ((h : String)
          → has (row_hashes merged) h ≡ (
              (has (row_hashes ours.entries) h && has (row_hashes theirs.entries) h)
              || ((has (row_hashes ours.entries) h && not (has (row_hashes base.entries) h))
                  || (has (row_hashes theirs.entries) h && not (has (row_hashes base.entries) h)))))
merge_manifests-plain_set base ours theirs path pb po = (
  build base ours theirs [] [] unresolved,
  merge_manifests-plain base ours theirs path pb,
  build-has base ours theirs po,
)
