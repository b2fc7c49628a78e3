-- ===== src/Merge/Rows.antt =====
-- `merge_manifests` of core/merge.py: the three-way merge of the rows of one file.
pub mod Loop
pub mod Plain
pub mod Refreshes
pub mod Conflicts
pub mod Sources
pub mod Correct
use dit.Prelude.{
  ◌≡◌, String, Bool, true, false, not, ◌&&◌, ◌||◌, Option, none, some, List, [], ◌∷◌, ◌++◌, ◌==◌,
  Result, ok, raise, ◌>>=◌, require, key_error, has, to_set, filter, is_some, if◌then◌else◌,
}
use dit.Prelude.Dict
use dit.Prelude.Dict.{Dict}
use dit.Objects.{ManifestEntry, Manifest, row_hashes, fingerprint}
use dit.Merge.{MergeConflict}

-- The last row with each fingerprint.
unfoldable pub by_qfp : Dict ManifestEntry → List ManifestEntry → Dict ManifestEntry
by_qfp d [] = d
by_qfp d (e ∷ es) = by_qfp (elim (fingerprint e) [ none ↦ d | some q ↦ Dict.put d q e ]) es

-- One side of the loop that detects refreshes: fingerprints of base rows that the side lacks, with
-- the side's row of that fingerprint.
unfoldable pub refresh_one :
    List String
    → Dict ManifestEntry
    → Dict ManifestEntry
    → String
    → ManifestEntry
    → Dict ManifestEntry
refresh_one side_hashes side_by_qfp acc q base_entry =
    if has side_hashes base_entry.row_hash
    then acc
    else elim (Dict.get side_by_qfp q) [ none ↦ acc | some e ↦ Dict.put acc q e ]

unfoldable pub refreshes :
    List String → Dict ManifestEntry → Dict ManifestEntry → Dict ManifestEntry → Dict ManifestEntry
refreshes side_hashes side_by_qfp acc [] = acc
refreshes side_hashes side_by_qfp acc ((q, b) ∷ base) =
    refreshes side_hashes side_by_qfp (refresh_one side_hashes side_by_qfp acc q b) base

-- The variables of the loop that resolves refreshes.
pub record Resolution : Type 0 where
  pub conflicts : List MergeConflict
  pub conflict_ours_hashes : List String
  pub conflict_theirs_hashes : List String
  pub refresh_resolved : Dict ManifestEntry

abbrev pub unresolved : Resolution
unresolved = record {
  conflicts = [];
  conflict_ours_hashes = [];
  conflict_theirs_hashes = [];
  refresh_resolved = [];
}

abbrev pub both_modified : String → ManifestEntry → ManifestEntry → ManifestEntry → MergeConflict
both_modified path b o t = record {
  file_path = path;
  conflict_type = "both_modified";
  base_entries = some (b ∷ []);
  ours_entries = some (o ∷ []);
  theirs_entries = some (t ∷ []);
}

abbrev pub with_conflict : Resolution → MergeConflict → String → String → Resolution
with_conflict s c o t = record s {
  conflicts = s.conflicts ++ c ∷ [];
  conflict_ours_hashes = o ∷ s.conflict_ours_hashes;
  conflict_theirs_hashes = t ∷ s.conflict_theirs_hashes;
}

abbrev pub with_winner : Resolution → String → ManifestEntry → Resolution
with_winner s q e = record s { refresh_resolved = Dict.put s.refresh_resolved q e }

module _ (path : String) (base_by_qfp : Dict ManifestEntry) where
  unfoldable pub resolve_pair :
      Resolution → String → Option ManifestEntry → Option ManifestEntry → Result Resolution
  resolve_pair s q (some o) (some t) =
      if o.row_hash == t.row_hash then ok (with_winner s q o) else do
        b ← require key_error (Dict.get base_by_qfp q)
        ok (with_conflict s (both_modified path b o t) o.row_hash t.row_hash)
  resolve_pair s q (some o) none = ok (with_winner s q o)
  resolve_pair s q none (some t) = ok (with_winner s q t)
  resolve_pair s q none none = ok s

  module _ (ours_refreshed theirs_refreshed : Dict ManifestEntry) where
    unfoldable pub resolve : Resolution → List String → Result Resolution
    resolve s [] = ok s
    resolve s (q ∷ qs) = do
      s' ← resolve_pair s q (Dict.get ours_refreshed q) (Dict.get theirs_refreshed q)
      resolve s' qs

-- `e.query_fingerprint and e.query_fingerprint in refreshed`
unfoldable pub is_refreshed : Dict ManifestEntry → ManifestEntry → Bool
is_refreshed refreshed e = elim (fingerprint e) [
  | none ↦ false
  | some q ↦ is_some (Dict.get refreshed q)
]

-- `resolved[e.query_fingerprint]`, where it is there
unfoldable pub winner : Dict ManifestEntry → ManifestEntry → Option ManifestEntry
winner resolved e = elim (fingerprint e) [ none ↦ none | some q ↦ Dict.get resolved q ]

-- The hashes of the base rows that a side has neither kept nor refreshed.
unfoldable pub deleted_hashes :
    List String
    → List String
    → Dict ManifestEntry
    → Dict ManifestEntry
    → List ManifestEntry
    → List String
deleted_hashes ours theirs ours_refreshed theirs_refreshed [] = []
deleted_hashes ours theirs ours_refreshed theirs_refreshed (e ∷ es) =
    let in_ours = has ours e.row_hash || is_refreshed ours_refreshed e in
    let in_theirs = has theirs e.row_hash || is_refreshed theirs_refreshed e in
    let rest = deleted_hashes ours theirs ours_refreshed theirs_refreshed es in
    if not in_ours || not in_theirs then e.row_hash ∷ rest else rest

-- `merged` and `seen_hashes`
pub record Merged : Type 0 where
  pub rows : List ManifestEntry
  pub seen_hashes : List String

unfoldable pub add_row : Merged → ManifestEntry → Merged
add_row m e =
    if has m.seen_hashes e.row_hash
    then m
    else record { rows = m.rows ++ e ∷ []; seen_hashes = e.row_hash ∷ m.seen_hashes }

unfoldable pub add_rows : Merged → List ManifestEntry → Merged
add_rows m [] = m
add_rows m (e ∷ es) = add_rows (add_row m e) es

-- What the loop over `ours` reads.
pub record Context : Type 0 where
  pub base_hashes : List String
  pub theirs_hashes : List String
  pub theirs_refreshed : Dict ManifestEntry
  pub conflict_hashes : List String
  pub resolved : Dict ManifestEntry
  pub deleted : List String

-- Whether the row `e` of `ours`, not refreshed, stays out of the merge.
unfoldable pub is_dropped : Context → ManifestEntry → Bool
is_dropped c e =
    (has c.base_hashes e.row_hash
      && not (has c.theirs_hashes e.row_hash)
      && not (is_refreshed c.theirs_refreshed e))
    || has c.deleted e.row_hash

unfoldable pub keep_row : Context → Merged → ManifestEntry → Merged
keep_row c m e = if has c.conflict_hashes e.row_hash then m else elim (winner c.resolved e) [
  | some r ↦ add_row m r
  | none ↦ if is_dropped c e then m else add_row m e
]

unfoldable pub keep_rows : Context → Merged → List ManifestEntry → Merged
keep_rows c m [] = m
keep_rows c m (e ∷ es) = keep_rows c (keep_row c m e) es

unfoldable pub values : Dict ManifestEntry → List ManifestEntry
values [] = []
values ((q, e) ∷ d) = e ∷ values d

-- The rows of `theirs` that are appended.
unfoldable pub is_theirs_only :
    List String → List String → List String → List String → ManifestEntry → Bool
is_theirs_only base_hashes ours_all conflict_theirs theirs_refreshed_hashes e =
    not (has base_hashes e.row_hash)
    && not (has ours_all e.row_hash)
    && not (has conflict_theirs e.row_hash)
    && not (has theirs_refreshed_hashes e.row_hash)

-- The part of the function after the refreshes are resolved.
unfoldable pub build :
    Manifest
    → Manifest
    → Manifest
    → Dict ManifestEntry
    → Dict ManifestEntry
    → Resolution
    → List ManifestEntry
build base ours theirs ours_refreshed theirs_refreshed s =
    let base_hashes = row_hashes base.entries in
    let ours_hashes = row_hashes ours.entries in
    let theirs_hashes = row_hashes theirs.entries in
    let deleted =
      deleted_hashes ours_hashes theirs_hashes ours_refreshed theirs_refreshed base.entries in
    let theirs_only_new =
      filter
        (is_theirs_only base_hashes (ours_hashes ++ s.conflict_ours_hashes) s.conflict_theirs_hashes
          (row_hashes (values theirs_refreshed)))
        theirs.entries in
    let c : Context = record {
      base_hashes = base_hashes;
      theirs_hashes = theirs_hashes;
      theirs_refreshed = theirs_refreshed;
      conflict_hashes = s.conflict_ours_hashes;
      resolved = s.refresh_resolved;
      deleted = deleted;
    } in
    let kept = keep_rows c (record { rows = []; seen_hashes = [] }) ours.entries in
    (add_rows kept theirs_only_new).rows

unfoldable pub merge_manifests :
    Manifest → Manifest → Manifest → String → Result (List ManifestEntry × List MergeConflict)
merge_manifests base ours theirs file_path = do
  let base_by_qfp = by_qfp [] base.entries
  let ours_refreshed = refreshes (row_hashes ours.entries) (by_qfp [] ours.entries) [] base_by_qfp
  let theirs_refreshed =
      refreshes (row_hashes theirs.entries) (by_qfp [] theirs.entries) [] base_by_qfp
  s ←
      resolve file_path base_by_qfp ours_refreshed theirs_refreshed unresolved
        (to_set (Dict.keys ours_refreshed ++ Dict.keys theirs_refreshed))
  ok (build base ours theirs ours_refreshed theirs_refreshed s, s.conflicts)
