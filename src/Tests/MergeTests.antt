-- ===== src/Tests/MergeTests.antt =====
-- Runs of `merge_manifests`.
use mathlib.Core.List.{Mem}
use dit.Prelude.{
  ◌≡◌, ◌⊎◌, refl, String, some, none, List, [], ◌∷◌, ◌&&◌, ◌||◌, not, ok, has, to_set, All,
  Distinct, filter,
}
use dit.Prelude.Dict
use dit.Objects.{ManifestEntry, Manifest, row_hashes, fingerprint}
use dit.Merge.{MergeConflict}
use dit.Merge.Rows.{
  by_qfp, refreshes, refresh_one, both_modified, resolve, resolve_pair, is_refreshed, winner,
  deleted_hashes, add_row, add_rows, is_dropped, keep_row, keep_rows, values, is_theirs_only, build,
  merge_manifests,
}
use dit.Merge.Rows.Plain.{merge_manifests-plain_set}
use dit.Merge.Rows.Correct.{
  IsRowClash, IsRowConflict, merge_manifests-rows, merge_manifests-conflicts,
}

abbrev plain : String → ManifestEntry
plain h = record { row_hash = h; query_fingerprint = none }

abbrev about : String → String → ManifestEntry
about q h = record { row_hash = h; query_fingerprint = some q }

abbrev base : Manifest
base = record { entries = plain "x" ∷ plain "y" ∷ about "q" "b" ∷ [] }

abbrev ours : Manifest
ours = record { entries = plain "x" ∷ about "q" "o" ∷ plain "z" ∷ [] }

abbrev theirs : Manifest
theirs = record { entries = plain "x" ∷ plain "y" ∷ about "q" "t" ∷ plain "w" ∷ [] }

merge_run :
    merge_manifests base ours theirs "f"
    ≡ ok (
      plain "x" ∷ plain "z" ∷ plain "w" ∷ [],
      both_modified "f" (about "q" "b") (about "q" "o") (about "q" "t") ∷ [],
    )
unfolding merge_manifests by_qfp refreshes refresh_one resolve resolve_pair is_refreshed winner
    deleted_hashes add_row add_rows is_dropped keep_row keep_rows values is_theirs_only build
    fingerprint row_hashes has to_set filter Dict.get Dict.put Dict.keys
merge_run = refl

merge_manifests-rows_example :
    (merged : List ManifestEntry) × (conflicts : List MergeConflict) × (merge_manifests base ours
        theirs "f"
      ≡ ok (merged, conflicts))
    × Distinct (row_hashes merged)
    × All (λ e. Mem e ours.entries ⊎ Mem e theirs.entries) merged
merge_manifests-rows_example = merge_manifests-rows base ours theirs "f"

merge_manifests-conflicts_example :
    All
      (IsRowConflict base ours theirs "f")
      (both_modified "f" (about "q" "b") (about "q" "o") (about "q" "t") ∷ [])
    × ((q : String) (b o t : ManifestEntry)
        → IsRowClash base ours theirs q b o t
        → Mem
            (both_modified "f" b o t)
            (both_modified "f" (about "q" "b") (about "q" "o") (about "q" "t") ∷ []))
merge_manifests-conflicts_example =
    merge_manifests-conflicts base ours theirs "f" (plain "x" ∷ plain "z" ∷ plain "w" ∷ [])
      (both_modified "f" (about "q" "b") (about "q" "o") (about "q" "t") ∷ []) merge_run

abbrev plain_base : Manifest
plain_base = record { entries = plain "x" ∷ plain "y" ∷ [] }

abbrev plain_ours : Manifest
plain_ours = record { entries = plain "x" ∷ plain "z" ∷ [] }

abbrev plain_theirs : Manifest
plain_theirs = record { entries = plain "y" ∷ plain "w" ∷ [] }

plain_base-IsPlain : All (λ e. fingerprint e ≡ none) plain_base.entries
unfolding fingerprint
plain_base-IsPlain = (refl, (refl, tt))

plain_ours-IsPlain : All (λ e. fingerprint e ≡ none) plain_ours.entries
unfolding fingerprint
plain_ours-IsPlain = (refl, (refl, tt))

merge_manifests-plain_set_example :
    (merged : List ManifestEntry) × (merge_manifests plain_base plain_ours plain_theirs "f"
      ≡ ok (merged, []))
    × ((h : String)
        → has (row_hashes merged) h ≡ (
            (has (row_hashes plain_ours.entries) h && has (row_hashes plain_theirs.entries) h)
            || ((has (row_hashes plain_ours.entries) h
                  && not (has (row_hashes plain_base.entries) h))
                || (has (row_hashes plain_theirs.entries) h
                    && not (has (row_hashes plain_base.entries) h)))))
merge_manifests-plain_set_example =
    merge_manifests-plain_set plain_base plain_ours plain_theirs "f" plain_base-IsPlain
      plain_ours-IsPlain
