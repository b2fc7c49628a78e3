-- ===== src/Tests/DiffTests.antt =====
-- Runs of `diff_manifests`.
use dit.Prelude.{◌≡◌, ◌↔◌, refl, String, some, none, [], ◌∷◌, ok, has, All, filter}
use dit.Prelude.Dict
use dit.Objects.{Manifest, row_hashes, entries_eq, fingerprint}
use dit.Diff.{
  DiffResult, index_removed, index_one, append_at, take_first, match_found, match_one, match_added,
  diff_manifests,
}
use dit.Diff.Pairing.{IsRefresh}
use dit.Diff.Patch.{IsGone, IsNew, patched}
use dit.Diff.Correct.{unchanged, diff-patched, diff-refreshed, diff-unchanged_iff}

abbrev old : Manifest
old = record {
  entries =
      record { row_hash = "a1"; query_fingerprint = some "qa" }
      ∷ record { row_hash = "b1"; query_fingerprint = some "qb" }
      ∷ record { row_hash = "c1"; query_fingerprint = none }
      ∷ [];
}

abbrev new : Manifest
new = record {
  entries =
      record { row_hash = "a2"; query_fingerprint = some "qa" }
      ∷ record { row_hash = "c1"; query_fingerprint = none }
      ∷ record { row_hash = "d1"; query_fingerprint = some "" }
      ∷ [];
}

abbrev report : DiffResult
report = record {
  added = record { row_hash = "d1"; query_fingerprint = some "" } ∷ [];
  removed = record { row_hash = "b1"; query_fingerprint = some "qb" } ∷ [];
  refreshed = ("a1", "a2", "qa") ∷ [];
}

diff_run : diff_manifests old new ≡ ok report
unfolding diff_manifests match_added match_one match_found take_first index_removed index_one
    append_at fingerprint entries_eq filter has row_hashes Dict.get Dict.put Dict.pop
diff_run = refl

diff-patched_example :
    (r : DiffResult) × (diff_manifests old new ≡ ok r)
    × ((h : String) → patched old new r h ≡ has (row_hashes new.entries) h)
diff-patched_example = diff-patched old new

diff-refreshed_example : All (IsRefresh (IsGone old new) (IsNew old new)) report.refreshed
diff-refreshed_example = diff-refreshed old new report diff_run

diff-unchanged_iff_example : (diff_manifests old new ≡ ok unchanged) ↔ (old.entries ≡ new.entries)
diff-unchanged_iff_example = diff-unchanged_iff old new
