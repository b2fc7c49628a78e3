-- ===== src/Server/Pulls/Resolve.antt =====
-- `resolve_conflicts` of server/routes/pulls.py: a merge with the rows that a user has chosen.
pub mod Choices
pub mod Done
pub mod Results
use dit.Prelude.{
  ℕ, ◌≡◌, String, Bool, true, false, not, Option, none, some, List, [], ◌∷◌, ◌++◌, ◌==◌, Result, ok,
  raise, ◌>>=◌ as then_do, if◌then◌else◌,
}
use dit.Prelude.Dict
use dit.Prelude.Dict.{Dict}
use dit.Objects.{ManifestEntry, Manifest}
use dit.Merge.{MergeConflict, MergeResult}
use dit.Server.{Action, ◌>>=◌, ◌>>◌, pure, refuse, refuse_if, found, gets, wait, runs, writes}
use dit.Server.Tables.{Pull, Rows}
use dit.Server.Access.{Token, resolve_actor}
use dit.Server.Protection.{permit}
use dit.Server.MergeCommit.{Storage, merge_base, merge_trees, commit_files, has_conflicts}
use dit.Server.Pulls.{get_pull, finish_merge}

-- `ConflictResolution`; the side that was chosen is not read.
pub record Resolution : Type 0 where
  pub file_path : String
  pub row_hash : String

unfoldable pub resolution_map : Dict String → List Resolution → Dict String
resolution_map d [] = d
resolution_map d (r ∷ rs) = resolution_map (Dict.put d r.file_path r.row_hash) rs

-- `if conflict.ours_entries: …extend(…)`
abbrev pub or_nil : Option (List ManifestEntry) → List ManifestEntry
or_nil none = []
or_nil (some es) = es

unfoldable pub first_with : String → List ManifestEntry → Option ManifestEntry
first_with h [] = none
first_with h (e ∷ es) = if e.row_hash == h then some e else first_with h es

abbrev pub chosen_entry : MergeConflict → Option String → Option ManifestEntry
chosen_entry c none = none
chosen_entry c (some h) = first_with h (or_nil c.ours_entries ++ or_nil c.theirs_entries)

-- The loop over the conflicts: `none` is a 422.
unfoldable pub choose_all :
    Dict String → Dict ManifestEntry → List MergeConflict → Option (Dict ManifestEntry)
choose_all choices chosen [] = some chosen
choose_all choices chosen (c ∷ cs) = elim (chosen_entry c (Dict.get choices c.file_path)) [
  | none ↦ none
  | some e ↦ choose_all choices (Dict.put chosen c.file_path e) cs
]

module _ (storage : Storage) where
  -- The manifests of the resolved files: each has the chosen row alone.
  unfoldable pub write_resolved :
      Dict String → Dict ManifestEntry → storage.State → Result (Dict String × storage.State)
  write_resolved files [] s = ok (files, s)
  write_resolved files ((path, e) ∷ chosen) s =
      then_do (storage.write_manifest s (record { entries = e ∷ [] }))
        (λ written. write_resolved (Dict.put files path written.0) chosen written.1)

  -- `_do_resolve_commit`
  unfoldable pub commit_resolved :
      Dict String
      → Dict ManifestEntry
      → String
      → String
      → String
      → String
      → ℕ
      → storage.State
      → Result (String × storage.State)
  commit_resolved files chosen target source author message now s =
      then_do (write_resolved files chosen s)
        (λ resolved. commit_files storage resolved.0 target source author message now resolved.1)

  unfoldable pub resolve_conflicts :
      Token
      → (Rows → Rows)
      → (Rows → Rows)
      → ℕ
      → List Resolution
      → String
      → Option String
      → ℕ
      → Action storage.State String
  resolve_conflicts token others₁ others₂ pr_id resolutions message author now = do
    permit 30 token
    p ← get_pull pr_id
    refuse_if (not (p.status == "open")) 400
    target_ref ← gets (λ rows. Dict.get rows.refs p.target_ref)
    target ← found target_ref 404
    source_ref ← gets (λ rows. Dict.get rows.refs p.source_ref)
    source ← found source_ref 404
    base ← runs (merge_base storage target source)
    r ← writes (merge_trees storage base target source)
    wait others₁
    refuse_if (not (has_conflicts r)) 400
    chosen ← found (choose_all (resolution_map [] resolutions) [] r.conflicts) 422
    h ← writes (
        commit_resolved r.merged_tree_entries chosen target source (resolve_actor token author)
          message now)
    wait others₂
    finish_merge p target h
    pure h
