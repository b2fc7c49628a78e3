-- ===== src/Tests/ConflictTests.antt =====
-- A pull request whose two commits change the same row of a file, and its resolution.
use dit.Prelude.{
  ℕ, ◌+◌, ◌≡◌, refl, String, true, false, none, some, List, [], ◌∷◌, ◌==◌, has, Distinct, ok,
  if◌then◌else◌,
}
use dit.Prelude.Dict
use dit.Prelude.Dict.{Dict}
use dit.Objects.{Commit, Manifest, ManifestEntry}
use dit.Server.{World}
use dit.Server.Tables.{Pull, Rows}
use dit.Server.MergeCommit.{Storage}
use dit.Merge.{MergeResult, MergeConflict}
use dit.Merge.Rows.{both_modified}
use dit.Server.Pulls.Merging.{after_merge}
use dit.Server.Pulls.Resolve.{Resolution, write_resolved}
use dit.Server.Pulls.Resolve.Results.{write_resolved_lem}

abbrev about : String → String → ManifestEntry
about q h = record { row_hash = h; query_fingerprint = some q }

abbrev manifest_with : String → Manifest
manifest_with h = record { entries = about "kept" "k" ∷ about "q" h ∷ [] }

-- Commit, tree and manifest of a version have the same hash.
abbrev commit_of : String → List String → Commit
commit_of t ps = record {
  tree_hash = t;
  parent_hashes = ps;
  author = "me";
  message = "m";
  timestamp = 7;
}

abbrev storage : Storage
storage = record {
  State = ℕ;
  read_commit = λ s h. ok (some (commit_of h (if h == "a" then [] else "a" ∷ [])));
  read_tree = λ s h. ok (
      some (record {
        entries =
            record { name = "f"; obj_type = "manifest"; obj_hash = h; sidecar_hash = none } ∷ [];
      }));
  read_manifest = λ s h. ok (manifest_with h);
  write_manifest = λ s m. ok ("manifest", s + 1);
  write_tree = λ s t. ok ("tree", s + 1);
  write_commit = λ s c. ok ("commit", s + 1);
  fuel = 9;
  depth = 9;
}

abbrev clash : MergeConflict
clash = both_modified "f" (about "q" "a") (about "q" "b") (about "q" "c")

abbrev merged_files : MergeResult
merged_files = record { merged_tree_entries = ("f", "manifest") ∷ []; conflicts = clash ∷ [] }

abbrev choices : List Resolution
choices = record { file_path = "f"; row_hash = "c" } ∷ []

abbrev chosen : Dict ManifestEntry
chosen = ("f", about "q" "c") ∷ []

write_run :
    write_resolved storage merged_files.merged_tree_entries chosen 1
    ≡ ok (merged_files.merged_tree_entries, 2)
unfolding write_resolved Dict.put
write_run = refl

abbrev pull : Pull
pull = record {
  pull_request_id = 2;
  title = "rows";
  author = "me";
  status = "open";
  source_ref = "heads/dev";
  target_ref = "heads/main";
  base_commit = "a";
  source_commit = "c";
  target_commit = "b";
  merge_commit = none;
  is_mergeable = false;
  conflict_files = [];
  stats_added = 0;
  stats_removed = 0;
  stats_refreshed = 0;
}

-- The rule for the target branch wants two approvals, and there is none.
abbrev rows : Rows
rows = record {
  refs = ("heads/main", "b") ∷ ("heads/dev", "c") ∷ [];
  rules =
      record {
        id = 1;
        branch_pattern = "main";
        require_pr = true;
        required_approvals = 2;
        block_force_push = true;
        auto_delete_branch = false;
      }
      ∷ [];
  pulls = pull ∷ [];
  approvals = [];
}

abbrev resolved_world : World ℕ
resolved_world = record {
  committed = after_merge pull "commit" rows;
  pending = after_merge pull "commit" rows;
  objects = 4;
}

chosen-Distinct : Distinct (Dict.keys chosen)
unfolding Dict.keys has
chosen-Distinct = (refl, tt)

write_resolved_lem_example :
    ((path : String) (e : ManifestEntry)
      → Dict.get chosen path ≡ some e
      → (before after : ℕ) × (h : String) × (storage.write_manifest before
            (record { entries = e ∷ [] })
          ≡ ok (h, after))
        × (Dict.get merged_files.merged_tree_entries path ≡ some h))
    × ((path : String)
        → Dict.get chosen path ≡ none
        → Dict.get merged_files.merged_tree_entries path
          ≡ Dict.get merged_files.merged_tree_entries path)
write_resolved_lem_example =
    write_resolved_lem storage merged_files.merged_tree_entries chosen 1 2
      merged_files.merged_tree_entries chosen-Distinct write_run
