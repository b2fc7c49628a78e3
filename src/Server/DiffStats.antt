-- ===== src/Server/DiffStats.antt =====
-- What server/routes/pulls.py computes from two commits: `_compute_diff_stats` and
-- `_compute_mergeability`.
use dit.Prelude.{
  ℕ, ◌+◌, String, not, ◌&&◌, Option, none, some, List, [], ◌∷◌, ◌++◌, ◌==◌, Result, ok, raise,
  ◌>>=◌, type_error, length, to_set, if◌then◌else◌,
}
use dit.Prelude.Dict
use dit.Prelude.Dict.{Dict}
use dit.Objects.{Manifest}
use dit.Diff.{DiffResult, diff_manifests}
use dit.Trees.{Leaf, flatten_tree}
use dit.Merge.{MergeConflict}
use dit.Server.MergeCommit.{Storage, commit_at}

pub record Stats : Type 0 where
  pub stats_added : ℕ
  pub stats_removed : ℕ
  pub stats_refreshed : ℕ

abbrev pub add_diff : Stats → DiffResult → Stats
add_diff s d = record {
  stats_added = s.stats_added + length d.added;
  stats_removed = s.stats_removed + length d.removed;
  stats_refreshed = s.stats_refreshed + length d.refreshed;
}

-- `[{"file_path": …, "conflict_type": …} for c in conflicts]`
unfoldable pub conflict_files : List MergeConflict → List (String × String)
conflict_files [] = []
conflict_files (c ∷ cs) = (c.file_path, c.conflict_type) ∷ conflict_files cs

module _ (storage : Storage) (s : storage.State) where
  abbrev pub read_manifest : String → Result Manifest
  read_manifest h = storage.read_manifest s h

  -- A file on one side only, `target` or `source`.
  unfoldable pub removed_file : Stats → Leaf → Result Stats
  removed_file total (kind, h, sc) =
      if kind == "manifest"
      then (do
        m ← read_manifest h
        ok (record total { stats_removed = total.stats_removed + length m.entries }))
      else ok total

  unfoldable pub added_file : Stats → Leaf → Result Stats
  added_file total (kind, h, sc) =
      if kind == "manifest"
      then (do
        m ← read_manifest h
        ok (record total { stats_added = total.stats_added + length m.entries }))
      else ok total

  unfoldable pub changed_file : Stats → Leaf → Leaf → Result Stats
  changed_file total (src_kind, src, sc₁) (tgt_kind, tgt, sc₂) =
      if (src_kind == "manifest" && tgt_kind == "manifest") && not (src == tgt)
      then (do
        old_m ← read_manifest tgt
        new_m ← read_manifest src
        d ← diff_manifests old_m new_m
        ok (add_diff total d))
      else ok total

  -- The body of the loop; a path is in one of the maps.
  unfoldable pub count_path : Stats → Option Leaf → Option Leaf → Result Stats
  count_path total none (some tgt) = removed_file total tgt
  count_path total (some src) none = added_file total src
  count_path total (some src) (some tgt) = changed_file total src tgt
  count_path total none none = raise type_error

  module _ (source_flat target_flat : Dict Leaf) where
    unfoldable pub count_paths : Stats → List String → Result Stats
    count_paths total [] = ok total
    count_paths total (p ∷ ps) = do
      total' ← count_path total (Dict.get source_flat p) (Dict.get target_flat p)
      count_paths total' ps

  unfoldable pub compute_diff_stats : String → String → Result Stats
  compute_diff_stats source target = do
    source_commit ← commit_at storage s source
    target_commit ← commit_at storage s target
    source_flat ← flatten_tree (storage.read_tree s) storage.depth source_commit.tree_hash ""
    target_flat ← flatten_tree (storage.read_tree s) storage.depth target_commit.tree_hash ""
    count_paths source_flat target_flat
        (record { stats_added = 0; stats_removed = 0; stats_refreshed = 0 })
        (to_set (Dict.keys source_flat ++ Dict.keys target_flat))
