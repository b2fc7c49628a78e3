-- ===== src/Merge.antt =====
-- core/merge.py
pub mod Rows
pub mod Files
pub mod Commits
use dit.Prelude.{String, Option, List}
use dit.Prelude.Dict.{Dict}
use dit.Objects.{ManifestEntry}

pub record MergeConflict : Type 0 where
  pub file_path : String
  pub conflict_type : String
  pub base_entries : Option (List ManifestEntry)
  pub ours_entries : Option (List ManifestEntry)
  pub theirs_entries : Option (List ManifestEntry)

pub record MergeResult : Type 0 where
  -- file path → manifest hash
  pub merged_tree_entries : Dict String
  pub conflicts : List MergeConflict
