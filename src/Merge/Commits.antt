-- ===== src/Merge/Commits.antt =====
-- `three_way_merge` of core/merge.py, from the commits on.
pub mod Correct
use dit.Prelude.{
  ◌≡◌, ◌≢◌, refl, ℕ, String, Bool, true, false, not, Option, none, some, List, [], ◌∷◌, ◌==◌,
  Result, ok, first_ok, ◌>>=◌, type_error, require, truthy, if◌then◌else◌, arith, eq_iff,
}
use dit.Prelude.Dict
use dit.Prelude.Dict.{Dict}
use dit.Objects.{Commit}
use dit.Commits.{Loader}
use dit.Trees.{Leaf, TreeLoader, flatten_tree}
use dit.Merge.{MergeResult}
use dit.Merge.Files.{ManifestStore, merge_files}
use dit.Merge.Files.Paths.{Verdict, keep, verdict}
use dit.Merge.Files.Correct.{entry, merge_files-keep}

-- `{path: obj_hash for … if obj_type == "manifest"}`
unfoldable pub manifests_of : Dict Leaf → Dict String
manifests_of [] = []
manifests_of ((path, (kind, h, sidecar)) ∷ d) =
    let rest = manifests_of d in if kind == "manifest" then (path, h) ∷ rest else rest

module _ (load_commit : Loader) (load_tree : TreeLoader) (depth : ℕ) where
  -- The flat map of a commit; `json.loads(None)` raises a `TypeError` for a commit that is missing.
  unfoldable pub flat_of : String → Result (Dict Leaf)
  flat_of commit_hash = do
    found ← load_commit commit_hash
    commit ← require type_error found
    flatten_tree load_tree depth commit.tree_hash ""

  unfoldable pub load_tree_manifests : String → Result (Dict String)
  load_tree_manifests commit_hash = do flat ← flat_of commit_hash; ok (manifests_of flat)

  -- `_load_tree_manifests(store, base_hash) if base_hash else {}`
  unfoldable pub load_base : Option String → Result (Dict String)
  load_base none = ok []
  load_base (some h) = if h == "" then ok [] else load_tree_manifests h

  unfoldable pub three_way_merge :
      (store : ManifestStore)
      → store.State
      → Option String
      → String
      → String
      → Result (MergeResult × store.State)
  three_way_merge store s base_hash ours_hash theirs_hash = do
    base_files ← load_base base_hash
    ours_files ← load_tree_manifests ours_hash
    theirs_files ← load_tree_manifests theirs_hash
    merge_files store base_files ours_files theirs_files s
