-- ===== src/Server/MergeCommit.antt =====
-- The merge commit that server/routes/merge.py and server/routes/pulls.py write, each in a `_do_merge`
-- of the same text, and the merge that both compute first.
use dit.Prelude.{
  ℕ, String, Bool, true, false, Option, none, some, List, [], ◌∷◌, Result, ok, raise, ◌>>=◌,
  type_error, require,
}
use dit.Prelude.Dict
use dit.Prelude.Dict.{Dict}
use dit.Objects.{Manifest, TreeEntry, Tree, Commit}
use dit.Commits.{Loader}
use dit.Commits.MergeBase.{find_merge_base}
use dit.Trees.{Leaf, TreeLoader, flatten_tree}
use dit.Merge.{MergeResult}
use dit.Merge.Files.{ManifestStore}
use dit.Merge.Commits.{three_way_merge}

-- An `ObjectStore` with the serialisers, and the fuel and the recursion limit of its walks.
pub record Storage : Type 1 where
  pub State : Type 0
  pub read_commit : State → Loader
  pub read_tree : State → TreeLoader
  pub read_manifest : State → String → Result Manifest
  pub write_manifest : State → Manifest → Result (String × State)
  pub write_tree : State → Tree → Result (String × State)
  pub write_commit : State → Commit → Result (String × State)
  pub fuel : ℕ
  pub depth : ℕ

-- `sidecar_lookup[path] = sc`, for the files of a flat map that have one
unfoldable pub add_sidecars : Dict String → Dict Leaf → Dict String
add_sidecars d [] = d
add_sidecars d ((path, (kind, h, none)) ∷ flat) = add_sidecars d flat
add_sidecars d ((path, (kind, h, some sc)) ∷ flat) = add_sidecars (Dict.put d path sc) flat

unfoldable pub merged_entries : Dict String → Dict String → List TreeEntry
merged_entries sidecar_lookup [] = []
merged_entries sidecar_lookup ((name, mhash) ∷ files) =
    record {
      name = name;
      obj_type = "manifest";
      obj_hash = mhash;
      sidecar_hash = Dict.get sidecar_lookup name;
    }
    ∷ merged_entries sidecar_lookup files

abbrev pub has_conflicts : MergeResult → Bool
has_conflicts r = elim r.conflicts [ [] ↦ false | c ∷ cs ↦ true ]

module _ (storage : Storage) where
  open storage use {
    State, read_commit, read_tree, read_manifest, write_manifest, write_tree, write_commit, fuel,
    depth,
  }

  abbrev pub manifests : ManifestStore
  manifests = record { State = State; read = read_manifest; write = write_manifest }

  abbrev pub merge_base : String → String → State → Option (Result (Option String))
  merge_base target source s = find_merge_base (read_commit s) fuel target source

  abbrev pub merge_trees : Option String → String → String → State → Result (MergeResult × State)
  merge_trees base target source s =
      three_way_merge (read_commit s) (read_tree s) depth manifests s base target source

  -- `deserialize_commit(store.read("commits", h))`
  abbrev pub commit_at : State → String → Result Commit
  commit_at s h = do c ← read_commit s h; require type_error c

  -- The tree and the commit of the merged files.
  unfoldable pub commit_files :
      Dict String → String → String → String → String → ℕ → State → Result (String × State)
  commit_files files target source author message timestamp s = do
    target_commit ← commit_at s target
    source_commit ← commit_at s source
    target_flat ← flatten_tree (read_tree s) depth target_commit.tree_hash ""
    source_flat ← flatten_tree (read_tree s) depth source_commit.tree_hash ""
    let sidecar_lookup = add_sidecars (add_sidecars [] source_flat) target_flat
    (t, s') ← write_tree s (record { entries = merged_entries sidecar_lookup files })
    write_commit s' (record {
      tree_hash = t;
      parent_hashes = target ∷ source ∷ [];
      author = author;
      message = message;
      timestamp = timestamp;
    })

  abbrev pub and_hash :
      MergeResult → Result (String × State) → Result ((MergeResult × Option String) × State)
  and_hash r (ok (h, s)) = ok ((r, some h), s)
  and_hash r (raise e) = raise e

  -- With conflicts, no commit is written.
  abbrev pub commit_merge :
      MergeResult
      → String
      → String
      → String
      → String
      → ℕ
      → State
      → Result ((MergeResult × Option String) × State)
  commit_merge r target source author message timestamp s =
      let stop : Result ((MergeResult × Option String) × State) = ok ((r, none), s) in
      let go_on =
        and_hash r (commit_files r.merged_tree_entries target source author message timestamp s) in
      elim (has_conflicts r) [ true ↦ stop | false ↦ go_on ]

  unfoldable pub do_merge :
      Option String
      → String
      → String
      → String
      → String
      → ℕ
      → State
      → Result ((MergeResult × Option String) × State)
  do_merge base target source author message timestamp s = do
    (r, s') ← merge_trees base target source s
    commit_merge r target source author message timestamp s'
