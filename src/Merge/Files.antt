-- ===== src/Merge/Files.antt =====
-- `three_way_merge` of core/merge.py: the three-way merge of the files of two commits.
pub mod Paths
pub mod Correct
use dit.Prelude.{
  ◌≡◌, refl, String, Bool, true, false, not, ◌&&◌, ◌||◌, Option, none, some, List, [], ◌∷◌, ◌++◌,
  ◌==◌, Result, ok, raise, ◌>>=◌, type_error, is_some, opt_eq, to_set, if◌then◌else◌,
}
use dit.Prelude.Dict
use dit.Prelude.Dict.{Dict}
use dit.Objects.{ManifestEntry, Manifest}
use dit.Objects.Json.{str_le}
use dit.Merge.{MergeConflict, MergeResult}
use dit.Merge.Rows.{merge_manifests}

-- `deserialize_manifest(store.read("manifests", h))`, and `store.write` of a serialised manifest.
pub record ManifestStore : Type 1 where
  pub State : Type 0
  pub read : State → String → Result Manifest
  pub write : State → Manifest → Result (String × State)

abbrev pub conflict :
    String
    → String
    → Option (List ManifestEntry)
    → Option (List ManifestEntry)
    → Option (List ManifestEntry)
    → MergeConflict
conflict path kind b o t = record {
  file_path = path;
  conflict_type = kind;
  base_entries = b;
  ours_entries = o;
  theirs_entries = t;
}

abbrev pub with_conflicts : MergeResult → List MergeConflict → MergeResult
with_conflicts r cs = record r { conflicts = r.conflicts ++ cs }

-- `result.merged_tree_entries[path] = h`, for a hash that is there.
abbrev pub with_entry : MergeResult → String → Option String → MergeResult
with_entry r path none = r
with_entry r path (some h) = record r {
  merged_tree_entries = Dict.put r.merged_tree_entries path h;
}

-- `sorted(…)` of texts.
unfoldable pub insert_path : String → List String → List String
insert_path p [] = p ∷ []
insert_path p (q ∷ qs) = if str_le p q then p ∷ q ∷ qs else q ∷ insert_path p qs

unfoldable pub sort_paths : List String → List String
sort_paths [] = []
sort_paths (p ∷ ps) = insert_path p (sort_paths ps)

unfoldable pub all_paths : Dict String → Dict String → Dict String → List String
all_paths base ours theirs =
    sort_paths (to_set (Dict.keys base ++ (Dict.keys ours ++ Dict.keys theirs)))

module _ (store : ManifestStore) where
  open store use {State}

  -- A read at an optional hash: `_HASH_RE.match(None)` raises a `TypeError`.
  unfoldable pub read_at : State → Option String → Result Manifest
  read_at s none = raise type_error
  read_at s (some h) = store.read s h

  module _ (path : String) (r : MergeResult) (s : State) where
    -- Both sides have changed the file.
    unfoldable pub merge_rows :
        Option String → Option String → Option String → Result (MergeResult × State)
    merge_rows b o t = do
      base_m ← read_at s b
      ours_m ← read_at s o
      theirs_m ← read_at s t
      (rows, conflicts) ← merge_manifests base_m ours_m theirs_m path
      (h, s') ← store.write s (record { entries = rows })
      ok (with_entry (with_conflicts r conflicts) path (some h), s')

    unfoldable pub ours_deleted : Option String → Option String → Result (MergeResult × State)
    ours_deleted b t = do
      theirs_m ← read_at s t
      base_m ← read_at s b
      ok (
        with_conflicts r
            (conflict path "modify_delete" (some base_m.entries) none (some theirs_m.entries) ∷ []),
        s,
      )

    unfoldable pub theirs_deleted : Option String → Option String → Result (MergeResult × State)
    theirs_deleted b o = do
      ours_m ← read_at s o
      base_m ← read_at s b
      ok (
        with_conflicts r
            (conflict path "modify_delete" (some base_m.entries) (some ours_m.entries) none ∷ []),
        s,
      )

    unfoldable pub both_added : Option String → Option String → Result (MergeResult × State)
    both_added o t = do
      ours_m ← read_at s o
      theirs_m ← read_at s t
      ok (
        with_conflicts r
            (conflict path "both_added" none (some ours_m.entries) (some theirs_m.entries) ∷ []),
        s,
      )

    -- The branches for a file that the base has.
    unfoldable pub merge_known :
        Option String → Option String → Option String → Result (MergeResult × State)
    merge_known b o t =
        if opt_eq o b && opt_eq t b
        then ok (with_entry r path b, s)
        else if opt_eq o b && is_some t
        then ok (with_entry r path t, s)
        else if opt_eq t b && is_some o
        then ok (with_entry r path o, s)
        else if not (is_some o) && opt_eq t b
        then ok (r, s)
        else if not (is_some t) && opt_eq o b
        then ok (r, s)
        else if not (is_some o) && not (is_some t)
        then ok (r, s)
        else if not (is_some o) && not (opt_eq t b)
        then ours_deleted b t
        else if not (is_some t) && not (opt_eq o b)
        then theirs_deleted b o
        else if opt_eq o t
        then ok (with_entry r path o, s)
        else merge_rows b o t

    -- The branches for a file that the base lacks.
    unfoldable pub merge_new : Option String → Option String → Result (MergeResult × State)
    merge_new o t =
        if is_some o && not (is_some t)
        then ok (with_entry r path o, s)
        else if not (is_some o) && is_some t
        then ok (with_entry r path t, s)
        else if opt_eq o t
        then ok (with_entry r path o, s)
        else both_added o t

    unfoldable pub merge_path :
        Option String → Option String → Option String → Result (MergeResult × State)
    merge_path b o t = if is_some b then merge_known b o t else merge_new o t

  module _ (base ours theirs : Dict String) where
    unfoldable pub merge_paths : MergeResult → State → List String → Result (MergeResult × State)
    merge_paths r s [] = ok (r, s)
    merge_paths r s (p ∷ ps) = do
      (r', s') ← merge_path p r s (Dict.get base p) (Dict.get ours p) (Dict.get theirs p)
      merge_paths r' s' ps

    -- `three_way_merge`, from the files of the three commits on.
    unfoldable pub merge_files : State → Result (MergeResult × State)
    merge_files s =
        merge_paths (record { merged_tree_entries = []; conflicts = [] }) s
          (all_paths base ours theirs)
