-- ===== src/Gc.antt =====
-- core/gc.py: mark and sweep. A file whose `stat` or `unlink` fails is one that says so.
pub mod Sweep
pub mod LiveSet
pub mod Safety
pub mod Termination
use dit.Prelude.{
  ℕ, ◌+◌, ◌≡◌, String, Bool, true, false, not, Option, none, some, List, [], ◌∷◌, ◌++◌, ◌==◌,
  Result, ok, raise, ◌>>=◌, has, length, ltb, if◌then◌else◌,
}
use dit.Prelude.Dict
use dit.Prelude.Dict.{Dict}
use dit.Walker.{Found, nothing_found, add, add_all, Objects, rows_of, walk_commit_objects}

pub record GcResult : Type 0 where
  pub live_counts : Dict ℕ
  pub deleted_counts : Dict ℕ
  pub skipped_counts : Dict ℕ
  pub total_scanned : ℕ
  pub total_deleted : ℕ
  pub tmp_deleted : ℕ
  pub errors : List String

abbrev pub no_result : GcResult
no_result = record {
  live_counts = [];
  deleted_counts = [];
  skipped_counts = [];
  total_scanned = 0;
  total_deleted = 0;
  tmp_deleted = 0;
  errors = [];
}

-- `live[obj_type] |= walked.get(obj_type, set())`, for each type
abbrev pub unite : Found → Found → Found
unite live walked = record {
  commits = add_all walked.commits live.commits;
  trees = add_all walked.trees live.trees;
  manifests = add_all walked.manifests live.manifests;
  rows = add_all walked.rows live.rows;
  sidecars = add_all walked.sidecars live.sidecars;
  blobs = add_all walked.blobs live.blobs;
}

-- A loop that may run out of fuel, and then may raise.
abbrev pub Run : Type 0 → Type 0
Run A = Option (Result A)

abbrev pub then_run : {A B : Type 0} → Run A → (A → Run B) → Run B
then_run none f = none
then_run (some (raise e)) f = some (raise e)
then_run (some (ok x)) f = f x

module _ (objects : Objects) where
  unfoldable pub mark_refs : ℕ → Found → List String → Run Found
  mark_refs fuel live [] = some (ok live)
  mark_refs fuel live (h ∷ hs) =
      then_run (walk_commit_objects objects fuel h)
        (λ walked. mark_refs fuel (unite live walked) hs)

  -- The body of the loop over the index; a path does not matter.
  unfoldable pub mark_entry : Found → String → String → Result Found
  mark_entry live obj_type obj_hash =
      let marked = (do
        m ← objects.load_manifest obj_hash
        ok (record live {
          manifests = add obj_hash live.manifests;
          rows = add_all (rows_of m) live.rows;
        })) in
      if obj_type == "manifest"
      then marked
      else if obj_type == "blob"
      then ok (record live { blobs = add obj_hash live.blobs })
      else ok live

  unfoldable pub mark_index : Found → Dict (String × String) → Result Found
  mark_index live [] = ok live
  mark_index live ((path, (obj_type, obj_hash)) ∷ d) = do
    live' ← mark_entry live obj_type obj_hash
    mark_index live' d

  -- `index_entries` of `None` has no entries.
  unfoldable pub collect_live_set : ℕ → List String → Dict (String × String) → Run Found
  collect_live_set fuel ref_hashes index_entries =
      then_run (mark_refs fuel nothing_found ref_hashes)
        (λ live. some (mark_index live index_entries))

pub record File : Type 0 where
  pub name : String
  pub mtime : Option ℕ
  pub can_unlink : Bool

-- The files of each type, and the temporary files, in the order of `iterdir`.
pub record Disk : Type 0 where
  pub commits : List File
  pub trees : List File
  pub manifests : List File
  pub rows : List File
  pub sidecars : List File
  pub blobs : List File
  pub tmp : List File

abbrev pub count : Option ℕ → ℕ
count none = 0
count (some n) = n

-- `counts[obj_type] += 1`
unfoldable pub bump : Dict ℕ → String → Dict ℕ
bump counts obj_type = Dict.put counts obj_type (count (Dict.get counts obj_type) + 1)

abbrev pub scan : GcResult → GcResult
scan r = record r { total_scanned = r.total_scanned + 1 }

abbrev pub delete : GcResult → String → GcResult
delete r obj_type = record r {
  deleted_counts = bump r.deleted_counts obj_type;
  total_deleted = r.total_deleted + 1;
}

abbrev pub skip : GcResult → String → GcResult
skip r obj_type = record r { skipped_counts = bump r.skipped_counts obj_type }

-- An error is recorded by the file's name.
abbrev pub fail : GcResult → File → GcResult
fail r f = record r { errors = r.errors ++ f.name ∷ [] }

module _ (now grace_seconds : ℕ) (dry_run : Bool) where
  -- `mtime < time.time() - grace_seconds`
  abbrev pub is_stale : ℕ → Bool
  is_stale mtime = ltb (mtime + grace_seconds) now

  -- The deletion of a file: the result, and whether the file stays.
  unfoldable pub unlink : GcResult → File → GcResult × Bool
  unlink r f = if dry_run then (r, true) else if f.can_unlink then (r, false) else (fail r f, true)

  unfoldable pub sweep_old : String → GcResult → File → Option ℕ → GcResult × Bool
  sweep_old obj_type r f none = (r, true)
  sweep_old obj_type r f (some mtime) =
      if is_stale mtime then unlink (delete r obj_type) f else (skip r obj_type, true)

  -- The body of the loop over the files of one type.
  unfoldable pub sweep_file : String → List String → GcResult → File → GcResult × Bool
  sweep_file obj_type live r f =
      if has live f.name then (scan r, true) else sweep_old obj_type (scan r) f f.mtime

  unfoldable pub sweep_files : String → List String → GcResult → List File → GcResult × List File
  sweep_files obj_type live r [] = (r, [])
  sweep_files obj_type live r (f ∷ fs) =
      let (r', stays) = sweep_file obj_type live r f in
      let (r'', rest) = sweep_files obj_type live r' fs in (r'', if stays then f ∷ rest else rest)

  abbrev pub start_type : String → List String → GcResult → GcResult
  start_type obj_type live r = record r {
    live_counts = Dict.put r.live_counts obj_type (length live);
    deleted_counts = Dict.put r.deleted_counts obj_type 0;
    skipped_counts = Dict.put r.skipped_counts obj_type 0;
  }

  unfoldable pub sweep_type : String → List String → GcResult → List File → GcResult × List File
  unfolding sweep_files
  sweep_type obj_type live r fs = sweep_files obj_type live (start_type obj_type live r) fs

  unfoldable pub sweep_tmp_old : GcResult → File → Option ℕ → GcResult × Bool
  sweep_tmp_old r f none = (r, true)
  sweep_tmp_old r f (some mtime) =
      if is_stale mtime then unlink (record r { tmp_deleted = r.tmp_deleted + 1 }) f else (r, true)

  unfoldable pub sweep_tmp : GcResult → List File → GcResult × List File
  sweep_tmp r [] = (r, [])
  sweep_tmp r (f ∷ fs) =
      let (r', stays) = sweep_tmp_old r f f.mtime in
      let (r'', rest) = sweep_tmp r' fs in (r'', if stays then f ∷ rest else rest)

  unfoldable pub sweep : Disk → Found → GcResult × Disk
  sweep disk live =
      let (r₁, commits) = sweep_type "commits" live.commits no_result disk.commits in
      let (r₂, trees) = sweep_type "trees" live.trees r₁ disk.trees in
      let (r₃, manifests) = sweep_type "manifests" live.manifests r₂ disk.manifests in
      let (r₄, rows) = sweep_type "rows" live.rows r₃ disk.rows in
      let (r₅, sidecars) = sweep_type "sidecars" live.sidecars r₄ disk.sidecars in
      let (r₆, blobs) = sweep_type "blobs" live.blobs r₅ disk.blobs in
      let (r₇, tmp) = sweep_tmp r₆ disk.tmp in
      (
        r₇,
        record {
          commits = commits;
          trees = trees;
          manifests = manifests;
          rows = rows;
          sidecars = sidecars;
          blobs = blobs;
          tmp = tmp;
        },
      )

  unfoldable pub gc :
      Objects → ℕ → Disk → List String → Dict (String × String) → Run (GcResult × Disk)
  unfolding sweep
  gc objects fuel disk ref_hashes index_entries =
      then_run (collect_live_set objects fuel ref_hashes index_entries)
        (λ live. some (ok (sweep disk live)))
