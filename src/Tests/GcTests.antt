-- ===== src/Tests/GcTests.antt =====
-- Walks and garbage collection over a store of one commit: its tree holds a manifest and a blob.
use dit.Prelude.{
  ◌+◌, ◌<◌, ◌≡◌, ◌↔◌, refl, Error, String, true, false, none, some, List, [], ◌∷◌, ◌==◌, Result, ok,
  raise, if◌then◌else◌, has, arith, eq_iff,
}
use dit.Prelude.Dict
use dit.Objects.{TreeEntry, Commit, row_hashes}
use dit.Walker.{
  commit, tree, manifest, Item, Found, nothing_found, seen, add, add_all, push, Contents, Objects,
  contents, tree_links, tree_sidecars, tree_blobs, round, walk, walk_commit_objects,
}
use dit.Walker.Items.{has_item}
use dit.Walker.Termination.{IsListed, links_left}
use dit.Walker.Reachable.{Reach, here, next}
use dit.Walker.Spec.{HoldsRow, HoldsSidecar, HoldsBlob, Raises, Reached}
use dit.Walker.Exact.{walk_commit_objects_lem}
use dit.Gc.{
  GcResult, File, Disk, bump, mark_refs, mark_entry, mark_index, collect_live_set, unlink,
  sweep_old, sweep_file, sweep_files, sweep_type, sweep_tmp_old, sweep_tmp, sweep, gc,
}
use dit.Gc.LiveSet.{has_entry}
use dit.Gc.Safety.{Kept, gc-Reach, gc-has_entry}
use dit.Gc.Termination.{gc_total}

abbrev only_commit : Commit
only_commit = record {
  tree_hash = "t";
  parent_hashes = [];
  author = "me";
  message = "m";
  timestamp = 0;
}

abbrev leaf : String → String → String → TreeEntry
leaf n kind h = record { name = n; obj_type = kind; obj_hash = h; sidecar_hash = none }

abbrev small : Objects
small = record {
  load_commit = λ h. if h == "c" then ok (some only_commit) else ok none;
  load_tree = λ h.
      if h == "t"
      then ok (some (record { entries = leaf "f" "manifest" "m" ∷ leaf "logo" "blob" "b" ∷ [] }))
      else ok none;
  load_manifest = λ h.
      if h == "m"
      then ok (some (record { entries = record { row_hash = "r"; query_fingerprint = none } ∷ [] }))
      else ok none;
}

abbrev listed : List Item
listed = (commit, "c") ∷ (tree, "t") ∷ []

small-IsListed : IsListed small listed
unfolding has_item contents tree_links
small-IsListed (commit, h) absent = ground (arith, eq_iff h "c", eq_iff "c" h)
small-IsListed (tree, h) absent = ground (arith, eq_iff h "t", eq_iff "t" h)
small-IsListed (manifest, h) absent = ground (arith, eq_iff h "m")

enough : 1 + links_left small listed nothing_found < 9
unfolding links_left has contents tree_links
enough = omega arith

walk_commit_objects_lem_example :
    (result : Result Found) × (walk_commit_objects small 9 "c" ≡ some result)
    × ((r : Found)
        → result ≡ ok r
        → ((x : Item) → (seen r x ≡ true) ↔ Reached small (commit, "c") x)
          × ((g : String)
              → (has r.rows g ≡ true)
                ↔ ((x : Item) × Reached small (commit, "c") x × HoldsRow small x g))
          × ((g : String)
              → (has r.sidecars g ≡ true)
                ↔ ((x : Item) × Reached small (commit, "c") x × HoldsSidecar small x g))
          × ((g : String)
              → (has r.blobs g ≡ true)
                ↔ ((x : Item) × Reached small (commit, "c") x × HoldsBlob small x g)))
    × ((e : Error)
        → result ≡ raise e
        → (x : Item) × Reached small (commit, "c") x × Raises small x e)
walk_commit_objects_lem_example = walk_commit_objects_lem small listed 9 "c" small-IsListed enough

abbrev old_file : String → File
old_file n = record { name = n; mtime = some 10; can_unlink = true }

abbrev young_file : String → File
young_file n = record { name = n; mtime = some 95; can_unlink = true }

abbrev disk : Disk
disk = record {
  commits = old_file "c" ∷ old_file "c0" ∷ [];
  trees = old_file "t" ∷ [];
  manifests = old_file "m" ∷ old_file "m0" ∷ [];
  rows = old_file "r" ∷ old_file "r0" ∷ young_file "r1" ∷ [];
  sidecars = [];
  blobs = old_file "b" ∷ [];
  tmp = old_file "x" ∷ [];
}

abbrev swept : Disk
swept = record {
  commits = old_file "c" ∷ [];
  trees = old_file "t" ∷ [];
  manifests = old_file "m" ∷ old_file "m0" ∷ [];
  rows = old_file "r" ∷ young_file "r1" ∷ [];
  sidecars = [];
  blobs = old_file "b" ∷ [];
  tmp = [];
}

abbrev report : GcResult
report = record {
  live_counts =
      ("commits", 1)
      ∷ ("trees", 1)
      ∷ ("manifests", 2)
      ∷ ("rows", 1)
      ∷ ("sidecars", 0)
      ∷ ("blobs", 1)
      ∷ [];
  deleted_counts =
      ("commits", 1)
      ∷ ("trees", 0)
      ∷ ("manifests", 0)
      ∷ ("rows", 1)
      ∷ ("sidecars", 0)
      ∷ ("blobs", 0)
      ∷ [];
  skipped_counts =
      ("commits", 0)
      ∷ ("trees", 0)
      ∷ ("manifests", 0)
      ∷ ("rows", 1)
      ∷ ("sidecars", 0)
      ∷ ("blobs", 0)
      ∷ [];
  total_scanned = 9;
  total_deleted = 2;
  tmp_deleted = 1;
  errors = [];
}

gc_run :
    gc 100 50 false small 9 disk ("c" ∷ []) (("g", ("manifest", "m0")) ∷ [])
    ≡ some (ok (report, swept))
unfolding gc collect_live_set mark_refs mark_entry mark_index walk_commit_objects walk round
    contents add add_all push tree_links tree_sidecars tree_blobs row_hashes has sweep sweep_type
    sweep_files sweep_file sweep_old unlink sweep_tmp sweep_tmp_old bump Dict.get Dict.put
gc_run = refl

tree_link : Reach small (commit, "c") (tree, "t")
unfolding contents has_item
tree_link = next (tree, "t") _ here refl refl

abbrev tree_holds : Contents
tree_holds = record { links = (manifest, "m") ∷ []; rows = []; sidecars = []; blobs = "b" ∷ [] }

read_tree : contents small (tree, "t") ≡ ok tree_holds
unfolding contents tree_links tree_sidecars tree_blobs
read_tree = refl

named : has ("c" ∷ []) "c" ≡ true
unfolding has
named = refl

gc-Reach_example :
    Kept disk.trees swept.trees "t"
    × ((h : String) → has [] h ≡ true → Kept disk.rows swept.rows h)
    × ((h : String) → has [] h ≡ true → Kept disk.sidecars swept.sidecars h)
    × ((h : String) → has ("b" ∷ []) h ≡ true → Kept disk.blobs swept.blobs h)
gc-Reach_example =
    gc-Reach small 9 100 50 false disk swept ("c" ∷ []) (("g", ("manifest", "m0")) ∷ []) report "c"
      (tree, "t") tree_holds gc_run named tree_link read_tree

gc-has_entry_example :
    (has_entry (("g", ("manifest", "m0")) ∷ []) "manifest" "m0" ≡ true
      → Kept disk.manifests swept.manifests "m0")
    × (has_entry (("g", ("manifest", "m0")) ∷ []) "blob" "m0" ≡ true
        → Kept disk.blobs swept.blobs "m0")
gc-has_entry_example =
    gc-has_entry small 9 100 50 false disk swept ("c" ∷ []) (("g", ("manifest", "m0")) ∷ []) report
      "m0" gc_run

gc_total_example :
    (r : Result (GcResult × Disk)) × (gc 100 50 false small 9 disk ("c" ∷ []) [] ≡ some r)
gc_total_example = gc_total small listed 9 100 50 false disk ("c" ∷ []) [] small-IsListed enough
