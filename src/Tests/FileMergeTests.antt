-- ===== src/Tests/FileMergeTests.antt =====
-- Merges of files, over a store whose manifests are all empty and which counts its writes.
use dit.Prelude.{
  ap, sym, ◌∙◌, ℕ, ◌+◌, ◌≡◌, ◌≢◌, refl, String, Option, none, some, [], ◌∷◌, ◌==◌, ok,
  if◌then◌else◌, arith, eq_iff, to_set, has,
}
use dit.Prelude.Dict
use dit.Prelude.Dict.{Dict}
use dit.Objects.{TreeEntry}
use dit.Commits.{Loader}
use dit.Trees.{Leaf, TreeLoader, flatten_tree, flatten_entries, flatten_entry, full_path}
use dit.Merge.{MergeResult}
use dit.Merge.Files.{
  ManifestStore, merge_path, merge_paths, merge_known, merge_new, all_paths, sort_paths,
  insert_path, merge_files,
}
use dit.Merge.Files.Paths.{keep, verdict, carried_out, merge_path-verdict}
use dit.Merge.Files.Correct.{entry, merge_files-keep, merge_files-clean}
use dit.Merge.Commits.{manifests_of, flat_of, load_tree_manifests, load_base, three_way_merge}
use dit.Merge.Commits.Correct.{
  base_flat, manifest_at, IsOther, three_way_merge-keep, three_way_merge-others,
}

abbrev counting : ManifestStore
counting = record {
  State = ℕ;
  read = λ s h. ok (record { entries = [] });
  write = λ s m. ok ("merged", s + 1);
}

abbrev no_result : MergeResult
no_result = record { merged_tree_entries = []; conflicts = [] }

merge_path-verdict_example :
    merge_path counting "f" no_result 0 (some "b") (some "o") (some "t")
    ≡ carried_out counting "f" no_result 0
        (verdict (some "b") (some "o") (some "t"))
        (some "b")
        (some "o")
        (some "t")
merge_path-verdict_example =
    merge_path-verdict counting "f" no_result 0 (some "b") (some "o") (some "t")

abbrev base : Dict String
base = ("f", "f0") ∷ ("g", "g0") ∷ []

abbrev ours : Dict String
ours = ("f", "f1") ∷ ("g", "g0") ∷ []

abbrev theirs : Dict String
theirs = ("f", "f0") ∷ ("h", "h0") ∷ []

abbrev merged_files : MergeResult
merged_files = record { merged_tree_entries = ("f", "f1") ∷ ("h", "h0") ∷ []; conflicts = [] }

merge_files_run : merge_files counting base ours theirs 0 ≡ ok (merged_files, 0)
unfolding merge_files all_paths merge_paths merge_path merge_known merge_new sort_paths insert_path
    to_set has Dict.get Dict.put Dict.keys
merge_files_run = refl

kept : verdict (Dict.get base "g") (Dict.get ours "g") (Dict.get theirs "g") ≡ keep none
unfolding verdict Dict.get
kept = refl

merge_files-keep_example : entry merged_files "g" ≡ none
merge_files-keep_example =
    merge_files-keep counting base ours theirs merged_files 0 0 "g" none merge_files_run kept

abbrev wanted : String → Option String
wanted p = if p == "f" then some "f1" else if p == "h" then some "h0" else none

all_decided :
    (p : String) → verdict (Dict.get base p) (Dict.get ours p) (Dict.get theirs p) ≡ keep (wanted p)
unfolding verdict Dict.get
all_decided p =
    ground
      (arith, eq_iff p "f", eq_iff "f" p, eq_iff p "g", eq_iff "g" p, eq_iff p "h", eq_iff "h" p)

merge_files-clean_example :
    (r : MergeResult) × (merge_files counting base ours theirs 0 ≡ ok (r, 0))
    × (r.conflicts ≡ [])
    × ((p : String) → entry r p ≡ wanted p)
merge_files-clean_example = merge_files-clean counting base ours theirs 0 wanted all_decided

-- One commit, whose tree is a manifest "f" and a blob "logo".
abbrev only_commit : Loader
only_commit h = ok (
    some
      (record { tree_hash = "t"; parent_hashes = []; author = "me"; message = "m"; timestamp = 0 }))

abbrev leaf : String → String → TreeEntry
leaf n kind = record { name = n; obj_type = kind; obj_hash = "h"; sidecar_hash = none }

abbrev only_tree : TreeLoader
only_tree h = ok (some (record { entries = leaf "f" "manifest" ∷ leaf "logo" "blob" ∷ [] }))

abbrev flat : Dict Leaf
flat = ("f", ("manifest", "h", none)) ∷ ("logo", ("blob", "h", none)) ∷ []

flat_run : (h : String) → flat_of only_commit only_tree 5 h ≡ ok flat
unfolding flat_of flatten_tree flatten_entries flatten_entry full_path Dict.put
flat_run h = refl

abbrev without_logo : MergeResult
without_logo = record { merged_tree_entries = ("f", "h") ∷ []; conflicts = [] }

merge_run :
    three_way_merge only_commit only_tree 5 counting 0 (some "c") "c" "c" ≡ ok (without_logo, 0)
unfolding three_way_merge load_base load_tree_manifests manifests_of flat_of flatten_tree
    flatten_entries flatten_entry full_path merge_files all_paths merge_paths merge_path merge_known
    merge_new sort_paths insert_path to_set has Dict.get Dict.put Dict.keys
merge_run = refl

base_run : base_flat only_commit only_tree 5 (some "c") ≡ ok flat
unfolding base_flat
base_run = flat_run "c"

abbrev blob : String
blob = "blob"

abbrev logo : Leaf
logo = (blob, "h", none)

logo_there : Dict.get flat "logo" ≡ some logo
unfolding Dict.get
logo_there = refl

not_manifest : blob ≢ "manifest"
not_manifest e = ground (arith, eq_iff blob "manifest")

three_way_merge-keep_example :
    (b : Dict Leaf) × (o : Dict Leaf) × (t : Dict Leaf) × (base_flat only_commit only_tree 5
        (some "c")
      ≡ ok b)
    × (flat_of only_commit only_tree 5 "c" ≡ ok o)
    × (flat_of only_commit only_tree 5 "c" ≡ ok t)
    × ((x : Option String)
        → verdict (manifest_at b "f") (manifest_at o "f") (manifest_at t "f") ≡ keep x
        → entry without_logo "f" ≡ x)
three_way_merge-keep_example =
    three_way_merge-keep only_commit only_tree 5 counting 0 0 (some "c") "c" "c" "f" without_logo
      merge_run

other_kind :
    (held : Leaf) (kind h : String) (sidecar : Option String)
    → held ≡ (kind, h, sidecar)
    → held.0 ≢ "manifest"
    → kind ≢ "manifest"
other_kind held kind h sidecar same other e = other (ap (λ (x : Leaf). x.0) same ∙ e)

abbrev or_logo : Option Leaf → Leaf
or_logo none = logo
or_logo (some held) = held

logo-IsOther : IsOther flat "logo"
logo-IsOther kind h sidecar there e =
    let same : some logo ≡ some (kind, h, sidecar) = sym logo_there ∙ there in
    other_kind logo kind h sidecar (ap or_logo same) not_manifest e

three_way_merge-others_example : entry without_logo "logo" ≡ none
three_way_merge-others_example =
    three_way_merge-others only_commit only_tree 5 counting 0 0 (some "c") "c" "c" "logo"
      without_logo flat flat flat merge_run base_run (flat_run "c") (flat_run "c") logo-IsOther
      logo-IsOther logo-IsOther
