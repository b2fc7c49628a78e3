-- ===== src/Tests/BlameTests.antt =====
-- The blame of a file through two commits, of which the second reorders its rows and adds one, and
-- a third that only reorders.
use dit.Prelude.{
  get_elem?, ℕ, suc, ◌≡◌, refl, String, none, some, List, [], ◌∷◌, ◌==◌, Result, ok, raise,
  file_not_found, has, filter, to_set, All, if◌then◌else◌,
}
use dit.Prelude.Dict
use dit.Objects.{ManifestEntry, Manifest, Commit, row_hashes, entries_eq, entry_eq, fingerprint}
use dit.Commits.{Loader}
use dit.Diff.{
  diff_manifests, match_added, append_at, index_one, index_removed, match_found, match_one,
  surface_order, take_first,
}
use dit.Blame.{
  Line, first_parent, blame_file, blame_map_of, walk, attribute_all, added_rows, attribute,
  index_of, refreshed_rows, lines, attribute_rest,
}
use dit.Blame.History.{Event, row_history}
use dit.Blame.Trail.{IsTrail, row_history-IsTrail}
use dit.Blame.Correct.{IsOrigin, History, hashes_of, blame_file_lem}

abbrev commit_of : String → List String → Commit
commit_of author ps = record {
  tree_hash = "t";
  parent_hashes = ps;
  author = author;
  message = "m";
  timestamp = 7;
}

abbrev load : Loader
load h =
    if h == "a"
    then ok (some (commit_of "ann" []))
    else if h == "b"
    then ok (some (commit_of "bob" ("a" ∷ [])))
    else if h == "c"
    then ok (some (commit_of "cat" ("b" ∷ [])))
    else ok none

abbrev row : String → ManifestEntry
row h = record { row_hash = h; query_fingerprint = none }

abbrev first : Manifest
first = record { entries = row "x" ∷ row "y" ∷ [] }

abbrev second : Manifest
second = record { entries = row "y" ∷ row "x" ∷ row "z" ∷ [] }

abbrev third : Manifest
third = record { entries = row "x" ∷ row "y" ∷ row "z" ∷ [] }

abbrev manifest_of : String → Result Manifest
manifest_of h =
    if h == "a"
    then ok first
    else if h == "b"
    then ok second
    else if h == "c"
    then ok third
    else raise file_not_found

history : (fuel : ℕ) → History load manifest_of "b" (suc (suc fuel))
unfolding first_parent
history fuel =
    History.changed "b" "a" (commit_of "bob" ("a" ∷ [])) first (suc fuel) refl refl refl refl
      (History.root "a" (commit_of "ann" []) fuel refl refl refl)

blame_file_lem_example :
    (ls : List Line) × (blame_file load manifest_of 9 "b" ≡ some (ok ls))
    × (hashes_of ls ≡ row_hashes second.entries)
    × All (λ (l : Line). IsOrigin load manifest_of l.row_hash l.commit_hash) ls
blame_file_lem_example = blame_file_lem load manifest_of "b" second 9 (history 7) refl

abbrev blamed_on : String → ℕ → String → String → Line
blamed_on h i c author = record {
  row_index = i;
  row_hash = h;
  commit_hash = c;
  author = author;
  timestamp = 7;
  query_fingerprint = none;
}

-- The commit that reorders is blamed for every row.
reorder_run :
    blame_file load manifest_of 9 "c"
    ≡ some (
        ok (blamed_on "x" 0 "c" "cat" ∷ blamed_on "y" 1 "c" "cat" ∷ blamed_on "z" 2 "c" "cat" ∷ []))
unfolding blame_file blame_map_of walk to_set row_hashes has first_parent diff_manifests match_added
    filter attribute_all added_rows entries_eq attribute index_of refreshed_rows lines Dict.get
    attribute_rest append_at index_one index_removed match_found match_one surface_order take_first
    entry_eq fingerprint Dict.pop Dict.put
reorder_run = refl

third_row : get_elem? second.entries 2 ≡ some (row "z")
third_row = refl

row_history-IsTrail_example :
    (events : List Event) × (row_history load manifest_of 9 "b" 2 ≡ some (ok events))
    × IsTrail load manifest_of "z" events
row_history-IsTrail_example =
    row_history-IsTrail load manifest_of "b" 2 9 second (row "z") (history 7) refl third_row
