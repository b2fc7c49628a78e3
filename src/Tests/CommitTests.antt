-- ===== src/Tests/CommitTests.antt =====
-- Runs over a small commit graph: p ← a, and b, a merge of p and a; q stands alone.
use dit.Prelude.{
  ◌+◌, ◌<◌, ◌≡◌, ◌↔◌, ◌≢◌, refl, String, Bool, Option, some, none, List, [], ◌∷◌, ◌==◌, Result, ok,
  raise, Error, has, if◌then◌else◌, arith, eq_iff,
}
use dit.Objects.{Commit}
use dit.Commits.{Loader, Ancestor}
use dit.Commits.IsAncestor.{push_parents, visit, round, walk, is_ancestor}
use dit.Commits.IsAncestor.Termination.{links_left, IsListed}
use dit.Commits.IsAncestor.Correct.{is_ancestor_lem}
use dit.Commits.MergeBase.{find_merge_base}
use dit.Commits.MergeBase.Termination.{missing, ListsParents}
use dit.Commits.MergeBase.Correct.{IsAnswer, find_merge_base_lem, find_merge_base-passes-Ancestor}

abbrev commit_with : List String → Commit
commit_with ps = record {
  tree_hash = "t";
  parent_hashes = ps;
  author = "me";
  message = "m";
  timestamp = 7;
}

abbrev graph : Loader
graph h =
    if h == "b"
    then ok (some (commit_with ("p" ∷ "a" ∷ [])))
    else if h == "a"
    then ok (some (commit_with ("p" ∷ [])))
    else if h == "p"
    then ok (some (commit_with []))
    else if h == "q"
    then ok (some (commit_with []))
    else ok none

is_ancestor_run : is_ancestor graph 9 "p" "b" ≡ some (ok Bool.true)
unfolding is_ancestor walk round visit push_parents has
is_ancestor_run = refl

graph-IsListed : IsListed graph ("b" ∷ "a" ∷ [])
unfolding has
graph-IsListed h absent = ground (arith, eq_iff h "b", eq_iff h "a", eq_iff "b" h, eq_iff "a" h)

enough : 1 + links_left graph ("b" ∷ "a" ∷ []) [] < 9
unfolding links_left has
enough = omega arith

is_ancestor_lem_example :
    (r : Result Bool) × (is_ancestor graph 9 "q" "b" ≡ some r)
    × ((b : Bool) → r ≡ ok b → (b ≡ Bool.true) ↔ Ancestor graph "q" "b")
    × ((e : Error) → r ≡ raise e → (h : String) × (graph h ≡ raise e))
is_ancestor_lem_example = is_ancestor_lem graph ("b" ∷ "a" ∷ []) 9 "q" "b" graph-IsListed enough

graph-ListsParents : ListsParents graph ("p" ∷ "a" ∷ [])
unfolding has
graph-ListsParents c p k read there =
    ground (arith, eq_iff c "b", eq_iff c "a", eq_iff c "p", eq_iff c "q")

enough_base : 2 + (missing ("p" ∷ "a" ∷ []) ("q" ∷ []) + missing ("p" ∷ "a" ∷ []) ("b" ∷ [])) < 9
unfolding missing has
enough_base = omega arith

find_merge_base_lem_example :
    (r : Result (Option String)) × (find_merge_base graph 9 "q" "b" ≡ some r)
    × IsAnswer graph "q" "b" r
find_merge_base_lem_example =
    find_merge_base_lem graph ("p" ∷ "a" ∷ []) 9 "q" "b" graph-ListsParents enough_base

ne : (s t : String) → (s == t) ≡ Bool.false → s ≢ t
ne s t h e = ground (arith, eq_iff s t)

find_merge_base-passes-Ancestor_example :
    (find_merge_base graph 9 "a" "b" ≡ some (ok (some "p"))) × Ancestor graph "a" "b"
find_merge_base-passes-Ancestor_example =
    find_merge_base-passes-Ancestor graph 8 "a" "b" "p" (commit_with ("p" ∷ []))
      (commit_with ("p" ∷ "a" ∷ [])) refl refl refl refl (ne "a" "b" refl) (ne "p" "a" refl)
      (ne "p" "b" refl)
