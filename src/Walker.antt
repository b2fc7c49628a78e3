-- ===== src/Walker.antt =====
-- `walk_commit_objects` of core/walker.py: the objects that a commit reaches.
pub mod Items
pub mod Termination
pub mod Reachable
pub mod Spec
pub mod Entries
pub mod Leads
pub mod Exact
use dit.Prelude.{
  ℕ, zero, suc, ◌≡◌, refl, String, Bool, true, false, Option, none, some, List, [], ◌∷◌, ◌++◌, ◌==◌,
  ◌&&◌, ◌||◌, Result, ok, raise, ◌>>=◌, has, if◌then◌else◌, map,
}
use dit.Objects.{ManifestEntry, Manifest, TreeEntry, Tree, Commit, row_hashes}
use dit.Commits.{Loader, parents_of}
use dit.Trees.{TreeLoader, entries_of}

-- The kinds of objects on the stack.
pub data Kind : Type 0 where
  commit tree manifest : Kind

abbrev pub Item : Type 0
Item = Kind × String

-- `set.add`
unfoldable pub add : String → List String → List String
add h s = if has s h then s else h ∷ s

unfoldable pub add_all : List String → List String → List String
add_all [] s = s
add_all (h ∷ hs) s = add_all hs (add h s)

-- `result`
pub record Found : Type 0 where
  pub commits : List String
  pub trees : List String
  pub manifests : List String
  pub rows : List String
  pub sidecars : List String
  pub blobs : List String

abbrev pub nothing_found : Found
nothing_found = record {
  commits = [];
  trees = [];
  manifests = [];
  rows = [];
  sidecars = [];
  blobs = [];
}

-- `h in result["commits"]`, and so on
abbrev pub seen : Found → Item → Bool
seen r (commit, h) = has r.commits h
seen r (tree, h) = has r.trees h
seen r (manifest, h) = has r.manifests h

abbrev pub mark : Found → Item → Found
mark r (commit, h) = record r { commits = add h r.commits }
mark r (tree, h) = record r { trees = add h r.trees }
mark r (manifest, h) = record r { manifests = add h r.manifests }

-- What an object holds: items for the stack, in the order in which they are pushed, and hashes.
pub record Contents : Type 0 where
  pub links : List Item
  pub rows : List String
  pub sidecars : List String
  pub blobs : List String

abbrev pub commit_contents : Option Commit → Contents
commit_contents none = record { links = []; rows = []; sidecars = []; blobs = [] }
commit_contents (some c) = record {
  links = (tree, c.tree_hash) ∷ map (λ p. (commit, p)) c.parent_hashes;
  rows = [];
  sidecars = [];
  blobs = [];
}

unfoldable pub tree_links : List TreeEntry → List Item
tree_links [] = []
tree_links (e ∷ es) =
    let rest = tree_links es in
    if e.obj_type == "manifest"
    then (manifest, e.obj_hash) ∷ rest
    else if e.obj_type == "tree"
    then (tree, e.obj_hash) ∷ rest
    else rest

unfoldable pub tree_sidecars : List TreeEntry → List String
tree_sidecars [] = []
tree_sidecars (e ∷ es) =
    let rest = tree_sidecars es in
    elim e.sidecar_hash [ none ↦ rest | some h ↦ if h == "" then rest else h ∷ rest ]

unfoldable pub tree_blobs : List TreeEntry → List String
tree_blobs [] = []
tree_blobs (e ∷ es) =
    let rest = tree_blobs es in
    if e.obj_type == "manifest"
    then rest
    else if e.obj_type == "tree"
    then rest
    else if e.obj_type == "blob"
    then e.obj_hash ∷ rest
    else rest

abbrev pub tree_contents : List TreeEntry → Contents
tree_contents es = record {
  links = tree_links es;
  rows = [];
  sidecars = tree_sidecars es;
  blobs = tree_blobs es;
}

abbrev pub rows_of : Option Manifest → List String
rows_of none = []
rows_of (some m) = row_hashes m.entries

abbrev pub manifest_contents : List String → Contents
manifest_contents hs = record { links = []; rows = hs; sidecars = []; blobs = [] }

unfoldable pub push : List Item → List Item → List Item
push [] stack = stack
push (x ∷ xs) stack = push xs (x ∷ stack)

abbrev pub collect_leaves : Contents → Found → Found
collect_leaves c r = record r {
  rows = add_all c.rows r.rows;
  sidecars = add_all c.sidecars r.sidecars;
  blobs = add_all c.blobs r.blobs;
}

-- The reads of the three kinds of objects, with their deserialisers.
pub record Objects : Type 0 where
  pub load_commit : Loader
  pub load_tree : TreeLoader
  pub load_manifest : String → Result (Option Manifest)

-- What a round of the loop does.
pub data Round : Type 0 where
  return : Result Found → Round
  go_on : Found → List Item → Round

module _ (objects : Objects) where
  unfoldable pub contents : Item → Result Contents
  contents (commit, h) = do c ← objects.load_commit h; ok (commit_contents c)
  contents (tree, h) = do t ← objects.load_tree h; ok (tree_contents (entries_of t))
  contents (manifest, h) = do m ← objects.load_manifest h; ok (manifest_contents (rows_of m))

  abbrev pub visit : Found → Item → List Item → Result Contents → Round
  visit r x stack (raise e) = return (raise e)
  visit r x stack (ok c) = go_on (collect_leaves c (mark r x)) (push c.links stack)

  unfoldable pub round : Found → List Item → Round
  unfolding contents
  round r [] = return (ok r)
  round r (x ∷ stack) = if seen r x then go_on r stack else visit r x stack (contents x)

  -- The `while` loop, on fuel: the outer `none` is out of fuel.
  unfoldable pub walk : ℕ → Found → List Item → Option (Result Found)
  walk zero r stack = none
  walk (suc fuel) r stack = elim (round r stack) [
    | return x ↦ some x
    | go_on r' stack' ↦ walk fuel r' stack'
  ]

  unfoldable pub walk_commit_objects : ℕ → String → Option (Result Found)
  walk_commit_objects fuel commit_hash = walk fuel nothing_found ((commit, commit_hash) ∷ [])
