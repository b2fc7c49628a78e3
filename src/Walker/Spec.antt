-- ===== src/Walker/Spec.antt =====
-- The links between the objects of a repository, and the hashes that each names: read off the
-- objects alone.
use mathlib.Core.List.{Mem}
use dit.Prelude.{Error, ◌≡◌, ◌≢◌, String, true, some, List, ok, raise, has}
use dit.Objects.{Manifest, TreeEntry, Tree, Commit, row_hashes}
use dit.Walker.{commit, tree, manifest, Item, Objects}

-- The entry of a tree that names an object of a kind.
abbrev pub Names : List TreeEntry → String → String → Type 0
Names es kind h = (e : TreeEntry) × Mem e es × (e.obj_type ≡ kind) × (e.obj_hash ≡ h)

abbrev pub NamesSidecar : List TreeEntry → String → Type 0
NamesSidecar es h = (e : TreeEntry) × Mem e es × (e.sidecar_hash ≡ some h) × (h ≢ "")

module _ (objects : Objects) where
  -- A commit leads to its tree and its parents, a tree to the trees and manifests of its entries.
  abbrev pub Leads : Item → Item → Type 0
  Leads (commit, h) (tree, g) =
      (c : Commit) × (objects.load_commit h ≡ ok (some c)) × (c.tree_hash ≡ g)
  Leads (commit, h) (commit, g) =
      (c : Commit) × (objects.load_commit h ≡ ok (some c)) × (has c.parent_hashes g ≡ true)
  Leads (commit, h) (manifest, g) = ⊥
  Leads (tree, h) (tree, g) =
      (t : Tree) × (objects.load_tree h ≡ ok (some t)) × Names t.entries "tree" g
  Leads (tree, h) (manifest, g) =
      (t : Tree) × (objects.load_tree h ≡ ok (some t)) × Names t.entries "manifest" g
  Leads (tree, h) (commit, g) = ⊥
  Leads (manifest, h) y = ⊥

  abbrev pub HoldsRow : Item → String → Type 0
  HoldsRow (manifest, h) g =
      (m : Manifest) × (objects.load_manifest h ≡ ok (some m))
      × (has (row_hashes m.entries) g ≡ true)
  HoldsRow (commit, h) g = ⊥
  HoldsRow (tree, h) g = ⊥

  abbrev pub HoldsSidecar : Item → String → Type 0
  HoldsSidecar (tree, h) g =
      (t : Tree) × (objects.load_tree h ≡ ok (some t)) × NamesSidecar t.entries g
  HoldsSidecar (commit, h) g = ⊥
  HoldsSidecar (manifest, h) g = ⊥

  abbrev pub HoldsBlob : Item → String → Type 0
  HoldsBlob (tree, h) g =
      (t : Tree) × (objects.load_tree h ≡ ok (some t)) × Names t.entries "blob" g
  HoldsBlob (commit, h) g = ⊥
  HoldsBlob (manifest, h) g = ⊥

  -- The exception of reading an object.
  abbrev pub Raises : Item → Error → Type 0
  Raises (commit, h) e = objects.load_commit h ≡ raise e
  Raises (tree, h) e = objects.load_tree h ≡ raise e
  Raises (manifest, h) e = objects.load_manifest h ≡ raise e

  pub data Reached (root : Item) : Item → Type 0 where
    root_itself : Reached root root
    along : {x y : Item} → Reached root x → Leads x y → Reached root y
