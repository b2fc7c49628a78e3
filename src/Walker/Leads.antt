-- ===== src/Walker/Leads.antt =====
-- `contents` against the links and names of the objects.
use mathlib.Core.Path.{subst}
use dit.Prelude.{
  ◌≡◌, refl, sym, String, true, false, Option, none, some, ok, first_ok, has, arith, eq_iff,
  eq_of_test,
}
use dit.Objects.{Manifest, Tree, Commit, row_hashes}
use dit.Trees.{entries_of}
use dit.Walker.{
  commit, tree, manifest, Item, Contents, Objects, contents, tree_links, tree_sidecars, tree_blobs,
  commit_contents, tree_contents, manifest_contents, rows_of,
}
use dit.Walker.Items.{has_item}
use dit.Walker.Spec.{Leads, HoldsRow, HoldsSidecar, HoldsBlob}
use dit.Walker.Entries.{
  tree_links-Names, tree_blobs-Names, tree_sidecars-NamesSidecar, Names-tree, Names-manifest,
  Names-blob, NamesSidecar-tree, parent_item, no_tree_item, no_manifest_item, no_commit_link,
}

module _ (objects : Objects) where
  commit-Leads :
      (h : String) (o : Option Commit) (y : Item)
      → objects.load_commit h ≡ ok o
      → has_item (commit_contents o).links y ≡ true
      → Leads objects (commit, h) y
  unfolding has_item
  commit-Leads h none y loaded link = cc
  commit-Leads h (some c) (commit, g) loaded link =
      (c, loaded, ground (arith, parent_item c.parent_hashes g, link))
  commit-Leads h (some c) (tree, g) loaded link =
      (c, loaded, eq_of_test c.tree_hash g (ground (arith, no_tree_item c.parent_hashes g, link)))
  commit-Leads h (some c) (manifest, g) loaded link =
      ground (arith, no_manifest_item c.parent_hashes g, link)

  tree-Leads :
      (h : String) (o : Option Tree) (y : Item)
      → objects.load_tree h ≡ ok o
      → has_item (tree_links (entries_of o)) y ≡ true
      → Leads objects (tree, h) y
  unfolding has_item tree_links
  tree-Leads h none y loaded link = cc
  tree-Leads h (some t) (commit, g) loaded link = ground (arith, no_commit_link t.entries g, link)
  tree-Leads h (some t) (tree, g) loaded link = (t, loaded, (tree_links-Names t.entries g).0 link)
  tree-Leads h (some t) (manifest, g) loaded link =
      (t, loaded, (tree_links-Names t.entries g).1 link)

  -- What the walk pushes for an object are the objects that it leads to.
  pub links-Leads :
      (x y : Item) (c : Contents)
      → contents objects x ≡ ok c
      → has_item c.links y ≡ true
      → Leads objects x y
  unfolding contents has_item
  links-Leads (commit, h) y c read link =
      let (o, loaded, e) = first_ok (objects.load_commit h) _ read in
      let same : commit_contents o ≡ c = cc in
      commit-Leads h o y loaded (subst (λ u. has_item u.links y ≡ true) (sym same) link)
  links-Leads (tree, h) y c read link =
      let (o, loaded, e) = first_ok (objects.load_tree h) _ read in
      let same : tree_contents (entries_of o) ≡ c = cc in
      tree-Leads h o y loaded (subst (λ u. has_item u.links y ≡ true) (sym same) link)
  links-Leads (manifest, h) y c read link =
      let (o, loaded, e) = first_ok (objects.load_manifest h) _ read in
      let same : manifest_contents (rows_of o) ≡ c = cc in
      let link' : has_item (manifest_contents (rows_of o)).links y ≡ true =
        subst (λ u. has_item u.links y ≡ true) (sym same) link in
      cc

  pub Leads-links :
      (x y : Item)
      → Leads objects x y
      → (c : Contents) × (contents objects x ≡ ok c) × (has_item c.links y ≡ true)
  unfolding contents has_item
  Leads-links (commit, h) (commit, g) (c, loaded, k) =
      (commit_contents (some c), rw loaded refl, ground (arith, parent_item c.parent_hashes g, k))
  Leads-links (commit, h) (tree, g) (c, loaded, k) =
      (commit_contents (some c), rw loaded refl, ground (arith, eq_iff c.tree_hash g, k))
  Leads-links (commit, h) (manifest, g) k = absurd k
  Leads-links (tree, h) (commit, g) k = absurd k
  Leads-links (tree, h) (tree, g) (t, loaded, k) =
      (tree_contents t.entries, rw loaded refl, Names-tree t.entries g k)
  Leads-links (tree, h) (manifest, g) (t, loaded, k) =
      (tree_contents t.entries, rw loaded refl, Names-manifest t.entries g k)
  Leads-links (manifest, h) y k = absurd k

  -- The hashes that it keeps are those that an object names.
  no_commit_leaf :
      (h : String) (o : Option Commit) (g : String)
      → (has (commit_contents o).rows g ≡ false)
        × (has (commit_contents o).sidecars g ≡ false)
        × (has (commit_contents o).blobs g ≡ false)
  unfolding has
  no_commit_leaf h none g = (refl, refl, refl)
  no_commit_leaf h (some c) g = (refl, refl, refl)

  commit_leaves :
      (h g : String) (c : Contents)
      → contents objects (commit, h) ≡ ok c
      → (has c.rows g ≡ false) × (has c.sidecars g ≡ false) × (has c.blobs g ≡ false)
  unfolding contents
  commit_leaves h g c read =
      let (o, loaded, e) = first_ok (objects.load_commit h) _ read in
      let same : commit_contents o ≡ c = cc in
      subst
        (λ (u : Contents).
          (has u.rows g ≡ false) × (has u.sidecars g ≡ false) × (has u.blobs g ≡ false))
        same (no_commit_leaf h o g)

  manifest_rows :
      (h : String) (o : Option Manifest) (g : String)
      → objects.load_manifest h ≡ ok o
      → has (rows_of o) g ≡ true
      → HoldsRow objects (manifest, h) g
  unfolding has
  manifest_rows h none g loaded k = cc
  manifest_rows h (some m) g loaded k = (m, loaded, k)

  tree_sidecar :
      (h : String) (o : Option Tree) (g : String)
      → objects.load_tree h ≡ ok o
      → has (tree_sidecars (entries_of o)) g ≡ true
      → HoldsSidecar objects (tree, h) g
  unfolding has tree_sidecars
  tree_sidecar h none g loaded k = cc
  tree_sidecar h (some t) g loaded k = (t, loaded, tree_sidecars-NamesSidecar t.entries g k)

  tree_blob :
      (h : String) (o : Option Tree) (g : String)
      → objects.load_tree h ≡ ok o
      → has (tree_blobs (entries_of o)) g ≡ true
      → HoldsBlob objects (tree, h) g
  unfolding has tree_blobs
  tree_blob h none g loaded k = cc
  tree_blob h (some t) g loaded k = (t, loaded, tree_blobs-Names t.entries g k)

  pub rows-HoldsRow :
      (x : Item) (g : String) (c : Contents)
      → contents objects x ≡ ok c
      → has c.rows g ≡ true
      → HoldsRow objects x g
  unfolding contents has
  rows-HoldsRow (commit, h) g c read k = let (none_, _, _) = commit_leaves h g c read in cc
  rows-HoldsRow (tree, h) g c read k =
      let (o, loaded, e) = first_ok (objects.load_tree h) _ read in
      let same : tree_contents (entries_of o) ≡ c = cc in
      let k' : has (tree_contents (entries_of o)).rows g ≡ true =
        subst (λ (u : Contents). has u.rows g ≡ true) (sym same) k in
      cc
  rows-HoldsRow (manifest, h) g c read k =
      let (o, loaded, e) = first_ok (objects.load_manifest h) _ read in
      let same : manifest_contents (rows_of o) ≡ c = cc in
      manifest_rows h o g loaded (subst (λ (u : Contents). has u.rows g ≡ true) (sym same) k)

  pub HoldsRow-rows :
      (x : Item) (g : String)
      → HoldsRow objects x g
      → (c : Contents) × (contents objects x ≡ ok c) × (has c.rows g ≡ true)
  unfolding contents
  HoldsRow-rows (manifest, h) g (m, loaded, k) =
      (manifest_contents (row_hashes m.entries), rw loaded refl, k)
  HoldsRow-rows (commit, h) g k = absurd k
  HoldsRow-rows (tree, h) g k = absurd k

  pub sidecars-HoldsSidecar :
      (x : Item) (g : String) (c : Contents)
      → contents objects x ≡ ok c
      → has c.sidecars g ≡ true
      → HoldsSidecar objects x g
  unfolding contents has
  sidecars-HoldsSidecar (commit, h) g c read k = let (_, none_, _) = commit_leaves h g c read in cc
  sidecars-HoldsSidecar (tree, h) g c read k =
      let (o, loaded, e) = first_ok (objects.load_tree h) _ read in
      let same : tree_contents (entries_of o) ≡ c = cc in
      tree_sidecar h o g loaded (subst (λ (u : Contents). has u.sidecars g ≡ true) (sym same) k)
  sidecars-HoldsSidecar (manifest, h) g c read k =
      let (o, loaded, e) = first_ok (objects.load_manifest h) _ read in
      let same : manifest_contents (rows_of o) ≡ c = cc in
      let k' : has (manifest_contents (rows_of o)).sidecars g ≡ true =
        subst (λ (u : Contents). has u.sidecars g ≡ true) (sym same) k in
      cc

  pub HoldsSidecar-sidecars :
      (x : Item) (g : String)
      → HoldsSidecar objects x g
      → (c : Contents) × (contents objects x ≡ ok c) × (has c.sidecars g ≡ true)
  unfolding contents
  HoldsSidecar-sidecars (tree, h) g (t, loaded, k) =
      (tree_contents t.entries, rw loaded refl, NamesSidecar-tree t.entries g k)
  HoldsSidecar-sidecars (commit, h) g k = absurd k
  HoldsSidecar-sidecars (manifest, h) g k = absurd k

  pub blobs-HoldsBlob :
      (x : Item) (g : String) (c : Contents)
      → contents objects x ≡ ok c
      → has c.blobs g ≡ true
      → HoldsBlob objects x g
  unfolding contents has
  blobs-HoldsBlob (commit, h) g c read k = let (_, _, none_) = commit_leaves h g c read in cc
  blobs-HoldsBlob (tree, h) g c read k =
      let (o, loaded, e) = first_ok (objects.load_tree h) _ read in
      let same : tree_contents (entries_of o) ≡ c = cc in
      tree_blob h o g loaded (subst (λ (u : Contents). has u.blobs g ≡ true) (sym same) k)
  blobs-HoldsBlob (manifest, h) g c read k =
      let (o, loaded, e) = first_ok (objects.load_manifest h) _ read in
      let same : manifest_contents (rows_of o) ≡ c = cc in
      let k' : has (manifest_contents (rows_of o)).blobs g ≡ true =
        subst (λ (u : Contents). has u.blobs g ≡ true) (sym same) k in
      cc

  pub HoldsBlob-blobs :
      (x : Item) (g : String)
      → HoldsBlob objects x g
      → (c : Contents) × (contents objects x ≡ ok c) × (has c.blobs g ≡ true)
  unfolding contents
  HoldsBlob-blobs (tree, h) g (t, loaded, k) =
      (tree_contents t.entries, rw loaded refl, Names-blob t.entries g k)
  HoldsBlob-blobs (commit, h) g k = absurd k
  HoldsBlob-blobs (manifest, h) g k = absurd k
