-- ===== src/Walker/Entries.antt =====
-- `tree_links`, `tree_sidecars` and `tree_blobs` against the entries of a tree.
use mathlib.Core.List.{Mem, mem-cons, mem-cons_self, mem-cons_of_mem, not-mem-nil}
use mathlib.Core.Logic.Or
use mathlib.Core.Path.{subst}
use dit.Prelude.{
  ◌≡◌, refl, sym, ap, String, Bool, true, false, not, opt_eq, some, List, [], ◌∷◌, ◌==◌, ◌||◌, map,
  has, arith, eq_iff, eq_of_test, Bool-cases, Option-cases, inl, inr,
}
use dit.Objects.{TreeEntry}
use dit.Walker.{commit, tree, manifest, tree_links, tree_sidecars, tree_blobs}
use dit.Walker.Items.{has_item}
use dit.Walker.Spec.{Names, NamesSidecar}

-- The entries of a tree, as the walk reads them.
more :
    {es : List TreeEntry} {kind h : String} (e : TreeEntry)
    → Names es kind h
    → Names (e ∷ es) kind h
more e (x, m, k, p) = (x, mem-cons_of_mem e m, k, p)

pub tree_links-Names :
    (es : List TreeEntry) (g : String)
    → (has_item (tree_links es) (tree, g) ≡ true → Names es "tree" g)
      × (has_item (tree_links es) (manifest, g) ≡ true → Names es "manifest" g)
unfolding tree_links has_item
tree_links-Names [] g = (λ h. cc, λ h. cc)
tree_links-Names (e ∷ es) g =
    let (trees, manifests) = tree_links-Names es g in
    elim (Bool-cases (e.obj_type == "manifest")) [
      | inl is_manifest ↦ (
        λ h. more e (trees (rw is_manifest at h)),
        λ h. elim (Bool-cases (e.obj_hash == g)) [
          | inl same ↦ (
            e,
            mem-cons_self,
            eq_of_test e.obj_type "manifest" is_manifest,
            eq_of_test e.obj_hash g same,
          )
          | inr other ↦ more e (manifests (rw (is_manifest, other) at h))
        ],
      )
      | inr no_manifest ↦ elim (Bool-cases (e.obj_type == "tree")) [
        | inl is_tree ↦ (
          λ h. elim (Bool-cases (e.obj_hash == g)) [
            | inl same ↦ (
              e,
              mem-cons_self,
              eq_of_test e.obj_type "tree" is_tree,
              eq_of_test e.obj_hash g same,
            )
            | inr other ↦ more e (trees (rw (no_manifest, is_tree, other) at h))
          ],
          λ h. more e (manifests (rw (no_manifest, is_tree) at h)),
        )
        | inr no_tree ↦ (
          λ h. more e (trees (rw (no_manifest, no_tree) at h)),
          λ h. more e (manifests (rw (no_manifest, no_tree) at h)),
        )
      ]
    ]

pub tree_blobs-Names :
    (es : List TreeEntry) (g : String) → has (tree_blobs es) g ≡ true → Names es "blob" g
unfolding tree_blobs has
tree_blobs-Names [] g h = cc
tree_blobs-Names (e ∷ es) g h = elim (Bool-cases (e.obj_type == "blob")) [
  | inl is_blob ↦ elim (Bool-cases (e.obj_hash == g)) [
    | inl same ↦
        (e, mem-cons_self, eq_of_test e.obj_type "blob" is_blob, eq_of_test e.obj_hash g same)
    | inr other ↦ more e (tree_blobs-Names es g (ground (arith, h, other)))
  ]
  | inr no_blob ↦ more e (tree_blobs-Names es g (ground (arith, h, no_blob)))
]

sidecar_later :
    {es : List TreeEntry} {h : String} (e : TreeEntry) → NamesSidecar es h → NamesSidecar (e ∷ es) h
sidecar_later e (x, m, k, p) = (x, mem-cons_of_mem e m, k, p)

pub tree_sidecars-NamesSidecar :
    (es : List TreeEntry) (g : String) → has (tree_sidecars es) g ≡ true → NamesSidecar es g
unfolding tree_sidecars has
tree_sidecars-NamesSidecar [] g h = cc
tree_sidecars-NamesSidecar (e ∷ es) g h = elim (Option-cases e.sidecar_hash) [
  | inl absent ↦ sidecar_later e (tree_sidecars-NamesSidecar es g (rw absent at h))
  | inr (s, there) ↦ elim (Bool-cases (s == "")) [
    | inl empty ↦ sidecar_later e (tree_sidecars-NamesSidecar es g (rw (there, empty) at h))
    | inr given ↦ elim (Bool-cases (s == g)) [
      | inl same ↦
          let p = eq_of_test s g same in
          let k : e.sidecar_hash ≡ some g = cc in
          (e, mem-cons_self, k, λ q. ground (arith, p, q, given))
      | inr other ↦
          sidecar_later e (tree_sidecars-NamesSidecar es g (rw (there, given, other) at h))
    ]
  ]
]

-- The other way: a property of the first entry, and of all where it holds of the later ones.
Mem-induct :
    (P : TreeEntry → List TreeEntry → Bool)
    → ((e : TreeEntry) (es : List TreeEntry) → P e (e ∷ es) ≡ true)
    → ((e x : TreeEntry) (es : List TreeEntry) → P e es ≡ true → P e (x ∷ es) ≡ true)
    → (e : TreeEntry) (es : List TreeEntry) → Mem e es
    → P e es ≡ true
Mem-induct P first later e [] m = absurd (not-mem-nil m)
Mem-induct P first later e (x ∷ es) m =
    Or.elim (hlevel) (mem-cons.0 m)
      (λ here. subst (λ u. P u (x ∷ es) ≡ true) (sym here) (first x es))
      (λ rest. later e x es (Mem-induct P first later e es rest))

tree_first :
    (e : TreeEntry) (es : List TreeEntry)
    → (not (e.obj_type == "tree") || has_item (tree_links (e ∷ es)) (tree, e.obj_hash)) ≡ true
unfolding tree_links has_item
tree_first e es = elim (Bool-cases (e.obj_type == "tree")) [
  | inl is_tree ↦
      let k = eq_of_test e.obj_type "tree" is_tree in
      rw k (ground (arith, eq_iff e.obj_hash e.obj_hash))
  | inr other ↦ rw other refl
]

tree_later :
    (e x : TreeEntry) (es : List TreeEntry)
    → (not (e.obj_type == "tree") || has_item (tree_links es) (tree, e.obj_hash)) ≡ true
    → (not (e.obj_type == "tree") || has_item (tree_links (x ∷ es)) (tree, e.obj_hash)) ≡ true
unfolding tree_links has_item
tree_later e x es h = ground arith

manifest_first :
    (e : TreeEntry) (es : List TreeEntry)
    → (not (e.obj_type == "manifest") || has_item (tree_links (e ∷ es)) (manifest, e.obj_hash))
      ≡ true
unfolding tree_links has_item
manifest_first e es = ground (arith, eq_iff e.obj_type "manifest", eq_iff e.obj_hash e.obj_hash)

manifest_later :
    (e x : TreeEntry) (es : List TreeEntry)
    → (not (e.obj_type == "manifest") || has_item (tree_links es) (manifest, e.obj_hash)) ≡ true
    → (not (e.obj_type == "manifest") || has_item (tree_links (x ∷ es)) (manifest, e.obj_hash))
      ≡ true
unfolding tree_links has_item
manifest_later e x es h = ground arith

blob_first :
    (e : TreeEntry) (es : List TreeEntry)
    → (not (e.obj_type == "blob") || has (tree_blobs (e ∷ es)) e.obj_hash) ≡ true
unfolding tree_blobs has
blob_first e es = elim (Bool-cases (e.obj_type == "blob")) [
  | inl is_blob ↦
      let k = eq_of_test e.obj_type "blob" is_blob in
      rw k (ground (arith, eq_iff e.obj_hash e.obj_hash))
  | inr other ↦ rw other refl
]

blob_later :
    (e x : TreeEntry) (es : List TreeEntry)
    → (not (e.obj_type == "blob") || has (tree_blobs es) e.obj_hash) ≡ true
    → (not (e.obj_type == "blob") || has (tree_blobs (x ∷ es)) e.obj_hash) ≡ true
unfolding tree_blobs has
blob_later e x es h = ground arith

sidecar_first :
    (s : String) (e : TreeEntry) (es : List TreeEntry)
    → (not (opt_eq e.sidecar_hash (some s)) || (s == "" || has (tree_sidecars (e ∷ es)) s)) ≡ true
unfolding tree_sidecars has
sidecar_first s e es = elim (Option-cases e.sidecar_hash) [
  | inl absent ↦ rw absent refl
  | inr (h, there) ↦ rw there (ground (arith, eq_iff h s))
]

sidecar_more :
    (s : String) (e x : TreeEntry) (es : List TreeEntry)
    → (not (opt_eq e.sidecar_hash (some s)) || (s == "" || has (tree_sidecars es) s)) ≡ true
    → (not (opt_eq e.sidecar_hash (some s)) || (s == "" || has (tree_sidecars (x ∷ es)) s)) ≡ true
unfolding tree_sidecars has
sidecar_more s e x es k = elim (Option-cases x.sidecar_hash) [
  | inl absent ↦ rw absent k
  | inr (h, there) ↦ rw there (ground arith)
]

pub Names-tree :
    (es : List TreeEntry) (g : String)
    → Names es "tree" g
    → has_item (tree_links es) (tree, g) ≡ true
Names-tree es g (e, m, k, p) =
    let h =
      Mem-induct
        (λ (x : TreeEntry) xs.
          not (x.obj_type == "tree") || has_item (tree_links xs) (tree, x.obj_hash))
        tree_first tree_later e es m in
    subst (λ u. has_item (tree_links es) (tree, u) ≡ true) p
      (ground (arith, eq_iff e.obj_type "tree", k, h))

pub Names-manifest :
    (es : List TreeEntry) (g : String)
    → Names es "manifest" g
    → has_item (tree_links es) (manifest, g) ≡ true
Names-manifest es g (e, m, k, p) =
    let h =
      Mem-induct
        (λ (x : TreeEntry) xs.
          not (x.obj_type == "manifest") || has_item (tree_links xs) (manifest, x.obj_hash))
        manifest_first manifest_later e es m in
    subst (λ u. has_item (tree_links es) (manifest, u) ≡ true) p
      (ground (arith, eq_iff e.obj_type "manifest", k, h))

pub Names-blob :
    (es : List TreeEntry) (g : String) → Names es "blob" g → has (tree_blobs es) g ≡ true
Names-blob es g (e, m, k, p) =
    let h =
      Mem-induct
        (λ (x : TreeEntry) xs. not (x.obj_type == "blob") || has (tree_blobs xs) x.obj_hash)
        blob_first blob_later e es m in
    subst (λ u. has (tree_blobs es) u ≡ true) p (ground (arith, eq_iff e.obj_type "blob", k, h))

pub NamesSidecar-tree :
    (es : List TreeEntry) (g : String) → NamesSidecar es g → has (tree_sidecars es) g ≡ true
NamesSidecar-tree es g (e, m, k, p) =
    let h =
      Mem-induct
        (λ (x : TreeEntry) xs.
          not (opt_eq x.sidecar_hash (some g)) || (g == "" || has (tree_sidecars xs) g))
        (sidecar_first g) (sidecar_more g) e es m in
    let h' : (not (opt_eq (some g) (some g)) || (g == "" || has (tree_sidecars es) g)) ≡ true =
      rw k at h in
    ground (arith, eq_iff g "", eq_iff g g, p, h')

pub parent_item :
    (hs : List String) (g : String) → has_item (map (λ p. (commit, p)) hs) (commit, g) ≡ has hs g
unfolding has_item has
parent_item [] g = refl
parent_item (h ∷ hs) g = ap (λ u. (h == g) || u) (parent_item hs g)

pub no_tree_item :
    (hs : List String) (g : String) → has_item (map (λ p. (commit, p)) hs) (tree, g) ≡ false
unfolding has_item
no_tree_item [] g = refl
no_tree_item (h ∷ hs) g = no_tree_item hs g

pub no_manifest_item :
    (hs : List String) (g : String) → has_item (map (λ p. (commit, p)) hs) (manifest, g) ≡ false
unfolding has_item
no_manifest_item [] g = refl
no_manifest_item (h ∷ hs) g = no_manifest_item hs g

pub no_commit_link :
    (es : List TreeEntry) (g : String) → has_item (tree_links es) (commit, g) ≡ false
unfolding tree_links has_item
no_commit_link [] g = refl
no_commit_link (e ∷ es) g = ground (arith, no_commit_link es g)
