-- ===== src/Merge/Commits/Correct.antt =====
-- The merge of two commits, path by path, from their flat maps.
use mathlib.Core.Path.{subst}
use dit.Prelude.{
  ◌≡◌, ◌≢◌, refl, ℕ, String, Bool, true, false, Option, none, some, [], ◌∷◌, ◌==◌, Result, ok,
  first_ok, type_error, require, if◌then◌else◌, arith, eq_iff, has, Distinct,
}
use dit.Prelude.Dict
use dit.Prelude.Dict.{Dict, has-keys}
use dit.Commits.{Loader}
use dit.Trees.{Leaf, TreeLoader, flatten_tree}
use dit.Trees.Paths.{flatten_tree-Distinct}
use dit.Merge.{MergeResult}
use dit.Merge.Files.{ManifestStore, merge_files}
use dit.Merge.Files.Paths.{keep, verdict}
use dit.Merge.Files.Correct.{entry, merge_files-keep}
use dit.Merge.Commits.{manifests_of, flat_of, load_tree_manifests, load_base, three_way_merge}

-- The hash that a leaf of a tree gives a merge: a manifest's, and none for another type.
unfoldable pub manifest_hash : Option Leaf → Option String
manifest_hash none = none
manifest_hash (some (kind, h, sidecar)) = if kind == "manifest" then some h else none

abbrev pub manifest_at : Dict Leaf → String → Option String
manifest_at flat p = manifest_hash (Dict.get flat p)

absent-manifests_of :
    (d : Dict Leaf) (p : String) → has (Dict.keys d) p ≡ false → Dict.get (manifests_of d) p ≡ none
unfolding manifests_of Dict.get Dict.keys has
absent-manifests_of [] p h = refl
absent-manifests_of ((q, (kind, h, sidecar)) ∷ d) p absent = ground (arith, absent-manifests_of d p)

get-manifests_of :
    (d : Dict Leaf) (p : String)
    → Distinct (Dict.keys d)
    → Dict.get (manifests_of d) p ≡ manifest_at d p
unfolding manifests_of Dict.get Dict.keys manifest_hash
get-manifests_of [] p h = refl
get-manifests_of ((q, (kind, h, sidecar)) ∷ d) p (new, rest) =
    ground (arith, get-manifests_of d p rest, absent-manifests_of d q new, eq_iff q p)

module _ (load_commit : Loader) (load_tree : TreeLoader) (depth : ℕ) where
  flat_of-Distinct :
      (h : String) (flat : Dict Leaf)
      → flat_of load_commit load_tree depth h ≡ ok flat
      → Distinct (Dict.keys flat)
  unfolding flat_of
  flat_of-Distinct h flat run =
      let (found, _, run₁) = first_ok (load_commit h) _ run in
      let (commit, _, run₂) =
        first_ok (require type_error found) (λ c. flatten_tree load_tree depth c.tree_hash "")
          run₁ in
      flatten_tree-Distinct load_tree depth commit.tree_hash "" flat run₂

  load-manifest_at :
      (h p : String) (files : Dict String)
      → load_tree_manifests load_commit load_tree depth h ≡ ok files
      → (flat : Dict Leaf) × (flat_of load_commit load_tree depth h ≡ ok flat)
        × (Dict.get files p ≡ manifest_at flat p)
  unfolding load_tree_manifests
  load-manifest_at h p files run =
      let (flat, found, run₁) =
        first_ok (flat_of load_commit load_tree depth h) (λ f. ok (manifests_of f)) run in
      let same : manifests_of flat ≡ files = cc in
      (
        flat,
        found,
        subst (λ x. Dict.get x p ≡ manifest_at flat p) same
            (get-manifests_of flat p (flat_of-Distinct h flat found)),
      )

  -- What a merge takes from the base: nothing where there is none.
  unfoldable pub base_flat : Option String → Result (Dict Leaf)
  base_flat none = ok []
  base_flat (some h) = if h == "" then ok [] else flat_of load_commit load_tree depth h

  chosen-manifest_at :
      (is_empty : Bool) (h p : String) (files : Dict String)
      → (if is_empty then ok [] else load_tree_manifests load_commit load_tree depth h) ≡ ok files
      → (flat : Dict Leaf) × ((if is_empty then ok [] else flat_of load_commit load_tree depth h)
          ≡ ok flat)
        × (Dict.get files p ≡ manifest_at flat p)
  unfolding manifest_hash Dict.get
  chosen-manifest_at true h p files run =
      let same : [] ≡ files = cc in ([], refl, subst (λ x. Dict.get x p ≡ none) same refl)
  chosen-manifest_at false h p files run = load-manifest_at h p files run

  base-manifest_at :
      (h : Option String) (p : String) (files : Dict String)
      → load_base load_commit load_tree depth h ≡ ok files
      → (flat : Dict Leaf) × (base_flat h ≡ ok flat) × (Dict.get files p ≡ manifest_at flat p)
  unfolding load_base base_flat manifest_hash Dict.get
  base-manifest_at none p files run =
      let same : [] ≡ files = cc in ([], refl, subst (λ x. Dict.get x p ≡ none) same refl)
  base-manifest_at (some h) p files run = chosen-manifest_at (h == "") h p files run

-- Where a merge of commits gives a result, the flat maps of the three commits were read, and on every
-- path where the rule of a three-way merge keeps a version, the entry of the result is that version.
-- The versions are those of manifests only: a leaf of another type counts as no file.
pub three_way_merge-keep :
    (load_commit : Loader) (load_tree : TreeLoader) (depth : ℕ) (store : ManifestStore)
    (s s' : store.State) (base : Option String) (ours theirs p : String) (r : MergeResult)
    → three_way_merge load_commit load_tree depth store s base ours theirs ≡ ok (r, s')
    → (b : Dict Leaf) × (o : Dict Leaf) × (t : Dict Leaf) × (base_flat load_commit load_tree depth
          base
        ≡ ok b)
      × (flat_of load_commit load_tree depth ours ≡ ok o)
      × (flat_of load_commit load_tree depth theirs ≡ ok t)
      × ((x : Option String)
          → verdict (manifest_at b p) (manifest_at o p) (manifest_at t p) ≡ keep x
          → entry r p ≡ x)
unfolding three_way_merge
three_way_merge-keep load_commit load_tree depth store s s' base ours theirs p r run =
    let (bf, e₁, run₁) = first_ok (load_base load_commit load_tree depth base) _ run in
    let (of, e₂, run₂) = first_ok (load_tree_manifests load_commit load_tree depth ours) _ run₁ in
    let (tf, e₃, run₃) =
      first_ok (load_tree_manifests load_commit load_tree depth theirs)
        (λ m. merge_files store bf of m s) run₂ in
    let (b, fb, gb) = base-manifest_at load_commit load_tree depth base p bf e₁ in
    let (o, fo, go) = load-manifest_at load_commit load_tree depth ours p of e₂ in
    let (t, ft, gt) = load-manifest_at load_commit load_tree depth theirs p tf e₃ in
    (
      b,
      o,
      t,
      fb,
      fo,
      ft,
      λ x v. merge_files-keep store bf of tf r s s' p x run₃ (rw (gb, go, gt) v),
    )

-- No manifest at the path: nothing there, or an entry of another kind.
abbrev pub IsOther : Dict Leaf → String → Type 0
IsOther flat p =
    (kind h : String) (sidecar : Option String)
    → Dict.get flat p ≡ some (kind, h, sidecar)
    → kind ≢ "manifest"

IsOther-manifest_hash :
    (leaf : Option Leaf)
    → ((kind h : String) (sidecar : Option String)
        → leaf ≡ some (kind, h, sidecar)
        → kind ≢ "manifest")
    → manifest_hash leaf ≡ none
unfolding manifest_hash
IsOther-manifest_hash none other = refl
IsOther-manifest_hash (some (kind, h, sidecar)) other =
    ground (arith, eq_iff kind "manifest", other kind h sidecar refl)

-- In any merge of commits that returns, a path at which the flat map of none of them has a
-- manifest, be it absent, a blob that all hold, or one that a side has added or changed, is not in
-- the merged entries.
pub three_way_merge-others :
    (load_commit : Loader) (load_tree : TreeLoader) (depth : ℕ) (store : ManifestStore)
    (s s' : store.State) (base : Option String) (ours theirs p : String) (r : MergeResult)
    (b o t : Dict Leaf)
    → three_way_merge load_commit load_tree depth store s base ours theirs ≡ ok (r, s')
    → base_flat load_commit load_tree depth base ≡ ok b
    → flat_of load_commit load_tree depth ours ≡ ok o
    → flat_of load_commit load_tree depth theirs ≡ ok t
    → IsOther b p
    → IsOther o p
    → IsOther t p
    → entry r p ≡ none
unfolding verdict
three_way_merge-others load_commit load_tree depth store s s' base ours theirs p r b o t run fb fo
      ft ob oo ot =
    let (b', o', t', fb', fo', ft', kept) =
      three_way_merge-keep load_commit load_tree depth store s s' base ours theirs p r run in
    let eb : b' ≡ b = cc in
    let eo : o' ≡ o = cc in
    let et : t' ≡ t = cc in
    kept none (
      rw
        (
          eb,
          eo,
          et,
          IsOther-manifest_hash (Dict.get b p) ob,
          IsOther-manifest_hash (Dict.get o p) oo,
          IsOther-manifest_hash (Dict.get t p) ot,
        )
        refl)
