-- ===== src/Walker/Items.antt =====
-- Items of the walk: tests, membership on the stack, and what marking one does.
use dit.Prelude.{
  ◌+◌, ◌≡◌, refl, String, Bool, true, false, List, [], ◌∷◌, ◌==◌, ◌&&◌, ◌||◌, has, length, arith,
  eq_iff, Bool-cases, inl, inr, eq_of_test,
}
use dit.Walker.{
  Kind, commit, tree, manifest, Item, add, add_all, Found, seen, mark, push, Contents,
  collect_leaves,
}

abbrev pub kind_eq : Kind → Kind → Bool
kind_eq commit commit = true
kind_eq tree tree = true
kind_eq manifest manifest = true
kind_eq _ _ = false

abbrev pub item_eq : Item → Item → Bool
item_eq (k, h) (j, g) = kind_eq k j && h == g

unfoldable pub has_item : List Item → Item → Bool
has_item [] y = false
has_item (x ∷ xs) y = item_eq x y || has_item xs y

pub item_eq_self : (x : Item) → item_eq x x ≡ true
item_eq_self (commit, h) = (eq_iff h h).1 refl
item_eq_self (tree, h) = (eq_iff h h).1 refl
item_eq_self (manifest, h) = (eq_iff h h).1 refl

pub eq_of_item_eq : (x y : Item) → item_eq x y ≡ true → x ≡ y
eq_of_item_eq (commit, h) (commit, g) e = let p = eq_of_test h g e in cc
eq_of_item_eq (tree, h) (tree, g) e = let p = eq_of_test h g e in cc
eq_of_item_eq (manifest, h) (manifest, g) e = let p = eq_of_test h g e in cc
eq_of_item_eq (commit, h) (tree, g) e = cc
eq_of_item_eq (commit, h) (manifest, g) e = cc
eq_of_item_eq (tree, h) (commit, g) e = cc
eq_of_item_eq (tree, h) (manifest, g) e = cc
eq_of_item_eq (manifest, h) (commit, g) e = cc
eq_of_item_eq (manifest, h) (tree, g) e = cc

pub has-add : (h g : String) (s : List String) → has (add h s) g ≡ (h == g || has s g)
unfolding add has
has-add h g s = elim (Bool-cases (has s h)) [
  | inl old ↦ rw old (elim (Bool-cases (h == g)) [
    | inl same ↦ ground (arith, eq_of_test h g same, old)
    | inr other ↦ rw other
  ])
  | inr new ↦ rw new
]

pub has-add_all :
    (hs : List String) (g : String) (s : List String) → has (add_all hs s) g ≡ (has hs g || has s g)
unfolding add_all has
has-add_all [] g s = refl
has-add_all (h ∷ hs) g s = ground (arith, has-add_all hs g (add h s), has-add h g s)

pub has_item-push :
    (xs stack : List Item) (y : Item)
    → has_item (push xs stack) y ≡ (has_item xs y || has_item stack y)
unfolding has_item push
has_item-push [] stack y = refl
has_item-push (x ∷ xs) stack y = ground (arith, has_item-push xs (x ∷ stack) y)

pub length-push : (xs stack : List Item) → length (push xs stack) ≡ length xs + length stack
unfolding push
length-push [] stack = ground arith
length-push (x ∷ xs) stack = ground (arith, length-push xs (x ∷ stack))

-- What is seen after a round has marked `x`.
pub seen-mark :
    (c : Contents) (r : Found) (x y : Item)
    → seen (collect_leaves c (mark r x)) y ≡ (item_eq x y || seen r y)
seen-mark c r (commit, h) (commit, g) = has-add h g r.commits
seen-mark c r (tree, h) (tree, g) = has-add h g r.trees
seen-mark c r (manifest, h) (manifest, g) = has-add h g r.manifests
seen-mark c r (commit, h) (tree, g) = refl
seen-mark c r (commit, h) (manifest, g) = refl
seen-mark c r (tree, h) (commit, g) = refl
seen-mark c r (tree, h) (manifest, g) = refl
seen-mark c r (manifest, h) (commit, g) = refl
seen-mark c r (manifest, h) (tree, g) = refl
