-- ===== src/Walker/Termination.antt =====
-- The walk ends, in a store with finitely many objects.
use dit.Prelude.{
  ℕ, zero, suc, ◌+◌, ◌≤◌, ◌<◌, ◌≡◌, refl, true, false, some, List, [], ◌∷◌, ◌⊎◌, Result, ok, raise,
  if◌then◌else◌, length, arith, Bool-cases, inl, inr,
}
use mathlib.Core.Path.{subst}
use dit.Walker.{
  Item, Found, seen, mark, push, Contents, collect_leaves, Objects, Round, return, go_on, contents,
  visit, round, walk,
}
use dit.Walker.Items.{item_eq, has_item, item_eq_self, eq_of_item_eq, length-push, seen-mark}

pub Round-cases :
    (x : Round)
    → ((r : Result Found) × (x ≡ return r)) ⊎ ((r : Found) × (s : List Item) × (x ≡ go_on r s))
Round-cases (return r) = inl (r, refl)
Round-cases (go_on r s) = inr (r, s, refl)

module _ (objects : Objects) where
  abbrev pub out_links : Result Contents → ℕ
  out_links (raise e) = 0
  out_links (ok c) = length c.links

  abbrev pub degree : Item → ℕ
  degree x = out_links (contents objects x)

  -- The links of the listed objects that are not yet seen.
  unfoldable pub links_left : List Item → Found → ℕ
  links_left [] r = 0
  links_left (u ∷ us) r = (if seen r u then 0 else degree u) + links_left us r

  -- Every object that holds links is listed.
  abbrev pub IsListed : List Item → Type 0
  IsListed us = (x : Item) → has_item us x ≡ false → degree x ≡ 0

  links_left-mark_le :
      (us : List Item) (c : Contents) (r : Found) (x : Item)
      → links_left us (collect_leaves c (mark r x)) ≤ links_left us r
  unfolding links_left
  links_left-mark_le [] c r x = omega arith
  links_left-mark_le (u ∷ us) c r x = ground (arith, links_left-mark_le us c r x, seen-mark c r x u)

  links_left-mark :
      (us : List Item) (c : Contents) (r : Found) (x : Item)
      → seen r x ≡ false
      → has_item us x ≡ true
      → degree x + links_left us (collect_leaves c (mark r x)) ≤ links_left us r
  unfolding links_left has_item
  links_left-mark [] c r x new there = cc
  links_left-mark (u ∷ us) c r x new there = elim (Bool-cases (item_eq u x)) [
    | inl same ↦
        let e = eq_of_item_eq u x same in
        rw e (ground (arith, new, item_eq_self x, seen-mark c r x x, links_left-mark_le us c r x))
    | inr other ↦ ground (arith, other, seen-mark c r x u, links_left-mark us c r x new)
  ]

  links_left-step :
      (us : List Item) (c : Contents) (r : Found) (x : Item)
      → IsListed us
      → seen r x ≡ false
      → degree x + links_left us (collect_leaves c (mark r x)) ≤ links_left us r
  links_left-step us c r x listed new = elim (Bool-cases (has_item us x)) [
    | inl there ↦ links_left-mark us c r x new there
    | inr absent ↦ omega (arith, listed x absent, links_left-mark_le us c r x)
  ]

  visit_decreases :
      (us : List Item) (r : Found) (x : Item) (stack : List Item) (got : Result Contents)
      (r' : Found) (s' : List Item)
      → contents objects x ≡ got
      → IsListed us
      → seen r x ≡ false
      → visit objects r x stack got ≡ go_on r' s'
      → length s' + links_left us r' < suc (length stack) + links_left us r
  visit_decreases us r x stack (raise e) r' s' read listed new h = ground arith
  visit_decreases us r x stack (ok c) r' s' read listed new h =
      let es : push c.links stack ≡ s' = cc in
      let er : collect_leaves c (mark r x) ≡ r' = cc in
      let step = links_left-step us c r x listed new in
      let size : length s' ≡ length c.links + length stack =
        subst (λ u. length u ≡ length c.links + length stack) es (length-push c.links stack) in
      let left : length c.links + links_left us r' ≤ links_left us r =
        subst (λ u. length c.links + links_left us u ≤ links_left us r) er (rw read at step) in
      omega (arith, size, left)

  round_decreases :
      (us : List Item) (r : Found) (stack : List Item) (r' : Found) (s' : List Item)
      → IsListed us
      → round objects r stack ≡ go_on r' s'
      → length s' + links_left us r' < length stack + links_left us r
  unfolding round
  round_decreases us r [] r' s' listed h = ground arith
  round_decreases us r (x ∷ stack) r' s' listed h = elim (Bool-cases (seen r x)) [
    | inl old ↦
        let h' : go_on r stack ≡ go_on r' s' = rw old at h in
        let er : r ≡ r' = cc in
        let es : stack ≡ s' = cc in
        subst (λ u. length s' + links_left us u < suc (length stack) + links_left us r) er
          (subst (λ u. length u + links_left us r < suc (length stack) + links_left us r) es
            (omega arith))
    | inr new ↦
        visit_decreases us r x stack (contents objects x) r' s' refl listed new (rw new at h)
  ]

  -- Fuel above the length of the stack and the links left is enough.
  pub walk_total :
      (us : List Item)
      → IsListed us
      → (fuel : ℕ) (r : Found) (stack : List Item) → length stack + links_left us r < fuel
      → (x : Result Found) × (walk objects fuel r stack ≡ some x)
  unfolding walk
  walk_total us listed zero r stack h = absurd (omega arith)
  walk_total us listed (suc fuel) r stack h = elim (Round-cases (round objects r stack)) [
    | inl (x, e) ↦ (x, rw (e, walk))
    | inr (r', s', e) ↦
        rw (e, walk)
          (walk_total us listed fuel r' s'
            (omega (arith, round_decreases us r stack r' s' listed e)))
  ]
