-- ===== src/Commits/IsAncestor/Termination.antt =====
-- The walk of `is_ancestor` ends, in a store with finitely many commits.
use dit.Prelude.{
  ℕ, zero, suc, ◌+◌, ◌≤◌, ◌<◌, ◌≡◌, String, Bool, true, false, Option, some, List, [], ◌∷◌, ◌==◌,
  Result, ok, raise, has, if◌then◌else◌, length, arith, eq_iff, Bool-cases, Option-cases, inl, inr,
  eq_of_test,
}
use dit.Objects.{Commit}
use dit.Commits.{Loader, parents_of}
use dit.Commits.IsAncestor.{push_parents, go_on, Round-cases, visit, round, walk}

pub length-push_parents :
    (a : String) (ps stack stack' : List String)
    → push_parents a ps stack ≡ some stack'
    → length stack' ≡ length ps + length stack
unfolding push_parents
length-push_parents a [] stack stack' h = ground arith
length-push_parents a (p ∷ ps) stack stack' h =
    ground (arith, length-push_parents a ps (p ∷ stack) stack')

module _ (load : Loader) where
  abbrev out_links : Result (Option Commit) → ℕ
  out_links (raise e) = 0
  out_links (ok k) = length (parents_of k)

  abbrev degree : String → ℕ
  degree h = out_links (load h)

  -- The parent links of the listed commits that are not yet visited.
  unfoldable pub links_left : List String → List String → ℕ
  links_left [] visited = 0
  links_left (u ∷ us) visited = (if has visited u then 0 else degree u) + links_left us visited

  links_left-visit_le :
      (us visited : List String) (c : String) → links_left us (c ∷ visited) ≤ links_left us visited
  unfolding links_left has
  links_left-visit_le [] visited c = omega arith
  links_left-visit_le (u ∷ us) visited c = ground (arith, links_left-visit_le us visited c)

  links_left-visit :
      (us visited : List String) (c : String)
      → has visited c ≡ false
      → has us c ≡ true
      → degree c + links_left us (c ∷ visited) ≤ links_left us visited
  unfolding links_left has
  links_left-visit [] visited c new there = cc
  links_left-visit (u ∷ us) visited c new there = elim (Bool-cases (u == c)) [
    | inl same ↦
        let e = eq_of_test u c same in
        rw e (ground (arith, new, eq_iff c c, links_left-visit_le us visited c))
    | inr other ↦ ground (arith, other, eq_iff c u, eq_iff u c, links_left-visit us visited c new)
  ]

  -- Every commit that can be read is listed.
  abbrev pub IsListed : List String → Type 0
  IsListed us = (h : String) → has us h ≡ false → degree h ≡ 0

  links_left-step :
      (us visited : List String) (c : String)
      → IsListed us
      → has visited c ≡ false
      → degree c + links_left us (c ∷ visited) ≤ links_left us visited
  links_left-step us visited c listed new = elim (Bool-cases (has us c)) [
    | inl there ↦ links_left-visit us visited c new there
    | inr absent ↦ omega (arith, listed c absent, links_left-visit_le us visited c)
  ]

  visit_decreases :
      (us : List String) (a : String) (visited : List String) (c : String) (stack : List String)
      (r : Result (Option Commit)) (visited' stack' : List String)
      → out_links r + links_left us (c ∷ visited) ≤ links_left us visited
      → visit load a visited c stack r ≡ go_on visited' stack'
      → length stack' + links_left us visited' < suc (length stack) + links_left us visited
  unfolding visit
  visit_decreases us a visited c stack (raise e) v' s' left h = ground arith
  visit_decreases us a visited c stack (ok k) v' s' left h =
      elim (Option-cases (push_parents a (parents_of k) stack)) [
        | inl hit ↦ ground (arith, hit)
        | inr (s, pushed) ↦ ground (arith, pushed, length-push_parents a (parents_of k) stack s)
      ]

  round_decreases :
      (us : List String) (a : String) (visited stack visited' stack' : List String)
      → IsListed us
      → round load a visited stack ≡ go_on visited' stack'
      → length stack' + links_left us visited' < length stack + links_left us visited
  unfolding round
  round_decreases us a visited [] v' s' listed h = ground arith
  round_decreases us a visited (c ∷ stack) v' s' listed h = elim (Bool-cases (has visited c)) [
    | inl old ↦ ground (arith, old)
    | inr new ↦
        visit_decreases us a visited c stack (load c) v' s'
          (links_left-step us visited c listed new) (rw new at h)
  ]

  -- Fuel above the length of the stack and the links left is enough.
  pub walk_total :
      (us : List String)
      → IsListed us
      → (fuel : ℕ) (a : String) (visited stack : List String)
      → length stack + links_left us visited < fuel
      → (r : Result Bool) × (walk load fuel a visited stack ≡ some r)
  unfolding walk
  walk_total us listed zero a visited stack h = absurd (omega arith)
  walk_total us listed (suc fuel) a visited stack h =
      elim (Round-cases (round load a visited stack)) [
        | inl (r, e) ↦ (r, rw (e, walk))
        | inr (v', s', e) ↦
            rw (e, walk)
              (walk_total us listed fuel a v' s'
                (omega (arith, round_decreases us a visited stack v' s' listed e)))
      ]
