-- ===== src/Commits/IsAncestor/Search.antt =====
-- The invariants of the search of `is_ancestor`.
use dit.Prelude.{
  Error, ℕ, zero, suc, ◌≡◌, ◌≢◌, refl, String, true, false, Option, none, some, List, [], ◌∷◌, ◌==◌,
  ◌||◌, Result, ok, raise, has, arith, eq_iff, Bool-cases, Option-cases, inl, inr, eq_of_test,
}
use mathlib.Core.Path.{subst}
use dit.Objects.{Commit}
use dit.Commits.{Loader, parents_of, Ancestor, here, next}
use dit.Commits.IsAncestor.{push_parents, Round, return, go_on, Round-cases, visit, round, walk}

pub push_parents-hit :
    (a : String) (ps stack : List String) → push_parents a ps stack ≡ none → has ps a ≡ true
unfolding push_parents has
push_parents-hit a [] stack h = cc
push_parents-hit a (p ∷ ps) stack h = ground (arith, push_parents-hit a ps (p ∷ stack))

pub push_parents-miss :
    (a : String) (ps stack stack' : List String)
    → push_parents a ps stack ≡ some stack'
    → has ps a ≡ false
unfolding push_parents has
push_parents-miss a [] stack stack' h = refl
push_parents-miss a (p ∷ ps) stack stack' h =
    ground (arith, push_parents-miss a ps (p ∷ stack) stack')

pub has-push_parents :
    (a : String) (ps stack stack' : List String) (x : String)
    → push_parents a ps stack ≡ some stack'
    → has stack' x ≡ (has ps x || has stack x)
unfolding push_parents has
has-push_parents a [] stack stack' x h = ground arith
has-push_parents a (p ∷ ps) stack stack' x h =
    ground (arith, has-push_parents a ps (p ∷ stack) stack' x)

module _ (load : Loader) (a d : String) where
  -- What waits on the stack is an ancestor of `d`.
  abbrev pub Climbs : List String → Type 0
  Climbs stack = (x : String) → has stack x ≡ true → Ancestor load x d

  pub push_parents-Climbs :
      (c : String) (k : Option Commit) (stack stack' : List String)
      → load c ≡ ok k
      → Climbs (c ∷ stack)
      → push_parents a (parents_of k) stack ≡ some stack'
      → Climbs stack'
  unfolding has
  push_parents-Climbs c k stack stack' read h pushed x there =
      let e = has-push_parents a (parents_of k) stack stack' x pushed in
      elim (Bool-cases (has (parents_of k) x)) [
        | inl parent ↦ next k (h c (ground (arith, eq_iff c c))) read parent
        | inr other ↦ h x (ground arith)
      ]

  -- A round goes on with ancestors, or it returns; it returns true only at an ancestor.
  abbrev pub Sound : Round → Type 0
  Sound (return (ok true)) = Ancestor load a d
  Sound (return _) = Unit
  Sound (go_on visited stack) = Climbs stack

  pub visit-Sound :
      (visited : List String) (c : String) (stack : List String) (r : Result (Option Commit))
      → load c ≡ r
      → Climbs (c ∷ stack)
      → Sound (visit load a visited c stack r)
  unfolding visit has
  visit-Sound visited c stack (raise e) read h = tt
  visit-Sound visited c stack (ok k) read h =
      elim (Option-cases (push_parents a (parents_of k) stack)) [
        | inl hit ↦
            rw (hit, visit)
              (next k (h c (ground (arith, eq_iff c c))) read
                (push_parents-hit a (parents_of k) stack hit))
        | inr (s, pushed) ↦ rw (pushed, visit) (push_parents-Climbs c k stack s read h pushed)
      ]

  pub round-Sound :
      (visited stack : List String) → Climbs stack → Sound (round load a visited stack)
  unfolding round has
  round-Sound visited [] h = tt
  round-Sound visited (c ∷ stack) h = elim (Bool-cases (has visited c)) [
    | inl old ↦ rw old (λ x there. h x (ground arith))
    | inr new ↦ rw new (visit-Sound visited c stack (load c) refl h)
  ]

  pub walk-Sound :
      (fuel : ℕ) (visited stack : List String)
      → Climbs stack
      → walk load fuel a visited stack ≡ some (ok true)
      → Ancestor load a d
  unfolding walk
  walk-Sound zero visited stack h e = cc
  walk-Sound (suc fuel) visited stack h e = elim (Round-cases (round load a visited stack)) [
    | inl (r, q) ↦
        let e' : some r ≡ some (ok true) = rw (q, walk) at e in
        let p : r ≡ ok true = cc in rw (q, p) at (round-Sound visited stack h)
    | inr (v', s', q) ↦
        walk-Sound fuel v' s' (rw q at (round-Sound visited stack h)) (rw (q, walk) at e)
  ]

  -- The parents of what is visited are not `a`, and are visited or wait on the stack.
  pub record IsClosed (visited stack : List String) : Type 0 where
    pub at :
        (c p : String) (k : Option Commit)
        → has visited c ≡ true
        → load c ≡ ok k
        → has (parents_of k) p ≡ true
        → (p ≢ a) × ((has visited p || has stack p) ≡ true)

  -- A round goes on closed, and forgets nothing; it returns false only with an empty stack.
  abbrev pub Complete : List String → List String → Round → Type 0
  Complete visited stack (return (ok false)) = stack ≡ []
  Complete visited stack (return _) = Unit
  Complete visited stack (go_on visited' stack') =
      IsClosed visited' stack'
      × ((x : String)
          → (has visited x || has stack x) ≡ true
          → (has visited' x || has stack' x) ≡ true)

  pub visit-IsClosed :
      (visited : List String) (c : String) (stack stack' : List String) (k : Option Commit)
      → load c ≡ ok k
      → IsClosed visited (c ∷ stack)
      → push_parents a (parents_of k) stack ≡ some stack'
      → IsClosed (c ∷ visited) stack'
  unfolding has
  visit-IsClosed visited c stack stack' k read h pushed = record {
    at = λ b p j old readb parent.
        let pushed_p = has-push_parents a (parents_of k) stack stack' p pushed in
        elim (Bool-cases (c == b)) [
          | inl same ↦
              let kj : k ≡ j = cc (eq_of_test c b same, read, readb) in
              let parent' : has (parents_of k) p ≡ true = rw kj parent in
              (
                (λ pa.
                    ground
                      (arith, push_parents-miss a (parents_of k) stack stack' pushed, pa, parent')),
                ground (arith, pushed_p, parent'),
              )
          | inr other ↦
              let both = h.at b p j (ground arith) readb parent in
              (both.0, ground (arith, pushed_p, both.1))
        ];
  }

  pub visit-Complete :
      (visited : List String) (c : String) (stack : List String) (r : Result (Option Commit))
      → load c ≡ r
      → IsClosed visited (c ∷ stack)
      → Complete visited (c ∷ stack) (visit load a visited c stack r)
  unfolding visit has
  visit-Complete visited c stack (raise e) read h = tt
  visit-Complete visited c stack (ok k) read h =
      elim (Option-cases (push_parents a (parents_of k) stack)) [
        | inl hit ↦ rw (hit, visit) tt
        | inr (s, pushed) ↦
            rw (pushed, visit)
              (
                visit-IsClosed visited c stack s k read h pushed,
                λ x there.
                    ground (arith, has-push_parents a (parents_of k) stack s x pushed, there),
              )
      ]

  pub round-Complete :
      (visited stack : List String)
      → IsClosed visited stack
      → Complete visited stack (round load a visited stack)
  unfolding round has
  round-Complete visited [] h = refl
  round-Complete visited (c ∷ stack) h = elim (Bool-cases (has visited c)) [
    | inl old ↦ rw old (
      record {
        at = λ b p j there read parent.
            let both = h.at b p j there read parent in
            (both.0, ground (arith, both.1, old, eq_of_test c p));
      },
      λ x there. ground (arith, there, old, eq_of_test c x),
    )
    | inr new ↦ rw new (visit-Complete visited c stack (load c) refl h)
  ]

  pub walk-Complete :
      (fuel : ℕ) (visited stack : List String)
      → IsClosed visited stack
      → walk load fuel a visited stack ≡ some (ok false)
      → (all : List String) × IsClosed all []
        × ((x : String) → (has visited x || has stack x) ≡ true → has all x ≡ true)
  unfolding walk has
  walk-Complete zero visited stack h e = cc
  walk-Complete (suc fuel) visited stack h e = elim (Round-cases (round load a visited stack)) [
    | inl (r, q) ↦
        let e' : some r ≡ some (ok false) = rw (q, walk) at e in
        let p : r ≡ ok false = cc in
        let empty = rw (q, p) at (round-Complete visited stack h) in
        (visited, rw empty at h, λ x there. ground (arith, there, rw empty at there))
    | inr (v', s', q) ↦
        let (closed, keeps) = rw q at (round-Complete visited stack h) in
        let (all, final, inside) = walk-Complete fuel v' s' closed (rw (q, walk) at e) in
        (all, final, λ x there. inside x (keeps x there))
  ]

  -- The walk raises only what a read raised.
  pub round-raise :
      (visited stack : List String) (e : Error)
      → round load a visited stack ≡ return (raise e)
      → (h : String) × (load h ≡ raise e)
  unfolding round visit
  round-raise visited [] e h = cc
  round-raise visited (c ∷ stack) e h = (c, ground arith)

  pub walk-raise :
      (fuel : ℕ) (visited stack : List String) (e : Error)
      → walk load fuel a visited stack ≡ some (raise e)
      → (h : String) × (load h ≡ raise e)
  unfolding walk
  walk-raise zero visited stack e h = cc
  walk-raise (suc fuel) visited stack e h = elim (Round-cases (round load a visited stack)) [
    | inl (r, q) ↦
        let h' : some r ≡ some (raise e) = rw (q, walk) at h in round-raise visited stack e (cc)
    | inr (v', s', q) ↦ walk-raise fuel v' s' e (rw (q, walk) at h)
  ]

  pub IsClosed-start : IsClosed [] (d ∷ [])
  unfolding has
  IsClosed-start = record { at = λ c p k old read parent. cc }

  pub Climbs-start : Climbs (d ∷ [])
  unfolding has
  Climbs-start x there = subst (λ y. Ancestor load y d) (eq_of_test d x (ground arith)) (here d)
