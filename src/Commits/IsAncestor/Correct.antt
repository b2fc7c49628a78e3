-- ===== src/Commits/IsAncestor/Correct.antt =====
-- `is_ancestor` decides the ancestor relation.
use dit.Prelude.{
  Error, ◌⊎◌, ℕ, ◌+◌, ◌<◌, ◌≡◌, ◌≢◌, refl, String, Bool, true, false, Option, some, List, [], ◌∷◌,
  ◌==◌, ◌||◌, Result, ok, raise, has, arith, eq_iff, Bool-cases, inl, inr, eq_of_test, ◌↔◌,
}
use dit.Objects.{Commit}
use dit.Commits.{Loader, parents_of, Ancestor, here, next}
use dit.Commits.IsAncestor.{is_ancestor}
use dit.Commits.IsAncestor.Termination.{IsListed, links_left, walk_total}
use dit.Commits.IsAncestor.Search.{
  walk-Sound, walk-Complete, walk-raise, IsClosed-start, Climbs-start,
}

-- A set that holds the parents of its commits holds the ancestors of its commits, and `a` is none
-- of these that is reached by a link.
closed_above :
    (load : Loader) (a : String) (all : List String)
    → ((c p : String) (k : Option Commit)
        → has all c ≡ true
        → load c ≡ ok k
        → has (parents_of k) p ≡ true
        → (p ≢ a) × ((has all p || false) ≡ true))
    → {x d : String} → Ancestor load x d
    → has all d ≡ true
    → (has all x ≡ true) × ((x ≡ d) ⊎ (x ≢ a))
closed_above load a all h (here d) there = (there, inl refl)
closed_above load a all h (next {c} {p} k up read parent) there =
    let (above, rest) = closed_above load a all h up there in
    let (ne, inside) = h c p k above read parent in (ground arith, inr ne)

module _ (load : Loader) (fuel : ℕ) (a d : String) where
  is_ancestor-true : is_ancestor load fuel a d ≡ some (ok true) → Ancestor load a d
  unfolding is_ancestor
  is_ancestor-true h = elim (Bool-cases (a == d)) [
    | inl same ↦ rw (eq_of_test a d same) (here d)
    | inr other ↦ walk-Sound load a d fuel [] (d ∷ []) (Climbs-start load a d) (rw other at h)
  ]

  is_ancestor-false : is_ancestor load fuel a d ≡ some (ok false) → ¬ Ancestor load a d
  unfolding is_ancestor has
  is_ancestor-false h up = elim (Bool-cases (a == d)) [
    | inl same ↦ ground (arith, same, h)
    | inr other ↦
        let (all, closed, inside) =
          walk-Complete load a d fuel [] (d ∷ []) (IsClosed-start load a d) (rw other at h) in
        let (above, which) =
          closed_above load a all closed.at up (inside d (ground (arith, eq_iff d d))) in
        ground (arith, which, eq_iff a d, other)
  ]

is_ancestor_total :
    (load : Loader) (us : List String) (fuel : ℕ) (a d : String)
    → IsListed load us
    → 1 + links_left load us [] < fuel
    → (r : Result Bool) × (is_ancestor load fuel a d ≡ some r)
unfolding is_ancestor
is_ancestor_total load us fuel a d listed enough = elim (Bool-cases (a == d)) [
  | inl same ↦ (ok true, rw same)
  | inr other ↦ rw other (walk_total load us listed fuel a [] (d ∷ []) (omega arith))
]

is_ancestor-raise :
    (load : Loader) (fuel : ℕ) (a d : String) (e : Error)
    → is_ancestor load fuel a d ≡ some (raise e)
    → (h : String) × (load h ≡ raise e)
unfolding is_ancestor
is_ancestor-raise load fuel a d e h = elim (Bool-cases (a == d)) [
  | inl same ↦ ground (arith, same, h)
  | inr other ↦ walk-raise load a d fuel [] (d ∷ []) e (rw other at h)
]

is_ancestor_iff :
    (load : Loader) (fuel : ℕ) (a d : String) (b : Bool)
    → is_ancestor load fuel a d ≡ some (ok b)
    → (b ≡ true) ↔ Ancestor load a d
is_ancestor_iff load fuel a d true h = ((λ e. is_ancestor-true load fuel a d h), λ up. refl)
is_ancestor_iff load fuel a d false h =
    ((λ e. cc), λ up. absurd (is_ancestor-false load fuel a d h up))

-- With fuel above the number of parent links, plus one, in a store whose readable commits are
-- listed by `us`, `is_ancestor` returns. An answer is true exactly when parent links lead from the
-- descendant to the ancestor (or they are one), and only a read that raises makes it raise.
pub is_ancestor_lem :
    (load : Loader) (us : List String) (fuel : ℕ) (a d : String)
    → IsListed load us
    → 1 + links_left load us [] < fuel
    → (r : Result Bool) × (is_ancestor load fuel a d ≡ some r)
      × ((b : Bool) → r ≡ ok b → (b ≡ true) ↔ Ancestor load a d)
      × ((e : Error) → r ≡ raise e → (h : String) × (load h ≡ raise e))
is_ancestor_lem load us fuel a d listed enough =
    let (r, done) = is_ancestor_total load us fuel a d listed enough in
    (
      r,
      done,
      (λ b e. is_ancestor_iff load fuel a d b (cc (done, e))),
      λ e q. is_ancestor-raise load fuel a d e (cc (done, q)),
    )
