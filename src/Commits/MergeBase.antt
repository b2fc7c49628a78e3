-- ===== src/Commits/MergeBase.antt =====
-- core/merge_base.py
pub mod Termination
pub mod SearchSide
pub mod Correct
use dit.Prelude.{
  ℕ, zero, suc, ◌≡◌, refl, String, Bool, true, false, Option, none, some, List, [], ◌∷◌, ◌++◌, ◌==◌,
  ◌⊎◌, inl, inr, Result, ok, raise, has, if◌then◌else◌,
}
use dit.Objects.{Commit}
use dit.Commits.{Loader, parents_of}

-- One side of the search: the hashes found so far, and those whose parents are still to be read.
pub record Side : Type 0 where
  pub ancestors : List String
  pub queue : List String

-- Half a round on one side: it returns a result, or goes on with the side changed.
pub data Half : Type 0 where
  return : Result (Option String) → Half
  go_on : Side → Half

-- The loop over the parents, `other` being the other side's set: a new parent is noted and
-- queued, and returned if the other side has it.
unfoldable pub add_parents : List String → Side → List String → Half
add_parents other s [] = go_on s
add_parents other s (p ∷ ps) =
    let grown : Side = record { ancestors = p ∷ s.ancestors; queue = s.queue ++ p ∷ [] } in
    let skip = add_parents other s ps in
    let rest = add_parents other grown ps in
    if has s.ancestors p then skip else if has other p then return (ok (some p)) else rest

unfoldable pub read_parents : List String → Side → Result (Option Commit) → Half
read_parents other s (raise e) = return (raise e)
read_parents other s (ok commit) = add_parents other s (parents_of commit)

-- `current = queue.popleft()` and what is done with it.
unfoldable pub take_current : Loader → List String → List String → String → List String → Half
unfolding read_parents
take_current load other ancestors current queue =
    if has other current
    then return (ok (some current))
    else read_parents other (record { ancestors = ancestors; queue = queue }) (load current)

unfoldable pub half_round : Loader → List String → List String → List String → Half
half_round load other ancestors [] = go_on (record { ancestors = ancestors; queue = [] })
half_round load other ancestors (current ∷ queue) = take_current load other ancestors current queue

-- What a round of the loop does, with both sides.
pub data Round : Type 0 where
  return : Result (Option String) → Round
  go_on : Side → Side → Round

abbrev pub then_b : Side → Half → Round
then_b a (Half.return r) = Round.return r
then_b a (Half.go_on b) = Round.go_on a b

abbrev pub then_a : Loader → Side → Half → Round
then_a load b (Half.return r) = Round.return r
then_a load b (Half.go_on a) = then_b a (half_round load a.ancestors b.ancestors b.queue)

abbrev pub both_empty : List String → List String → Bool
both_empty [] [] = true
both_empty _ _ = false

unfoldable pub round : Loader → Side → Side → Round
round load a b =
    if both_empty a.queue b.queue
    then Round.return (ok none)
    else then_a load b (half_round load b.ancestors a.ancestors a.queue)

-- The `while` loop, on fuel: the outer `none` is out of fuel.
unfoldable pub search_base : Loader → ℕ → Side → Side → Option (Result (Option String))
search_base load zero a b = none
search_base load (suc fuel) a b = elim (round load a b) [
  | Round.return r ↦ some r
  | Round.go_on a' b' ↦ search_base load fuel a' b'
]

abbrev pub start_side : String → Side
start_side h = record { ancestors = h ∷ []; queue = h ∷ [] }

unfoldable pub find_merge_base : Loader → ℕ → String → String → Option (Result (Option String))
find_merge_base load fuel hash_a hash_b =
    if hash_a == hash_b
    then some (ok (some hash_a))
    else search_base load fuel (start_side hash_a) (start_side hash_b)

pub Half-cases :
    (h : Half)
    → ((r : Result (Option String)) × (h ≡ Half.return r)) ⊎ ((s : Side) × (h ≡ Half.go_on s))
Half-cases (Half.return r) = inl (r, refl)
Half-cases (Half.go_on s) = inr (s, refl)

pub Round-cases :
    (x : Round)
    → ((r : Result (Option String)) × (x ≡ Round.return r))
      ⊎ ((a : Side) × (b : Side) × (x ≡ Round.go_on a b))
Round-cases (Round.return r) = inl (r, refl)
Round-cases (Round.go_on a b) = inr (a, b, refl)
