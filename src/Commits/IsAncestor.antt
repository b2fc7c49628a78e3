-- ===== src/Commits/IsAncestor.antt =====
-- `is_ancestor` of core/walker.py.
pub mod Termination
pub mod Search
pub mod Correct
use dit.Prelude.{
  ℕ, zero, suc, ◌≡◌, String, Bool, true, false, Option, none, some, List, [], ◌∷◌, ◌==◌, Result, ok,
  raise, has, if◌then◌else◌, ◌⊎◌, inl, inr, refl,
}
use dit.Objects.{Commit}
use dit.Commits.{Loader, parents_of}

-- The loop over `commit.parent_hashes`: `none` is its `return True`. The head of the list is the
-- top of the stack.
unfoldable pub push_parents : String → List String → List String → Option (List String)
push_parents ancestor [] stack = some stack
push_parents ancestor (p ∷ ps) stack =
    let rest = push_parents ancestor ps (p ∷ stack) in if p == ancestor then none else rest

-- What a round of the loop does: it returns, or goes on with a new `visited` and a new stack.
pub data Round : Type 0 where
  return : Result Bool → Round
  go_on : List String → List String → Round

module _ (load : Loader) where
  -- The body of the loop, for a commit that is not visited.
  unfoldable pub visit :
      String → List String → String → List String → Result (Option Commit) → Round
  visit ancestor visited current stack (raise e) = return (raise e)
  visit ancestor visited current stack (ok commit) =
      elim (push_parents ancestor (parents_of commit) stack) [
        | none ↦ return (ok true)
        | some stack' ↦ go_on (current ∷ visited) stack'
      ]

  unfoldable pub round : String → List String → List String → Round
  unfolding visit
  round ancestor visited [] = return (ok false)
  round ancestor visited (current ∷ stack) =
      if has visited current
      then go_on visited stack
      else visit ancestor visited current stack (load current)

  -- The `while` loop, on fuel: `none` is out of fuel.
  unfoldable pub walk : ℕ → String → List String → List String → Option (Result Bool)
  walk zero ancestor visited stack = none
  walk (suc fuel) ancestor visited stack = elim (round ancestor visited stack) [
    | return r ↦ some r
    | go_on visited' stack' ↦ walk fuel ancestor visited' stack'
  ]

  unfoldable pub is_ancestor : ℕ → String → String → Option (Result Bool)
  is_ancestor fuel ancestor_hash descendant_hash =
      if ancestor_hash == descendant_hash
      then some (ok true)
      else walk fuel ancestor_hash [] (descendant_hash ∷ [])

pub Round-cases :
    (r : Round)
    → ((x : Result Bool) × (r ≡ return x))
      ⊎ ((visited : List String) × (stack : List String) × (r ≡ go_on visited stack))
Round-cases (return x) = inl (x, refl)
Round-cases (go_on visited stack) = inr (visited, stack, refl)
