-- ===== src/Prelude/Sets.antt =====
-- A Python `set` of texts, as the list of its elements with the last added first.
use Prim.Native.String.{String}
use mathlib.Core.Path.{◌≡◌, refl}
use mathlib.Core.Bool.{Bool, true, false, ◌||◌}
use mathlib.Core.List.{List, [], ◌∷◌, ◌++◌}
use native.Mathlib.Omega.{arith}
use text.Mathlib.Text.{◌==◌}
use text.Mathlib.TextEquality.{eq_iff}
use mathlib.Core.Logic.{inl, inr}
use dit.Prelude.Tests.{if◌then◌else◌, Bool-cases, eq_of_test}

-- `h in s`
unfoldable pub has : List String → String → Bool
has [] h = false
has (x ∷ xs) h = x == h || has xs h

pub has-cons_self : (x : String) (xs : List String) → has (x ∷ xs) x ≡ true
unfolding has
has-cons_self x xs = ground (arith, eq_iff x x)

pub has-cons_of : (x y : String) (xs : List String) → has xs y ≡ true → has (x ∷ xs) y ≡ true
unfolding has
has-cons_of x y xs h = ground arith

pub has-append : (xs ys : List String) (h : String) → has (xs ++ ys) h ≡ (has xs h || has ys h)
unfolding has
has-append [] ys h = refl
has-append (x ∷ xs) ys h = ground (arith, has-append xs ys h)

-- No text occurs twice.
abbrev pub Distinct : List String → Type 0
Distinct [] = Unit
Distinct (x ∷ xs) = (has xs x ≡ false) × Distinct xs

-- `set(xs)`: each element once.
unfoldable pub to_set : List String → List String
to_set [] = []
to_set (x ∷ xs) = let rest = to_set xs in if has xs x then rest else x ∷ rest

pub has-to_set : (xs : List String) (h : String) → has (to_set xs) h ≡ has xs h
unfolding has to_set
has-to_set [] h = refl
has-to_set (x ∷ xs) h = elim (Bool-cases (has xs x)) [
  | inl again ↦ elim (Bool-cases (x == h)) [
    | inl same ↦ ground (arith, again, same, eq_of_test x h, has-to_set xs h)
    | inr other ↦ ground (arith, again, other, has-to_set xs h)
  ]
  | inr once ↦ ground (arith, once, has-to_set xs h)
]
