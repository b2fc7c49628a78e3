-- ===== src/Prelude/Results.antt =====
-- Python exceptions as values.
use mathlib.Core.Path.{◌≡◌, refl}
use mathlib.Core.Logic.{◌⊎◌, inl, inr}
use mathlib.Core.Option.{Option, none, some}

pub data Error : Type 0 where
  value_error type_error key_error index_error file_not_found struct_error recursion_error
        stop_iteration :
      Error

-- What a call that may raise gives.
pub data Result {ℓ} (A : Type ℓ) : Type ℓ where
  ok : A → Result A
  raise : Error → Result A

infixl 5 ◌>>=◌
abbrev pub ◌>>=◌ {ℓ κ} : {A : Type ℓ} {B : Type κ} → Result A → (A → Result B) → Result B
call >>= rest = elim call [ ok value ↦ rest value | raise exn ↦ raise exn ]

-- A read that must succeed, with what Python raises on `None`.
abbrev pub require {ℓ} : {A : Type ℓ} → Error → Option A → Result A
require exn none = raise exn
require exn (some value) = ok value

-- A chain of calls that gives a value gave one at its first call.
pub first_ok {ℓ κ} :
    {A : Type ℓ} {B : Type κ} (call : Result A) (rest : A → Result B) {out : B}
    → (call >>= rest) ≡ ok out
    → (mid : A) × (call ≡ ok mid) × (rest mid ≡ ok out)
first_ok (raise exn) rest p = cc
first_ok (ok mid) rest p = (mid, refl, p)

pub Result-cases :
    {A : Type 0} (r : Result A) → ((x : A) × (r ≡ ok x)) ⊎ ((e : Error) × (r ≡ raise e))
Result-cases (ok x) = inl (x, refl)
Result-cases (raise e) = inr (e, refl)

pub Run-cases :
    {A : Type 0} (r : Option (Result A))
    → (r ≡ none) ⊎ (((x : A) × (r ≡ some (ok x))) ⊎ ((e : Error) × (r ≡ some (raise e))))
Run-cases none = inl refl
Run-cases (some (ok x)) = inr (inl (x, refl))
Run-cases (some (raise e)) = inr (inr (e, refl))
