-- ===== src/Prelude/Dict.antt =====
-- A Python `dict` with text keys, in insertion order: writing to a key that is there keeps its place.
use Prim.Native.String.{String}
use mathlib.Core.Path.{◌≡◌, refl}
use mathlib.Core.Option.{Option, none, some}
use mathlib.Core.List.{List, [], ◌∷◌}
use native.Mathlib.Omega.{arith}
use text.Mathlib.Text.{◌==◌}
use text.Mathlib.TextEquality.{eq_iff}
use mathlib.Core.Bool.{◌||◌}
use mathlib.Core.Logic.{inl, inr}
use dit.Prelude.Tests.{if◌then◌else◌, is_some, Bool-cases}
use dit.Prelude.Sets.{has, Distinct}

abbrev pub Dict {ℓ} : Type ℓ → Type ℓ
Dict V = List (String × V)

module _ {ℓ} {V : Type ℓ} where
  -- `d.get(k)`
  unfoldable pub get : Dict V → String → Option V
  get [] k = none
  get ((j, v) ∷ d) k = if j == k then some v else get d k

  -- `d[k] = v`
  unfoldable pub put : Dict V → String → V → Dict V
  put [] k v = (k, v) ∷ []
  put ((j, w) ∷ d) k v = if j == k then (j, v) ∷ d else (j, w) ∷ put d k v

  -- `d.pop(k, None)`, `del d[k]`
  unfoldable pub pop : Dict V → String → Dict V
  pop [] k = []
  pop ((j, w) ∷ d) k = let rest = pop d k in if j == k then rest else (j, w) ∷ rest

  -- `list(d.keys())`
  unfoldable pub keys : Dict V → List String
  keys [] = []
  keys ((j, v) ∷ d) = j ∷ keys d

  pub get-put :
      (d : Dict V) (k j : String) (v : V) → get (put d k v) j ≡ (if k == j then some v else get d j)
  unfolding get put
  get-put [] k j v = refl
  get-put ((i, w) ∷ d) k j v = ground (arith, eq_iff k j, eq_iff i k, eq_iff i j, get-put d k j v)

  pub get-pop : (d : Dict V) (k j : String) → get (pop d k) j ≡ (if k == j then none else get d j)
  unfolding get pop
  get-pop [] k j = ground arith
  get-pop ((i, w) ∷ d) k j = ground (arith, eq_iff k j, eq_iff i k, eq_iff i j, get-pop d k j)

  -- A key is listed exactly when it has a value.
  pub has-keys : (d : Dict V) (k : String) → has (keys d) k ≡ is_some (get d k)
  unfolding has keys get
  has-keys [] k = refl
  has-keys ((i, w) ∷ d) k = ground (arith, has-keys d k)

pub ruleset dict_laws = (get-put, get-pop, has-keys)

module _ {ℓ} {V : Type ℓ} where
  keys-put :
      (d : Dict V) (k j : String) (v : V) → has (keys (put d k v)) j ≡ (k == j || has (keys d) j)
  unfolding has keys put
  keys-put [] k j v = refl
  keys-put ((i, w) ∷ d) k j v = ground (arith, eq_iff i k, eq_iff i j, eq_iff k j, keys-put d k j v)

  -- Writing keeps the keys different.
  pub put-Distinct :
      (d : Dict V) (k : String) (v : V) → Distinct (keys d) → Distinct (keys (put d k v))
  unfolding keys put has
  put-Distinct [] k v h = (refl, tt)
  put-Distinct ((i, w) ∷ d) k v (new, h) = elim (Bool-cases (i == k)) [
    | inl same ↦ rw same (new, h)
    | inr other ↦
        rw other (
          ground (arith, keys-put d k i v, eq_iff k i, eq_iff i k, other, new),
          put-Distinct d k v h,
        )
  ]
