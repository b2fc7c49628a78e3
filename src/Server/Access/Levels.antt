-- ===== src/Server/Access/Levels.antt =====
-- The levels of tokens: whom the check of a request lets pass.
use mathlib.Core.Path.{subst}
use dit.Prelude.{
  ap, All, ℕ, ltb, ◌≡◌, refl, String, Bool, true, false, not, ◌||◌, List, [], ◌∷◌, ◌==◌, Result, ok,
  ◌>>=◌, arith, Bool-cases, inl, inr, if◌then◌else◌, has, eq_of_test,
}
use dit.Prelude.Dict
use dit.Server.Access.{
  Token, legacy_perm_map, role_level, mapped_level, token_level, required_level, is_allowed,
}

-- A role that the list names; the default roles say nothing, and the older permissions count for them.
abbrev pub names_of : Token → List String → List String → Bool
names_of t roles permissions =
    if t.role == "" || t.role == "reader" then has permissions t.permissions else has roles t.role

weaken {κ} :
    (P : String → Type κ) (n : String) (names : List String)
    → All P names
    → All (λ u. (n == u) ≡ false → P u) names
weaken P n [] ps = tt
weaken P n (m ∷ names) (p, ps) = (λ differs. p, weaken P n names ps)

-- A property of each of the names, and of all that are none of them, is one of every text.
by_name {κ} :
    (P : String → Type κ) (names : List String)
    → All P names
    → ((s : String) → has names s ≡ false → P s)
    → (s : String) → P s
unfolding has
by_name P [] ps other s = other s refl
by_name P (n ∷ names) (p, ps) other s = elim (Bool-cases (n == s)) [
  | inl same ↦ subst P (eq_of_test n s same) p
  | inr differs ↦
      by_name (λ u. (n == u) ≡ false → P u) names (weaken P n names ps)
        (λ u absent differs'. other u (rw (differs', absent) refl)) s differs
]

-- The levels that let a role pass, of those that requests ask for.
abbrev passes : ℕ → ℕ → Bool
passes level n = not (ltb n level)

abbrev PassesAs : String → Type 0
PassesAs role =
    (passes 10 (role_level role) ≡ true)
    × (passes 20 (role_level role)
        ≡ has ("reviewer" ∷ "committer" ∷ "maintainer" ∷ "admin" ∷ "owner" ∷ []) role)
    × (passes 30 (role_level role) ≡ has ("committer" ∷ "maintainer" ∷ "admin" ∷ "owner" ∷ []) role)
    × (passes 50 (role_level role) ≡ has ("admin" ∷ "owner" ∷ []) role)

abbrev roles : List String
roles = "reader" ∷ "reviewer" ∷ "committer" ∷ "maintainer" ∷ "admin" ∷ "owner" ∷ []

no_role : (role : String) → has roles role ≡ false → PassesAs role
unfolding role_level Dict.get has
no_role role absent =
    let e₁ : ("reader" == role) ≡ false = ground arith in
    let e₂ : ("reviewer" == role) ≡ false = ground arith in
    let e₃ : ("committer" == role) ≡ false = ground arith in
    let e₄ : ("maintainer" == role) ≡ false = ground arith in
    let e₅ : ("admin" == role) ≡ false = ground arith in
    let e₆ : ("owner" == role) ≡ false = ground arith in
    rw (e₁, e₂, e₃, e₄, e₅, e₆) (refl, refl, refl, refl)

role_level-names : (role : String) → PassesAs role
unfolding role_level Dict.get has
role_level-names =
    by_name PassesAs roles
      (
        (refl, refl, refl, refl),
        (
          (refl, refl, refl, refl),
          (
            (refl, refl, refl, refl),
            ((refl, refl, refl, refl), ((refl, refl, refl, refl), ((refl, refl, refl, refl), tt))),
          ),
        ),
      )
      no_role

-- The same of the older permissions.
abbrev MapsTo : String → Type 0
MapsTo permissions =
    let n = mapped_level (Dict.get legacy_perm_map permissions) in
    (passes 10 n ≡ true)
    × (passes 20 n ≡ has ("push" ∷ "admin" ∷ []) permissions)
    × (passes 30 n ≡ has ("push" ∷ "admin" ∷ []) permissions)
    × (passes 50 n ≡ has ("admin" ∷ []) permissions)

no_permission :
    (permissions : String)
    → has ("read" ∷ "push" ∷ "admin" ∷ []) permissions ≡ false
    → MapsTo permissions
unfolding Dict.get has
no_permission s absent =
    let e₁ : ("read" == s) ≡ false = ground arith in
    let e₂ : ("push" == s) ≡ false = ground arith in
    let e₃ : ("admin" == s) ≡ false = ground arith in rw (e₁, e₂, e₃) (refl, refl, refl, refl)

mapped_level-names : (permissions : String) → MapsTo permissions
unfolding role_level Dict.get has
mapped_level-names =
    by_name MapsTo ("read" ∷ "push" ∷ "admin" ∷ [])
      ((refl, refl, refl, refl), ((refl, refl, refl, refl), ((refl, refl, refl, refl), tt)))
      no_permission

answers :
    {a a' b b' c c' d d' : Bool}
    → (a ≡ a') × (b ≡ b') × (c ≡ c') × (d ≡ d')
    → (◌≡◌ {A = Result Bool} (ok a) (ok a'))
      × (◌≡◌ {A = Result Bool} (ok b) (ok b'))
      × (◌≡◌ {A = Result Bool} (ok c) (ok c'))
      × (◌≡◌ {A = Result Bool} (ok d) (ok d'))
answers (a, b, c, d) = (ap ok a, ap ok b, ap ok c, ap ok d)

-- The check of a route that asks for the permission `required`.
abbrev pub grants : String → Token → Result Bool
grants required t = do level ← required_level required; ok (is_allowed level t)

-- Every token passes a check for "read". One for "reviewer" is passed exactly by the roles
-- reviewer, committer, maintainer, admin and owner, one for "push" by the last four, one for
-- "admin" by admin and owner. Where the role is empty or "reader", the older permissions decide
-- instead: "push" and "admin" pass the checks for "reviewer" and "push", and "admin" alone that for
-- "admin".
pub grants-names_of :
    (t : Token)
    → (grants "read" t ≡ ok true)
      × (grants "reviewer" t
          ≡ ok (
              names_of t
                ("reviewer" ∷ "committer" ∷ "maintainer" ∷ "admin" ∷ "owner" ∷ [])
                ("push" ∷ "admin" ∷ [])))
      × (grants "push" t
          ≡ ok (
              names_of t
                ("committer" ∷ "maintainer" ∷ "admin" ∷ "owner" ∷ [])
                ("push" ∷ "admin" ∷ [])))
      × (grants "admin" t ≡ ok (names_of t ("admin" ∷ "owner" ∷ []) ("admin" ∷ [])))
unfolding required_level Dict.get is_allowed token_level has
grants-names_of t = elim (Bool-cases (t.role == "")) [
  | inl empty ↦ rw empty (answers (mapped_level-names t.permissions))
  | inr given ↦ elim (Bool-cases (t.role == "reader")) [
    | inl reader ↦ rw (given, reader) (answers (mapped_level-names t.permissions))
    | inr other ↦ rw (given, other) (answers (role_level-names t.role))
  ]
]
