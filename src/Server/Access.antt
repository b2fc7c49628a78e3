-- ===== src/Server/Access.antt =====
-- server/auth.py: the levels and the scope of a token, and the actor that is recorded for it.
pub mod Levels
pub mod Login
use Prim.Native.Char.{Char, code}
use dit.Prelude.{
  ℕ, ◌+◌, ◌≡◌, String, Bool, true, false, not, ◌&&◌, ◌||◌, Option, none, some, List, [], ◌∷◌, ◌==◌,
  ltb, leb, nat_eq, if◌then◌else◌, Result, ok, raise, ◌>>=◌, value_error, require, key_error,
}
use dit.Prelude.Dict
use dit.Prelude.Dict.{Dict}

abbrev pub role_levels : Dict ℕ
role_levels =
    ("reader", 10)
    ∷ ("reviewer", 20)
    ∷ ("committer", 30)
    ∷ ("maintainer", 40)
    ∷ ("admin", 50)
    ∷ ("owner", 60)
    ∷ []

abbrev pub legacy_perm_map : Dict String
legacy_perm_map = ("read", "reader") ∷ ("push", "committer") ∷ ("admin", "admin") ∷ []

-- The columns of `Token` that a request reads; no column is null but the scope.
pub record Token : Type 0 where
  pub id : ℕ
  pub label : String
  pub repo_scope : Option ℕ
  pub permissions : String
  pub role : String

-- `.get(…, 10)`
abbrev pub or_ten : Option ℕ → ℕ
or_ten none = 10
or_ten (some n) = n

unfoldable pub role_level : String → ℕ
role_level role = or_ten (Dict.get role_levels role)

abbrev pub mapped_level : Option String → ℕ
mapped_level none = 10
mapped_level (some role) = role_level role

unfoldable pub token_level : Token → ℕ
token_level t =
    if not (t.role == "") && not (t.role == "reader")
    then role_level t.role
    else mapped_level (Dict.get legacy_perm_map t.permissions)

-- `require_permission(…)` when the routes are declared: the level, or a `ValueError`.
abbrev pub legacy_level : Option String → Result ℕ
legacy_level none = raise value_error
legacy_level (some role) = require key_error (Dict.get role_levels role)

abbrev pub known_level : String → Option ℕ → Result ℕ
known_level required none = legacy_level (Dict.get legacy_perm_map required)
known_level required (some n) = ok n

unfoldable pub required_level : String → Result ℕ
required_level required = known_level required (Dict.get role_levels required)

-- The check of a request: 403 where it fails.
unfoldable pub is_allowed : ℕ → Token → Bool
is_allowed level t = not (ltb (token_level t) level)

-- `verify_repo_scope`: 403 where it gives false.
unfoldable pub in_scope : Token → ℕ → Bool
in_scope t repo_id = elim t.repo_scope [ none ↦ true | some id ↦ nat_eq id repo_id ]

-- The characters that `str.strip` takes off.
abbrev pub is_space : ℕ → Bool
is_space c =
    (leb 9 c && leb c 13)
    || (leb 28 c && leb c 32)
    || nat_eq c 0x85
    || nat_eq c 0xa0
    || nat_eq c 0x1680
    || (leb 0x2000 c && leb c 0x200a)
    || nat_eq c 0x2028
    || nat_eq c 0x2029
    || nat_eq c 0x202f
    || nat_eq c 0x205f
    || nat_eq c 0x3000

unfoldable pub lstrip : String → String
lstrip String.[] = String.[]
lstrip (String.◌∷◌ c s) = let rest = lstrip s in if is_space (code c) then rest else String.◌∷◌ c s

unfoldable pub rstrip : String → String
rstrip String.[] = String.[]
rstrip (String.◌∷◌ c s) =
    let rest = rstrip s in if is_space (code c) && rest == "" then String.[] else String.◌∷◌ c rest

unfoldable pub strip : String → String
unfolding lstrip rstrip
strip s = rstrip (lstrip s)

-- The code points of the lower case of a letter that an ASCII letter may be: those of ASCII, and
-- the Kelvin sign. No other character becomes an ASCII letter alone.
abbrev pub lower : ℕ → ℕ
lower c = if leb b'A' c && leb c b'Z' then c + 32 else if nat_eq c 0x212a then b'k' else c

unfoldable pub is_lower_word : List ℕ → String → Bool
is_lower_word [] String.[] = true
is_lower_word [] (String.◌∷◌ c s) = false
is_lower_word (w ∷ ws) String.[] = false
is_lower_word (w ∷ ws) (String.◌∷◌ c s) = nat_eq w (lower (code c)) && is_lower_word ws s

-- `s.lower() == "unknown"`
abbrev pub is_unknown : String → Bool
is_unknown s = is_lower_word (b'u' ∷ b'n' ∷ b'k' ∷ b'n' ∷ b'o' ∷ b'w' ∷ b'n' ∷ []) s

abbrev pub or_empty : Option String → String
or_empty none = ""
or_empty (some s) = s

-- The label of a token, where no author counts.
unfoldable pub label_or_unknown : String → String
label_or_unknown label = if label == "" then "unknown-token" else label

unfoldable pub resolve_actor : Token → Option String → String
unfolding strip label_or_unknown is_lower_word
resolve_actor t requested_author =
    let author = strip (or_empty requested_author) in
    if not (author == "") && not (is_unknown author)
    then author
    else label_or_unknown (strip t.label)
