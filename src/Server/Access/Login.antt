-- ===== src/Server/Access/Login.antt =====
-- `verify_token` of server/auth.py: the token of a request. SHA-256 of a text, the clock and the
-- table of tokens, by the hash, are parameters.
use dit.Prelude.{
  ℕ, ◌≡◌, ◌≢◌, ◌⊎◌, inl, inr, refl, String, Bool, true, false, not, ◌&&◌, Option, none, some, ◌==◌,
  ltb, arith, if◌then◌else◌, type_error, Bool-cases, eq_of_test, Error, ap,
}
use Prim.Native.Char.{code}
use dit.Server.{Outcome, done, refused, raised}
use dit.Server.Access.{Token, strip, or_empty}
use dit.Server.Pulls.{remove_prefix}
use dit.Server.Pulls.Merging.{test_ne}

-- A row of the table: the token, and when it expires.
pub record Entry : Type 0 where
  pub token : Token
  pub expires_at : Option ℕ

-- It has no row, so its key is not read.
abbrev pub synthetic_admin_token : Token
synthetic_admin_token = record {
  id = 0;
  label = "service-token";
  repo_scope = none;
  permissions = "admin";
  role = "owner";
}

unfoldable pub is_ascii : String → Bool
is_ascii String.[] = true
is_ascii (String.◌∷◌ c s) = ltb (code c) 128 && is_ascii s

-- `secrets.compare_digest` raises on texts with other characters than ASCII.
abbrev pub check_service : String → String → Outcome Token
check_service given configured =
    if not (is_ascii given && is_ascii configured)
    then raised type_error
    else if given == configured
    then done synthetic_admin_token
    else refused 401

abbrev pub is_expired : ℕ → Option ℕ → Bool
is_expired now none = false
is_expired now (some t) = ltb t now

abbrev pub check_entry : ℕ → Option Entry → Outcome Token
check_entry now none = refused 401
check_entry now (some e) = if is_expired now e.expires_at then refused 403 else done e.token

abbrev pub raw_token : String → String
raw_token authorization = strip (remove_prefix "token " (remove_prefix "Bearer " authorization))

abbrev pub check_bearer : (String → String) → (String → Option Entry) → ℕ → String → Outcome Token
check_bearer sha256 tokens now authorization =
    if authorization == ""
    then refused 401
    else if raw_token authorization == ""
    then refused 401
    else check_entry now (tokens (sha256 (raw_token authorization)))

unfoldable pub verify_token :
    (String → String)
    → (String → Option Entry)
    → String
    → ℕ
    → Option String
    → Option String
    → Outcome Token
verify_token sha256 tokens service_token now authorization x_service_token =
    if not (or_empty x_service_token == "") && not (service_token == "")
    then check_service (or_empty x_service_token) service_token
    else check_bearer sha256 tokens now (or_empty authorization)

-- An entry of the table that the header names and that has not expired.
abbrev pub IsEntryOf : (String → String) → (String → Option Entry) → ℕ → String → Token → Type 0
IsEntryOf sha256 tokens now authorization t =
    (e : Entry) × (tokens (sha256 (raw_token authorization)) ≡ some e)
    × (raw_token authorization ≢ "")
    × (is_expired now e.expires_at ≡ false)
    × (e.token ≡ t)

refused_ne_done : {code : ℕ} {t : Token} → refused code ≢ done t
refused_ne_done h = cc

raised_ne_done : {e : Error} {t : Token} → raised e ≢ done t
raised_ne_done h = cc

-- The header that was sent, and not an absent one.
sent_is :
    (x : Option String) (s : String) → (or_empty x == "") ≡ false → or_empty x ≡ s → x ≡ some s
sent_is none s sent same = absurd (test_ne "" "" sent refl)
sent_is (some h) s sent same = ap some same

check_entry_done :
    (now : ℕ) (o : Option Entry) (t : Token)
    → check_entry now o ≡ done t
    → (e : Entry) × (o ≡ some e) × (is_expired now e.expires_at ≡ false) × (e.token ≡ t)
check_entry_done now none t run = absurd (refused_ne_done run)
check_entry_done now (some e) t run = elim (Bool-cases (is_expired now e.expires_at)) [
  | inl late ↦ absurd (refused_ne_done (rw late at run))
  | inr fresh ↦ let gave : done e.token ≡ done t = rw fresh at run in (e, refl, fresh, cc)
]

check_bearer_done :
    (sha256 : String → String) (tokens : String → Option Entry) (now : ℕ) (authorization : String)
    (t : Token)
    → check_bearer sha256 tokens now authorization ≡ done t
    → IsEntryOf sha256 tokens now authorization t
check_bearer_done sha256 tokens now authorization t run = elim (Bool-cases (authorization == "")) [
  | inl absent ↦ absurd (refused_ne_done (rw absent at run))
  | inr present ↦ elim (Bool-cases (raw_token authorization == "")) [
    | inl empty ↦ absurd (refused_ne_done (rw (present, empty) at run))
    | inr raw ↦
        let (e, there, fresh, gave) =
          check_entry_done now (tokens (sha256 (raw_token authorization))) t
            (rw (present, raw) at run) in
        (e, there, test_ne (raw_token authorization) "" raw, fresh, gave)
  ]
]

check_service_done :
    (given configured : String) (t : Token)
    → check_service given configured ≡ done t
    → (given ≡ configured) × (synthetic_admin_token ≡ t)
check_service_done given configured t run =
    elim (Bool-cases (is_ascii given && is_ascii configured)) [
      | inr other ↦ absurd (raised_ne_done (rw other at run))
      | inl ascii ↦ elim (Bool-cases (given == configured)) [
        | inr other ↦ absurd (refused_ne_done (rw (ascii, other) at run))
        | inl same ↦
            let gave : done synthetic_admin_token ≡ done t = rw (ascii, same) at run in
            (eq_of_test given configured same, cc)
      ]
    ]

-- A request that is given a token either sends the service token that the server is configured
-- with, which is not empty, and is given the token of an owner; or it sends a token that is not
-- empty, whose SHA-256 is in the table with a time of expiry that has not passed or with none, and
-- is given the token of that row.
pub verify_token_lem :
    (sha256 : String → String) (tokens : String → Option Entry) (service_token : String) (now : ℕ)
    (authorization x_service_token : Option String) (t : Token)
    → verify_token sha256 tokens service_token now authorization x_service_token ≡ done t
    → ((x_service_token ≡ some service_token) × (service_token ≢ "") × (synthetic_admin_token ≡ t))
      ⊎ IsEntryOf sha256 tokens now (or_empty authorization) t
unfolding verify_token
verify_token_lem sha256 tokens service_token now authorization x t run =
    elim (Bool-cases (not (or_empty x == "") && not (service_token == ""))) [
      | inr bearer ↦
          inr (check_bearer_done sha256 tokens now (or_empty authorization) t (rw bearer at run))
      | inl service ↦
          let (same, gave) = check_service_done (or_empty x) service_token t (rw service at run) in
          let set_ : (service_token == "") ≡ false = ground arith in
          let sent : (or_empty x == "") ≡ false = ground arith in
          inl (sent_is x service_token sent same, test_ne service_token "" set_, gave)
    ]
