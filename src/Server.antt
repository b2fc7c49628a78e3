-- ===== src/Server.antt =====
-- The server, src/dit/server: a request as an action on the rows of one repository and on its objects.
pub mod Tables
pub mod Actions
pub mod Exits
pub mod Changes
pub mod Access
pub mod Protection
pub mod Reviews
pub mod MergeCommit
pub mod DiffStats
pub mod Pulls
pub mod Merges
pub mod RefRoutes
pub mod Requests
use dit.Prelude.{ℕ, ◌≡◌, refl, Bool, true, false, Option, none, some, Error, Result, ok, raise}
use dit.Server.Tables.{Rows}

-- What a request gives: a reply, an `HTTPException` by its status code, another exception, or no
-- more fuel for one of its loops.
pub data Outcome (A : Type 0) : Type 0 where
  done : A → Outcome A
  refused : ℕ → Outcome A
  raised : Error → Outcome A
  spent : Outcome A

-- `pending` is what the session of the request sees: the committed rows with its own writes.
pub record World (S : Type 0) : Type 0 where
  pub committed : Rows
  pub pending : Rows
  pub objects : S

abbrev pub Action : Type 0 → Type 0 → Type 0
Action S A = World S → Outcome A × World S

-- What follows a first action, given its outcome.
abbrev pub and_then :
    {S A B : Type 0} → (A → Action S B) → Outcome A × World S → Outcome B × World S
and_then f (done a, w) = f a w
and_then f (refused code, w) = (refused code, w)
and_then f (raised e, w) = (raised e, w)
and_then f (spent, w) = (spent, w)

infixl 5 ◌>>=◌ ◌>>◌
abbrev pub ◌>>=◌ : {S A B : Type 0} → Action S A → (A → Action S B) → Action S B
◌>>=◌ m f w = and_then f (m w)

abbrev pub ◌>>◌ : {S A B : Type 0} → Action S A → Action S B → Action S B
m >> k = m >>= λ _. k

abbrev pub of_result : {A : Type 0} → Result A → Outcome A
of_result (ok a) = done a
of_result (raise e) = raised e

abbrev pub of_run : {A : Type 0} → Option (Result A) → Outcome A
of_run none = spent
of_run (some r) = of_result r

module _ {S : Type 0} where
  abbrev pub pure : {A : Type 0} → A → Action S A
  pure a w = (done a, w)

  abbrev pub refuse : {A : Type 0} → ℕ → Action S A
  refuse code w = (refused code, w)

  -- `if test: raise HTTPException(code)`
  abbrev pub refuse_if : Bool → ℕ → Action S (Unit {0})
  refuse_if true code = refuse code
  refuse_if false code = pure tt

  -- A row that a query must give, or else the status code.
  abbrev pub found : {A : Type 0} → Option A → ℕ → Action S A
  found none code = refuse code
  found (some a) code = pure a

  abbrev pub gets : {A : Type 0} → (Rows → A) → Action S A
  gets f w = (done (f w.pending), w)

  abbrev pub modify : (Rows → Rows) → Action S (Unit {0})
  modify f w = (done tt, record w { pending = f w.pending })

  -- `session.commit()`
  abbrev pub commit : Action S (Unit {0})
  commit w = (done tt, record w { committed = w.pending })

  -- Other requests commit while this one waits; it has no writes pending.
  abbrev pub wait : (Rows → Rows) → Action S (Unit {0})
  wait others w =
      (done tt, record w { committed = others w.committed; pending = others w.committed })

  -- A computation that reads the objects.
  abbrev pub reads : {A : Type 0} → (S → Result A) → Action S A
  reads f w = (of_result (f w.objects), w)

  abbrev pub runs : {A : Type 0} → (S → Option (Result A)) → Action S A
  runs f w = (of_run (f w.objects), w)

  -- One that writes objects too. The objects of a computation that raises are dropped: no row names
  -- them.
  abbrev pub wrote : {A : Type 0} → World S → Result (A × S) → Outcome A × World S
  wrote w (ok (a, s)) = (done a, record w { objects = s })
  wrote w (raise e) = (raised e, w)

  abbrev pub writes : {A : Type 0} → (S → Result (A × S)) → Action S A
  writes f w = wrote w (f w.objects)

-- A request ends its session: what it has not committed is gone.
abbrev pub request : {S A : Type 0} → Action S A → Rows → S → Outcome A × World S
request m rows s = m (record { committed = rows; pending = rows; objects = s })
