-- ===== src/Server/Exits.antt =====
-- To show a property of the world that a request leaves where it succeeds, and one where it does
-- not: the second holds where a step may end the request, and the first at its end.
use mathlib.Core.Path.{subst}
use dit.Prelude.{
  Result-cases, Run-cases, sym, ℕ, ◌≡◌, refl, Bool, true, false, Option, none, some, Result, ok,
  raise,
}
use dit.Prelude.{String, inl, inr, Option-cases}
use dit.Prelude.Dict
use dit.Merge.{MergeResult}
use dit.Server.MergeCommit.{Storage, merge_base, merge_trees}
use dit.Server.Pulls.{ref_name, resolve_branch, compute_mergeability}
use dit.Server.{
  Outcome, done, refused, raised, spent, World, Action, and_then, ◌>>=◌, refuse_if, found,
  of_result, of_run, reads, runs, writes, wrote,
}

-- The first property of the world after a reply, the second after any other outcome.
abbrev pub Ends :
    {S A : Type 0} → (World S → Type 0) × (World S → Type 0) → Outcome A × World S → Type 0
Ends Q (done a, w) = Q.0 w
Ends Q (refused code, w) = Q.1 w
Ends Q (raised e, w) = Q.1 w
Ends Q (spent, w) = Q.1 w

-- One property, whatever the outcome.
abbrev pub Both : {S : Type 0} → (World S → Type 0) → (World S → Type 0) × (World S → Type 0)
Both P = (P, P)

pub Ends-either :
    {S A : Type 0} (P : World S → Type 0) (o : Outcome A × World S) → Ends (Both P) o → P o.1
Ends-either P (done a, w) h = h
Ends-either P (refused code, w) h = h
Ends-either P (raised e, w) h = h
Ends-either P (spent, w) h = h

pub either-Ends :
    {S A : Type 0} (P : World S → Type 0) (o : Outcome A × World S) → P o.1 → Ends (Both P) o
either-Ends P (done a, w) h = h
either-Ends P (refused code, w) h = h
either-Ends P (raised e, w) h = h
either-Ends P (spent, w) h = h

module _ {S B : Type 0} (Q : (World S → Type 0) × (World S → Type 0)) where
  pub exit_refuse_if :
      (b : Bool) (code : ℕ) (f : Unit {0} → Action S B) (w : World S)
      → Q.1 w
      → (b ≡ false → Ends Q (f tt w))
      → Ends Q ((refuse_if b code >>= f) w)
  exit_refuse_if true code f w q k = q
  exit_refuse_if false code f w q k = k refl

  module _ {A : Type 0} where
    pub exit_found :
        (o : Option A) (code : ℕ) (f : A → Action S B) (w : World S)
        → Q.1 w
        → ((a : A) → o ≡ some a → Ends Q (f a w))
        → Ends Q ((found o code >>= f) w)
    exit_found none code f w q k = q
    exit_found (some a) code f w q k = k a refl

    exit_result :
        (r : Result A) (f : A → Action S B) (w : World S)
        → Q.1 w
        → ((a : A) → Ends Q (f a w))
        → Ends Q (and_then f (of_result r, w))
    exit_result (raise e) f w q k = q
    exit_result (ok a) f w q k = k a

    exit_run :
        (r : Option (Result A)) (f : A → Action S B) (w : World S)
        → Q.1 w
        → ((a : A) → Ends Q (f a w))
        → Ends Q (and_then f (of_run r, w))
    exit_run none f w q k = q
    exit_run (some r) f w q k = exit_result r f w q k

    pub exit_reads :
        (g : S → Result A) (f : A → Action S B) (w : World S)
        → Q.1 w
        → ((a : A) → Ends Q (f a w))
        → Ends Q ((reads g >>= f) w)
    exit_reads g f w q k = exit_result (g w.objects) f w q k

    pub exit_runs :
        (g : S → Option (Result A)) (f : A → Action S B) (w : World S)
        → Q.1 w
        → ((a : A) → Ends Q (f a w))
        → Ends Q ((runs g >>= f) w)
    exit_runs g f w q k = exit_run (g w.objects) f w q k

    exit_wrote :
        (r : Result (A × S)) (f : A → Action S B) (w : World S)
        → Q.1 w
        → ((a : A) (s : S) → Ends Q (f a (record w { objects = s })))
        → Ends Q (and_then f (wrote w r))
    exit_wrote (raise e) f w q k = q
    exit_wrote (ok (a, s)) f w q k = k a s

    pub exit_writes :
        (g : S → Result (A × S)) (f : A → Action S B) (w : World S)
        → Q.1 w
        → ((a : A) (s : S) → Ends Q (f a (record w { objects = s })))
        → Ends Q ((writes g >>= f) w)
    exit_writes g f w q k = exit_wrote (g w.objects) f w q k

    -- An action that is known as a whole.
    pub exit_then :
        (o : Outcome A × World S) (f : A → Action S B)
        → Ends Q o
        → ((a : A) (w : World S) → Q.0 w → Ends Q (f a w))
        → Ends Q (and_then f o)
    exit_then (done a, w) f q k = k a w q
    exit_then (refused c, w) f q k = q
    exit_then (raised e, w) f q k = q
    exit_then (spent, w) f q k = q

  -- The same, where more is known after the first action.
  pub exit_after :
      {A : Type 0} (P : (World S → Type 0) × (World S → Type 0)) (o : Outcome A × World S)
      (f : A → Action S B)
      → Ends P o
      → ((w : World S) → P.1 w → Q.1 w)
      → ((a : A) (w : World S) → P.0 w → Ends Q (f a w))
      → Ends Q (and_then f o)
  exit_after P (done a, w) f p weak k = k a w p
  exit_after P (refused c, w) f p weak k = weak w p
  exit_after P (raised e, w) f p weak k = weak w p
  exit_after P (spent, w) f p weak k = weak w p

  -- A check inside an action: it leaves the world.
  pub exit_check :
      {A C : Type 0} (o : Outcome A × World S) (g : A → Action S C) (f : C → Action S B)
      (w : World S)
      → o.1 ≡ w
      → Q.1 w
      → ((a : A) (w' : World S) → o ≡ (done a, w') → Ends Q (and_then f (g a w)))
      → Ends Q (and_then f (and_then g o))
  exit_check (done a, w₁) g f w same q k =
      subst (λ u. Ends Q (and_then f (g a u))) (sym same) (k a w₁ refl)
  exit_check (refused c, w₁) g f w same q k = subst (Q.1) (sym same) q
  exit_check (raised e, w₁) g f w same q k = subst (Q.1) (sym same) q
  exit_check (spent, w₁) g f w same q k = subst (Q.1) (sym same) q

  pub exit_resolve_branch :
      (branch : String) (f : String × String → Action S B) (w : World S)
      → Q.1 w
      → ((h : String)
          → Dict.get w.pending.refs (ref_name branch) ≡ some h
          → Ends Q (f (ref_name branch, h) w))
      → Ends Q ((resolve_branch branch >>= f) w)
  exit_resolve_branch branch f w q k =
      elim (Option-cases (Dict.get w.pending.refs (ref_name branch))) [
        | inl absent ↦ rw absent q
        | inr (h, there) ↦ rw there (k h there)
      ]

-- The merge base and the merge of two heads.
pub exit_mergeability :
    (storage : Storage) {B : Type 0}
    (Q : (World storage.State → Type 0) × (World storage.State → Type 0)) (target source : String)
    (f : Option String × MergeResult → Action storage.State B) (w : World storage.State)
    → Q.1 w
    → ((base : Option String) (r : MergeResult) (s : storage.State)
        → Ends Q (f (base, r) (record w { objects = s })))
    → Ends Q ((compute_mergeability storage target source >>= f) w)
exit_mergeability storage Q target source f w q k =
    elim (Run-cases (merge_base storage target source w.objects)) [
      | inl out ↦ rw out q
      | inr (inr (e, failed)) ↦ rw failed q
      | inr (inl (base, based)) ↦
          elim (Result-cases (merge_trees storage base target source w.objects)) [
            | inr (e, failed) ↦ rw (based, failed) q
            | inl ((r, s), joined_) ↦ rw (based, joined_) (k base r s)
          ]
    ]
