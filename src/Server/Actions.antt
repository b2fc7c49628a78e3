-- ===== src/Server/Actions.antt =====
-- What a request that gives a reply has passed: the inversions of the actions.
use dit.Prelude.{Error, ℕ, ◌≡◌, refl, ap, Bool, true, false, Option, none, some, Result, ok, raise}
use dit.Server.{
  Outcome, done, refused, raised, spent, World, Action, and_then, ◌>>=◌, refuse_if, found, of_run,
  runs, writes, wrote,
}

pub not_refused :
    {S A : Type 0} {code : ℕ} {a : A} {w w' : World S}
    → ◌≡◌ {A = Outcome A × World S} (refused code, w) (done a, w')
    → ⊥
not_refused h = cc

pub not_raised :
    {S A : Type 0} {e : Error} {a : A} {w w' : World S}
    → ◌≡◌ {A = Outcome A × World S} (raised e, w) (done a, w')
    → ⊥
not_raised h = cc

pub not_spent :
    {S A : Type 0} {a : A} {w w' : World S}
    → ◌≡◌ {A = Outcome A × World S} (spent, w) (done a, w')
    → ⊥
not_spent h = cc

pub done_eq :
    {S A : Type 0} {a b : A} {w w' : World S}
    → ◌≡◌ {A = Outcome A × World S} (done a, w) (done b, w')
    → (a ≡ b) × (w ≡ w')
done_eq h = (cc, ap (λ u. u.1) h)

-- The steps of a request that gives a reply, one by one.
module _ {S B : Type 0} where
  pub past_refuse_if :
      (b : Bool) (code : ℕ) (f : Unit {0} → Action S B) (w : World S) {x : B} {w' : World S}
      → (refuse_if b code >>= f) w ≡ (done x, w')
      → (b ≡ false) × (f tt w ≡ (done x, w'))
  past_refuse_if true code f w h = cc
  past_refuse_if false code f w h = (refl, h)

  module _ {A : Type 0} where
    pub past_found :
        (o : Option A) (code : ℕ) (f : A → Action S B) (w : World S) {x : B} {w' : World S}
        → (found o code >>= f) w ≡ (done x, w')
        → (a : A) × (o ≡ some a) × (f a w ≡ (done x, w'))
    past_found none code f w h = cc
    past_found (some a) code f w h = (a, refl, h)

    past_run :
        (r : Option (Result A)) (f : A → Action S B) (w : World S) {x : B} {w' : World S}
        → and_then f (of_run r, w) ≡ (done x, w')
        → (a : A) × (r ≡ some (ok a)) × (f a w ≡ (done x, w'))
    past_run none f w h = cc
    past_run (some (raise e)) f w h = cc
    past_run (some (ok a)) f w h = (a, refl, h)

    pub past_runs :
        (g : S → Option (Result A)) (f : A → Action S B) (w : World S) {x : B} {w' : World S}
        → (runs g >>= f) w ≡ (done x, w')
        → (a : A) × (g w.objects ≡ some (ok a)) × (f a w ≡ (done x, w'))
    past_runs g f w h = past_run (g w.objects) f w h

    past_wrote :
        (r : Result (A × S)) (f : A → Action S B) (w : World S) {x : B} {w' : World S}
        → and_then f (wrote w r) ≡ (done x, w')
        → (a : A) × (s : S) × (r ≡ ok (a, s)) × (f a (record w { objects = s }) ≡ (done x, w'))
    past_wrote (raise e) f w h = cc
    past_wrote (ok (a, s)) f w h = (a, s, refl, h)

    pub past_writes :
        (g : S → Result (A × S)) (f : A → Action S B) (w : World S) {x : B} {w' : World S}
        → (writes g >>= f) w ≡ (done x, w')
        → (a : A) × (s : S) × (g w.objects ≡ ok (a, s))
          × (f a (record w { objects = s }) ≡ (done x, w'))
    past_writes g f w h = past_wrote (g w.objects) f w h

module _ {S A B : Type 0} where
  pub then_done :
      (o : Outcome A × World S) (f : A → Action S B) {b : B} {w' : World S}
      → and_then f o ≡ (done b, w')
      → (a : A) × (w : World S) × (o ≡ (done a, w)) × (f a w ≡ (done b, w'))
  then_done (done a, w) f h = (a, w, refl, h)
  then_done (refused c, w) f h = cc
  then_done (raised e, w) f h = cc
  then_done (spent, w) f h = cc

module _ {S : Type 0} where
  pub refuse_if_done :
      (b : Bool) (code : ℕ) (w : World S) {a : Unit {0}} {w' : World S}
      → refuse_if b code w ≡ (done a, w')
      → (b ≡ false) × (w ≡ w')
  refuse_if_done true code w h = cc
  refuse_if_done false code w h = (refl, ap (λ u. u.1) h)
