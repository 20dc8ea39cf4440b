-- ===== src/Chain/Polling/Steady.antt =====
-- internal/chain/listener.go: a property of the database that a poll keeps, whether it fails or
-- not, and its rules.
use clearinghouse_batteries.Base.{ℕ, String, Bool, true, false, if◌then◌else◌}
use clearinghouse_batteries.Base.Exec.{Result}
use clearinghouse_batteries.Db.{World, Db}
use clearinghouse_batteries.Db.Tx.{Tx}
use clearinghouse_batteries.Db.Tx.Always.{Always}
use clearinghouse_batteries.Chain.Polling.{
  Failure, Outcome, done, failed, Poll, return, fail, fail_if, give, call, request, during,
  continue, ◌>>=◌,
}

pub record Steady (P : Db → Type 0) {A : Type 0} (m : Poll A) : Type 0 where
  pub at : (w : World) → P w.db → P (m w).1.db

module _ {P : Db → Type 0} {A : Type 0} where
  pub Steady-return : (a : A) → Steady P (return a)
  unfolding return
  Steady-return a = record { at = λ w h. h }

  pub Steady-fail : (f : Failure) → Steady P (fail {A = A} f)
  unfolding fail
  Steady-fail f = record { at = λ w h. h }

  pub Steady-give : (r : Result A) → Steady P (give r)
  unfolding give
  Steady-give r = record { at = λ w h. h }

  pub Steady-call : (m : Tx A) → Always P m → Steady P (call m)
  unfolding call
  Steady-call m k = record { at = k.at }

  pub Steady-request : (f : ℕ → Result A) → Steady P (request f)
  unfolding request
  Steady-request f = record { at = λ w h. h }

  pub Steady-during : (stage : String) (m : Poll A) → Steady P m → Steady P (during stage m)
  unfolding during
  Steady-during stage m k = record { at = k.at }

  pub Steady-if :
      (b : Bool) (m n : Poll A) → Steady P m → Steady P n → Steady P (if b then m else n)
  Steady-if true m n km kn = km
  Steady-if false m n km kn = kn

module _ {P : Db → Type 0} where
  pub Steady-fail_if : (b : Bool) (f : Failure) → Steady P (fail_if b f)
  unfolding fail_if
  Steady-fail_if true f = Steady-fail f
  Steady-fail_if false f = Steady-return tt

module _ {P : Db → Type 0} {A B : Type 0} where
  Steady-continue :
      (r : Outcome A) (f : A → Poll B) (w : World)
      → ((a : A) → Steady P (f a))
      → P w.db
      → P (continue r f w).1.db
  Steady-continue (done a) f w kf h = (kf a).at w h
  Steady-continue (failed e) f w kf h = h

  pub Steady-bind :
      (m : Poll A) (f : A → Poll B) → Steady P m → ((a : A) → Steady P (f a)) → Steady P (m >>= f)
  unfolding ◌>>=◌
  Steady-bind m f km kf = record { at = λ w h. Steady-continue (m w).0 f (m w).1 kf (km.at w h) }

pub ruleset steady_rules = (
  Steady-return, Steady-fail, Steady-give, Steady-call, Steady-request, Steady-during, Steady-if,
  Steady-fail_if, Steady-bind,
)
