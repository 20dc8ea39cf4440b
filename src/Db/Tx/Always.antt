-- ===== src/Db/Tx/Always.antt =====
-- internal/store/store.go, `Write`: a predicate on calls for a property of the database that a call
-- keeps in every case, and its rules.
use clearinghouse_batteries.Base.{Bool, true, false, if◌then◌else◌}
use clearinghouse_batteries.Base.Exec.{
  Error, Result, ok, err, pure, raise, lift, raise_if, when, continue, ◌>>=◌,
}
use clearinghouse_batteries.Base.Exec.Keeps.{Keeps}
use clearinghouse_batteries.Db.{World, Db}
use clearinghouse_batteries.Db.Tx.{Tx, now, query, write}
use clearinghouse_batteries.Db.Tx.Rules.{OfDb, write-keeps}

pub record Always (P : Db → Type 0) {A : Type 0} (m : Tx A) : Type 0 where
  pub at : (w : World) → P w.db → P (m w).1.db

module _ {P : Db → Type 0} {A : Type 0} where
  pub Always-write : (body : Tx A) → Keeps (OfDb P) body → Always P (write body)
  Always-write body k = record { at = write-keeps P body k }

  pub Always-pure : (a : A) → Always P (pure a)
  unfolding pure
  Always-pure a = record { at = λ w h. h }

  pub Always-raise : (e : Error) → Always P (raise {A = A} e)
  unfolding raise
  Always-raise e = record { at = λ w h. h }

  pub Always-lift : (r : Result A) → Always P (lift r)
  unfolding lift
  Always-lift r = record { at = λ w h. h }

  pub Always-query : (f : Db → A) → Always P (query f)
  unfolding query
  Always-query f = record { at = λ w h. h }

  pub Always-if : (b : Bool) (m n : Tx A) → Always P m → Always P n → Always P (if b then m else n)
  Always-if true m n km kn = km
  Always-if false m n km kn = kn

module _ {P : Db → Type 0} where
  pub Always-now : Always P now
  unfolding now
  Always-now = record { at = λ w h. h }

  pub Always-raise_if : (c : Bool) (e : Error) → Always P (raise_if c e)
  unfolding raise_if
  Always-raise_if true e = record { at = λ w h. h }
  Always-raise_if false e = record { at = λ w h. h }

  pub Always-when : (c : Bool) (m : Tx (Unit {0})) → Always P m → Always P (when c m)
  unfolding when
  Always-when true m h = h
  Always-when false m h = Always-pure tt

module _ {P : Db → Type 0} {A B : Type 0} where
  Always-continue :
      (r : Result A) (f : A → Tx B) (w : World)
      → ((a : A) → Always P (f a))
      → P w.db
      → P (continue r f w).1.db
  Always-continue (ok a) f w kf h = (kf a).at w h
  Always-continue (err e) f w kf h = h

  pub Always-bind :
      (m : Tx A) (f : A → Tx B) → Always P m → ((a : A) → Always P (f a)) → Always P (m >>= f)
  unfolding ◌>>=◌
  Always-bind m f km kf = record { at = λ w h. Always-continue (m w).0 f (m w).1 kf (km.at w h) }

pub ruleset always_rules = (
  Always-write, Always-pure, Always-raise, Always-lift, Always-query, Always-if, Always-now,
  Always-raise_if, Always-when, Always-bind,
)
