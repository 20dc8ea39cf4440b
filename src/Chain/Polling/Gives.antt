-- ===== src/Chain/Polling/Gives.antt =====
-- internal/chain/listener.go: what holds when a poll returns a value, and its rules.
use clearinghouse_batteries.Base.{String, ◌≡◌, refl, ap, subst, Bool, true, false, if◌then◌else◌}
use clearinghouse_batteries.Base.Exec.{Result, ok, err}
use clearinghouse_batteries.Db.{World}
use clearinghouse_batteries.Db.Tx.{Tx}
use clearinghouse_batteries.Chain.Polling.{
  Failure, Outcome, done, failed, Poll, return, fail, fail_if, give, call, during, continue, ◌>>=◌,
  staged, outcome_of,
}

pub record Gives {A : Type 0} (m : Poll A) (Q : A → World → Type 0) : Type 0 where
  pub at : (w : World) (a : A) → (m w).0 ≡ done a → Q a (m w).1

value_or : {A : Type 0} → A → Outcome A → A
value_or d (done a) = a
value_or d (failed f) = d

done_inj : {A : Type 0} {a b : A} → done a ≡ done b → a ≡ b
unfolding value_or
done_inj {a = a} h = ap (value_or a) h

module _ {A : Type 0} {Q : A → World → Type 0} where
  pub Gives-return : (a : A) → ((w : World) → Q a w) → Gives (return a) Q
  unfolding return
  Gives-return a q = record { at = λ w b h. subst (λ x. Q x w) (done_inj h) (q w) }

  pub Gives-fail : (f : Failure) → Gives (fail {A = A} f) Q
  unfolding fail
  Gives-fail f = record { at = λ w b h. cc }

  pub Gives-during : (stage : String) (m : Poll A) → Gives m Q → Gives (during stage m) Q
  unfolding during
  Gives-during stage m g = record { at = λ w a h. inner (m w) a (g.at w a) h }
    where
      inner :
          (r : Outcome A × World) (a : A)
          → (r.0 ≡ done a → Q a r.1)
          → staged stage r.0 ≡ done a
          → Q a r.1
      inner (done b, w) a k h = k h
      inner (failed f, w) a k h = cc

  pub Gives-if :
      (b : Bool) (m n : Poll A)
      → (b ≡ true → Gives m Q)
      → (b ≡ false → Gives n Q)
      → Gives (if b then m else n) Q
  Gives-if true m n gm gn = gm refl
  Gives-if false m n gm gn = gn refl

  -- A call of the store, by what it returns and leaves.
  pub Gives-call :
      (m : Tx A) → ((w : World) (a : A) → (m w).0 ≡ ok a → Q a (m w).1) → Gives (call m) Q
  unfolding call
  Gives-call m k = record { at = λ w a h. inner (m w) a (k w a) h }
    where
      inner :
          (r : Result A × World) (a : A)
          → (r.0 ≡ ok a → Q a r.1)
          → outcome_of r.0 ≡ done a
          → Q a r.1
      inner (ok b, w) a l h = l (ap ok (done_inj h))
      inner (err e, w) a l h = cc

pub Gives-give : {A : Type 0} (r : Result A) → Gives (give r) (λ a _. r ≡ ok a)
unfolding give
Gives-give (ok b) = record { at = λ w a h. ap ok (done_inj h) }
Gives-give (err e) = record { at = λ w a h. cc }

pub Gives-fail_if : (b : Bool) (f : Failure) → Gives (fail_if b f) (λ _ _. b ≡ false)
unfolding fail_if fail return
Gives-fail_if true f = record { at = λ w a h. cc }
Gives-fail_if false f = record { at = λ w a h. refl }

pub Gives-any : {A : Type 0} (m : Poll A) → Gives m (λ _ _. Unit)
Gives-any m = record { at = λ w a h. tt }

module _ {A B : Type 0} {Q : A → Type 0} {R : B → World → Type 0} where
  -- The rest may use what the first part gave.
  pub Gives-bind :
      (m : Poll A) (f : A → Poll B)
      → Gives m (λ a _. Q a)
      → ((a : A) → Q a → Gives (f a) R)
      → Gives (m >>= f) R
  unfolding ◌>>=◌
  Gives-bind m f gm gf = record { at = λ w b h. onward (m w) b (gm.at w) h }
    where
      onward :
          (r : Outcome A × World) (b : B)
          → ((a : A) → r.0 ≡ done a → Q a)
          → (continue r.0 f r.1).0 ≡ done b
          → R b (continue r.0 f r.1).1
      onward (done a, w) b q h = (gf a (q a refl)).at w b h
      onward (failed e, w) b q h = cc

-- What a poll leaves, and a value after it.
pub Gives-last :
    {A B : Type 0} {Q : World → Type 0} (m : Poll A) (b : B)
    → Gives m (λ _. Q)
    → Gives (m >>= λ _. return b) (λ _. Q)
unfolding ◌>>=◌ return
Gives-last {A} {B} {Q} m b g = record { at = λ w x h. onward (m w) x (g.at w) h }
  where
    onward :
        (r : Outcome A × World) (x : B)
        → ((a : A) → r.0 ≡ done a → Q r.1)
        → (continue r.0 (λ _ w. (done b, w)) r.1).0 ≡ done x
        → Q (continue r.0 (λ _ w. (done b, w)) r.1).1
    onward (done a, w) x q h = q a refl
    onward (failed f, w) x q h = cc
