-- ===== src/Base/Exec/Keeps.antt =====
-- What an action does when it returns: a Hoare triple, and a property of the state that it keeps.
-- Nothing is said of the state that a failed action leaves, since a transaction is rolled back.
use mathlib.Core.Bool.{Bool, true, false}
use mathlib.Core.Option.{Option, none, some}
use mathlib.Core.Path.{◌≡◌, refl}
use mathlib.Core.List.{List, [], ◌∷◌}
use clearinghouse_batteries.Base.Tests.{if◌then◌else◌}
use clearinghouse_batteries.Base.Exec.{
  Error, Result, ok, err, Exec, pure, raise, lift, gets, or_raise, modify, raise_if, when, continue,
  ◌>>=◌, for_each,
}

abbrev pub Returns : {S A : Type 0} → (A → S → Type 0) → Result A × S → Type 0
Returns Q (ok a, s) = Q a s
Returns Q (err e, s) = Unit

pub record Ensures {S A : Type 0} (P : S → Type 0) (m : Exec S A) (Q : A → S → Type 0)
    : Type 0 where
  pub at : (s : S) → P s → Returns Q (m s)

pub record Keeps {S A : Type 0} (P : S → Type 0) (m : Exec S A) : Type 0 where
  pub at : (s : S) → P s → Returns (λ _. P) (m s)

module _ {S A : Type 0} {P : S → Type 0} where
  pub Keeps-ensures : {m : Exec S A} → Keeps P m → Ensures P m (λ _. P)
  Keeps-ensures k = record { at = k.at }

  pub ensures-Keeps : {m : Exec S A} → Ensures P m (λ _. P) → Keeps P m
  ensures-Keeps k = record { at = k.at }

  pub Keeps-pure : (a : A) → Keeps P (pure a)
  unfolding pure
  Keeps-pure a = record { at = λ s h. h }

  pub Keeps-raise : (e : Error) → Keeps P (raise {A = A} e)
  unfolding raise
  Keeps-raise e = record { at = λ s h. tt }

  pub Keeps-lift : (r : Result A) → Keeps P (lift r)
  unfolding lift
  Keeps-lift (ok a) = record { at = λ s h. h }
  Keeps-lift (err e) = record { at = λ s h. tt }

  pub Keeps-gets : (f : S → A) → Keeps P (gets f)
  unfolding gets
  Keeps-gets f = record { at = λ s h. h }

  pub Keeps-or_raise : (o : Option A) (e : Error) → Keeps P (or_raise o e)
  unfolding or_raise
  Keeps-or_raise none e = record { at = λ s h. tt }
  Keeps-or_raise (some a) e = record { at = λ s h. h }

  pub Keeps-if : (b : Bool) (m n : Exec S A) → Keeps P m → Keeps P n → Keeps P (if b then m else n)
  Keeps-if true m n km kn = km
  Keeps-if false m n km kn = kn

-- A branch may use the outcome of its test.
module _ {S A : Type 0} {P : S → Type 0} {Q : A → S → Type 0} where
  pub Ensures-if :
      (b : Bool) (m n : Exec S A)
      → (b ≡ true → Ensures P m Q)
      → (b ≡ false → Ensures P n Q)
      → Ensures P (if b then m else n) Q
  Ensures-if true m n km kn = km refl
  Ensures-if false m n km kn = kn refl

  pub Ensures-raise : (e : Error) → Ensures P (raise {A = A} e) Q
  unfolding raise
  Ensures-raise e = record { at = λ s h. tt }

  pub Ensures-pure : (a : A) → ((s : S) → P s → Q a s) → Ensures P (pure a) Q
  unfolding pure
  Ensures-pure a h = record { at = h }

module _ {S : Type 0} {P : S → Type 0} where
  pub Keeps-modify : (f : S → S) → ((s : S) → P s → P (f s)) → Keeps P (modify f)
  unfolding modify
  Keeps-modify f h = record { at = h }

  pub Keeps-raise_if : (c : Bool) (e : Error) → Keeps P (raise_if c e)
  unfolding raise_if
  Keeps-raise_if true e = record { at = λ s h. tt }
  Keeps-raise_if false e = record { at = λ s h. h }

  pub Keeps-when : (c : Bool) (m : Exec S (Unit {0})) → Keeps P m → Keeps P (when c m)
  unfolding when
  Keeps-when true m h = h
  Keeps-when false m h = Keeps-pure tt

module _ {S A B : Type 0} {Q : A → S → Type 0} {R : B → S → Type 0} where
  Ensures-continue :
      (r : Result A) (f : A → Exec S B) (s : S)
      → ((a : A) → Ensures (Q a) (f a) R)
      → Returns Q (r, s)
      → Returns R (continue r f s)
  Ensures-continue (ok a) f s kf h = (kf a).at s h
  Ensures-continue (err e) f s kf h = tt

  pub Ensures-bind :
      {P : S → Type 0} (m : Exec S A) (f : A → Exec S B)
      → Ensures P m Q
      → ((a : A) → Ensures (Q a) (f a) R)
      → Ensures P (m >>= f) R
  unfolding ◌>>=◌
  Ensures-bind m f km kf = record { at = λ s h. Ensures-continue (m s).0 f (m s).1 kf (km.at s h) }

module _ {S A B : Type 0} {P : S → Type 0} where
  pub Keeps-bind :
      (m : Exec S A) (f : A → Exec S B) → Keeps P m → ((a : A) → Keeps P (f a)) → Keeps P (m >>= f)
  Keeps-bind m f km kf =
      ensures-Keeps (Ensures-bind m f (Keeps-ensures km) (λ a. Keeps-ensures (kf a)))

  -- An action that keeps `P` may stand before one with a triple from `P`.
  pub Ensures-after :
      {R : B → S → Type 0} (m : Exec S A) (f : A → Exec S B)
      → Keeps P m
      → ((a : A) → Ensures P (f a) R)
      → Ensures P (m >>= f) R
  Ensures-after m f km kf = Ensures-bind m f (Keeps-ensures km) kf

pub Keeps-for_each :
    {S A : Type 0} {P : S → Type 0} (xs : List A) (body : A → Exec S (Unit {0}))
    → ((a : A) → Keeps P (body a))
    → Keeps P (for_each xs body)
unfolding for_each
Keeps-for_each [] body k = Keeps-pure tt
Keeps-for_each (x ∷ xs) body k =
    Keeps-bind (body x) (λ _. for_each xs body) (k x) (λ _. Keeps-for_each xs body k)

pub ruleset keeps_rules = (
  Keeps-pure, Keeps-raise, Keeps-lift, Keeps-gets, Keeps-or_raise, Keeps-raise_if, Keeps-when,
  Keeps-if, Keeps-modify, Keeps-bind, Keeps-for_each,
)
