-- ===== src/Base/Exec/Inversion.antt =====
-- What a sequence of actions that returned has done: each of its parts returned.
use mathlib.Core.Path.{◌≡◌, refl, ap}
use mathlib.Core.Logic.{◌⊎◌, inl, inr}
use mathlib.Core.Bool.{Bool, true, false}
use clearinghouse_batteries.Base.Tests.{if◌then◌else◌}
use clearinghouse_batteries.Base.Exec.{
  Error, Result, ok, err, Exec, bind_result, map_result, continue, ◌>>=◌,
}

value_of {ℓ} : {A : Type ℓ} → A → Result A → A
value_of d (ok a) = a
value_of d (err e) = d

pub ok_inj {ℓ} : {A : Type ℓ} {a b : A} → ok a ≡ ok b → a ≡ b
unfolding value_of
ok_inj {a = a} h = ap (value_of a) h

module _ {S A B : Type 0} where
  -- The first part returned, and the rest ran in the state that it left.
  pub record Chained (m : Exec S A) (f : A → Exec S B) (s : S) : Type 0 where
    pub value : A
    pub returned : (m s).0 ≡ ok value
    pub rest : (m >>= f) s ≡ f value (m s).1

  continue_ok :
      (r : Result A) (f : A → Exec S B) (s : S) (b : B)
      → (continue r f s).0 ≡ ok b
      → (a : A) × (r ≡ ok a) × (continue r f s ≡ f a s)
  continue_ok (ok a) f s b h = (a, refl, refl)
  continue_ok (err e) f s b h = cc

  pub >>=-Chained :
      (m : Exec S A) (f : A → Exec S B) (s : S) (b : B) → ((m >>= f) s).0 ≡ ok b → Chained m f s
  unfolding ◌>>=◌
  >>=-Chained m f s b h =
      let (a, e, k) = continue_ok (m s).0 f (m s).1 b h in
      record { value = a; returned = e; rest = k }

module _ {ℓ κ} {A : Type ℓ} {B : Type κ} where
  pub bind_result_ok :
      (r : Result A) (f : A → Result B) (b : B)
      → bind_result r f ≡ ok b
      → (a : A) × (r ≡ ok a) × (f a ≡ ok b)
  bind_result_ok (ok a) f b h = (a, refl, h)
  bind_result_ok (err e) f b h = cc

  pub map_result_ok :
      (f : A → B) (r : Result A) (b : B) → map_result f r ≡ ok b → (a : A) × (r ≡ ok a) × (f a ≡ b)
  map_result_ok f (ok a) b h = (a, refl, ok_inj h)
  map_result_ok f (err e) b h = cc

pub if_ok :
    {A : Type 0} (b : Bool) (e : Error) (r : Result A) (a : A)
    → (if b then err e else r) ≡ ok a
    → (b ≡ false) × (r ≡ ok a)
if_ok true e r a h = cc
if_ok false e r a h = (refl, h)

-- Which branch gave a result.
pub if_cases {ℓ} :
    {A : Type ℓ} (b : Bool) (x y r : A)
    → (if b then x else y) ≡ r
    → ((b ≡ true) × (x ≡ r)) ⊎ ((b ≡ false) × (y ≡ r))
if_cases true x y r h = inl (refl, h)
if_cases false x y r h = inr (refl, h)
