-- ===== src/Base/Exec/Total.antt =====
-- Actions that return in every state, whatever the calls that they attempt do.
use mathlib.Core.Path.{◌≡◌, refl}
use clearinghouse_batteries.Base.Exec.{Result, ok, err, Exec, pure, continue, ◌>>=◌}
use clearinghouse_batteries.Base.Exec.Keeps.{Returns, Ensures}

pub record Total {S A : Type 0} (m : Exec S A) : Type 0 where
  pub at : (s : S) → (a : A) × ((m s).0 ≡ ok a)

module _ {S A : Type 0} where
  pub Total-pure : (a : A) → Total {S = S} (pure a)
  unfolding pure
  Total-pure a = record { at = λ s. (a, refl) }

  -- What an action ensures when it returns holds of the state that a total one leaves.
  pub Total-Ensures :
      {P : S → Type 0} {Q : A → S → Type 0} (m : Exec S A)
      → Total m
      → Ensures P m Q
      → (s : S) → P s
      → (a : A) × ((m s).0 ≡ ok a) × Q a (m s).1
  Total-Ensures {Q = Q} m t e s h = returned (m s) (t.at s) (e.at s h)
    where
      returned :
          (r : Result A × S)
          → (a : A) × (r.0 ≡ ok a)
          → Returns Q r
          → (a : A) × (r.0 ≡ ok a) × Q a r.1
      returned (ok a, s') k q = (a, refl, q)
      returned (err x, s') (a, k) q = cc

module _ {S A B : Type 0} where
  pub Total-bind :
      (m : Exec S A) (f : A → Exec S B) → Total m → ((a : A) → Total (f a)) → Total (m >>= f)
  unfolding ◌>>=◌
  Total-bind m f tm tf = record { at = λ s. onward s (m s) (tm.at s) }
    where
      onward :
          (s : S) (r : Result A × S)
          → (a : A) × (r.0 ≡ ok a)
          → (b : B) × ((continue r.0 f r.1).0 ≡ ok b)
      onward s (ok a, s') k = (tf a).at s'
      onward s (err x, s') (a, k) = cc
