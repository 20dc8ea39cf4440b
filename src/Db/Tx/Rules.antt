-- ===== src/Db/Tx/Rules.antt =====
-- internal/store/store.go, `Write`: rules for statements, draws and transactions.
use clearinghouse_batteries.Base.Exec.{Result, ok, err}
use clearinghouse_batteries.Base.Exec.Keeps.{Keeps, Ensures, Keeps-or_raise, Returns, keeps_rules}
use clearinghouse_batteries.Db.{World, Db}
use clearinghouse_batteries.Db.Tx.{Tx, fresh_id, now, random, query, execute, write, finish}

-- What holds of the database alone.
pub record OfDb (P : Db → Type 0) (w : World) : Type 0 where
  pub holds : P w.db

module _ {P : Db → Type 0} where
  pub Keeps-query : {A : Type 0} (f : Db → A) → Keeps (OfDb P) (query f)
  unfolding query
  Keeps-query f = record { at = λ w h. h }

  pub Keeps-execute : (f : Db → Db) → ((d : Db) → P d → P (f d)) → Keeps (OfDb P) (execute f)
  unfolding execute
  Keeps-execute f h = record { at = λ w k. record { holds = h w.db k.holds } }

  pub Keeps-fresh_id : Keeps (OfDb P) fresh_id
  unfolding fresh_id
  Keeps-fresh_id = record { at = λ w h. record { holds = h.holds } }

  pub Keeps-now : Keeps (OfDb P) now
  unfolding now
  Keeps-now = record { at = λ w h. record { holds = h.holds } }

  pub Keeps-random : Keeps (OfDb P) random
  unfolding random
  Keeps-random = record {
    at = λ w h. (Keeps-or_raise (w.env.secret w.draws) _).at _ (record { holds = h.holds });
  }

stronger :
    {A : Type 0} {Q R : Db → Type 0}
    → ((d : Db) → Q d → R d)
    → (r : Result A × World) → Returns (λ _. OfDb Q) r
    → Returns (λ _. OfDb R) r
stronger f (ok a, w) h = record { holds = f w.db h.holds }
stronger f (err e, w) h = tt

module _ {P : Db → Type 0} where
  pub Ensures-execute :
      {Q : Db → Type 0} (f : Db → Db)
      → ((d : Db) → P d → Q (f d))
      → Ensures (OfDb P) (execute f) (λ _. OfDb Q)
  unfolding execute
  Ensures-execute f h = record { at = λ w k. record { holds = h w.db k.holds } }

  pub Ensures-query :
      {A : Type 0} {Q : A → Db → Type 0} (f : Db → A)
      → ((d : Db) → P d → Q (f d) d)
      → Ensures (OfDb P) (query f) (λ a. OfDb (Q a))
  unfolding query
  Ensures-query f h = record { at = λ w k. record { holds = h w.db k.holds } }

  pub Ensures-weaken :
      {A : Type 0} {R : Db → Type 0} {Q : A → World → Type 0} (m : Tx A)
      → ((d : Db) → R d → P d)
      → Ensures (OfDb P) m Q
      → Ensures (OfDb R) m Q
  Ensures-weaken m f k = record { at = λ w h. k.at w (record { holds = f w.db h.holds }) }

  pub Ensures-strengthen :
      {A : Type 0} {Q R : Db → Type 0} (m : Tx A)
      → ((d : Db) → Q d → R d)
      → Ensures (OfDb P) m (λ _. OfDb Q)
      → Ensures (OfDb P) m (λ _. OfDb R)
  Ensures-strengthen m f k = record { at = λ w h. stronger f (m w) (k.at w h) }

module _ {A : Type 0} where
  finish-keeps :
      (P : Db → Type 0) (before : Db) (r : Result A × World)
      → P before
      → Returns (λ _. OfDb P) r
      → P (finish before r).1.db
  finish-keeps P before (ok a, w) h k = k.holds
  finish-keeps P before (err e, w) h k = h

  -- So a body that keeps `P` when it returns is a transaction that keeps `P` in every case.
  pub write-keeps :
      (P : Db → Type 0) (body : Tx A)
      → Keeps (OfDb P) body
      → (w : World) → P w.db
      → P (write body w).1.db
  unfolding write
  write-keeps P body k w h = finish-keeps P w.db (body w) h (k.at w (record { holds = h }))

pub ruleset tx_rules =
    (keeps_rules, Keeps-query, Keeps-execute, Keeps-fresh_id, Keeps-now, Keeps-random)
