-- ===== src/Db/Tx.antt =====
-- Transactions over the database, and the values that they draw from outside
-- (internal/store/store.go: `Write`, `ID`; `time.Now().UnixMilli()`).
pub mod Rules
pub mod Always
pub mod Tests
use clearinghouse_batteries.Base.{suc, String}
use clearinghouse_batteries.Base.Int.{ℤ}
use clearinghouse_batteries.Base.Exec.{Result, ok, err, failure, Exec, or_raise}
use clearinghouse_batteries.Db.{World, Db}

abbrev pub Tx : Type 0 → Type 0
Tx A = Exec World A

unfoldable pub fresh_id : Tx String
fresh_id w = (ok (w.env.uuid w.draws), record w { draws = suc w.draws })

unfoldable pub now : Tx ℤ
now w = (ok (w.env.clock w.draws), record w { draws = suc w.draws })

-- `rand.Read`
unfoldable pub random : Tx String
unfolding or_raise
random w = or_raise (w.env.secret w.draws) (failure "rand") (record w { draws = suc w.draws })

-- A statement that reads the database, and one that changes it.
unfoldable pub query : {A : Type 0} → (Db → A) → Tx A
query f w = (ok (f w.db), w)

unfoldable pub execute : (Db → Db) → Tx (Unit {0})
execute f w = (ok tt, record w { db = f w.db })

-- BEGIN IMMEDIATE, the body, then COMMIT, or ROLLBACK when the body returns an error.
abbrev pub finish : {A : Type 0} → Db → Result A × World → Result A × World
finish before (ok a, w) = (ok a, w)
finish before (err e, w) = (err e, record w { db = before })

unfoldable pub write : {A : Type 0} → Tx A → Tx A
write body w = finish w.db (body w)
