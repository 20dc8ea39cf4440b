-- ===== src/Db/Tx/Tests.antt =====
-- Tests for internal/store/store.go: a transaction that writes and then fails.
use clearinghouse_batteries.Base.{[], ◌∷◌}
use clearinghouse_batteries.Base.Int.{pos}
use clearinghouse_batteries.Base.Exec.{failure, raise, ◌>>◌}
use clearinghouse_batteries.Db.Tx.{Tx, execute}

abbrev half_done : Tx (Unit {0})
half_done =
    execute
      (λ db. record db { blocks = record { stream = "chain"; number = pos 1; hash = "h" } ∷ [] })
    >> raise (failure "late")
