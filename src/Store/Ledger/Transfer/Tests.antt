-- ===== src/Store/Ledger/Transfer/Tests.antt =====
-- Tests for internal/store/store.go: a transfer of 30 units on a fresh ledger.
use clearinghouse_batteries.Base.{String, ◌≡◌, refl}
use clearinghouse_batteries.Base.Int.{pos, ◌+ℤ◌, ◌-ℤ◌}
use clearinghouse_batteries.Base.Exec.{ok, raise, pure}
use clearinghouse_batteries.Fixtures.{fresh_world}
use clearinghouse_batteries.Store.Ledger.{transfer_currency}
use clearinghouse_batteries.Store.Ledger.Sums.{same_account, counted}
use clearinghouse_batteries.Store.Ledger.Transfer.{view, transfer_currency-balances}

transfer_returns :
    (transfer_currency "k" "test" "t" "r" "treasury_cash" "a" "treasury_settled_spend" "b" "eth"
      (pos 30)
      fresh_world).0
    ≡ ok tt
unfolding transfer_currency clearinghouse_batteries.Base.Exec.◌>>=◌
    clearinghouse_batteries.Db.Tx.fresh_id clearinghouse_batteries.Db.Tx.now
    clearinghouse_batteries.Db.Tx.query clearinghouse_batteries.Db.Tx.execute
    clearinghouse_batteries.Store.Ledger.balance_currency
    clearinghouse_batteries.Store.Ledger.update_balance_metrics
transfer_returns = refl

transfer_currency-balances_example :
    view
      (transfer_currency "k" "test" "t" "r" "treasury_cash" "a" "treasury_settled_spend" "b" "eth"
        (pos 30)
        fresh_world).1.db
      "treasury_settled_spend"
      "b"
      "eth"
    ≡ view fresh_world.db "treasury_settled_spend" "b" "eth"
      +ℤ counted
          (same_account "treasury_cash" "a" "eth" "treasury_settled_spend" "b" "eth")
          (pos 0 -ℤ pos 30)
      +ℤ counted
          (same_account "treasury_settled_spend" "b" "eth" "treasury_settled_spend" "b" "eth")
          (pos 30)
transfer_currency-balances_example =
    transfer_currency-balances "k" "test" "t" "r" "treasury_cash" "a" "treasury_settled_spend" "b"
      "eth" (pos 30) fresh_world transfer_returns "treasury_settled_spend" "b" "eth"
