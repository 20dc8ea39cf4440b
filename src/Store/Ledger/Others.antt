-- ===== src/Store/Ledger/Others.antt =====
-- internal/store/store.go: rules for `TransferCurrency` and a property of the other tables.
use clearinghouse_batteries.Base.{String}
use clearinghouse_batteries.Base.Int.{ℤ}
use clearinghouse_batteries.Base.Exec.Keeps.{Keeps}
use clearinghouse_batteries.Db.{Db, Ledger, LedgerTransaction, Summary}
use clearinghouse_batteries.Db.Tx.Rules.{OfDb, tx_rules}
use clearinghouse_batteries.Store.Summary.{on_summary}
use clearinghouse_batteries.Store.Ledger.{
  on_ledger, balance_currency, post, insert_transaction, transfer_currency,
}
use clearinghouse_batteries.Store.Ledger.Frame.{update_balance_metrics-Keeps}

module _ {P : Db → Type 0} (free : (f : Summary → Summary) (d : Db) → P d → P (on_summary f d))
    (booked : (f : Ledger → Ledger) (d : Db) → P d → P (on_ledger f d)) where
  balance_currency-Keeps : (a o c : String) → Keeps (OfDb P) (balance_currency a o c)
  unfolding balance_currency
  balance_currency-Keeps a o c = search tx_rules

  post-Keeps :
      (id account owner dir cur : String) (n at : ℤ)
      → Keeps (OfDb P) (post id account owner dir cur n at)
  unfolding post
  post-Keeps id account owner dir cur n at =
      search (tx_rules, booked, balance_currency-Keeps, update_balance_metrics-Keeps free) depth 20
        fits 2000

  insert_transaction-Keeps : (row : LedgerTransaction) → Keeps (OfDb P) (insert_transaction row)
  unfolding insert_transaction
  insert_transaction-Keeps row = search (tx_rules, booked) depth 20 fits 2000

  pub transfer_currency-Keeps :
      (key reason ref_type ref_id debit debit_id credit credit_id cur : String) (n : ℤ)
      → Keeps
          (OfDb P)
          (transfer_currency key reason ref_type ref_id debit debit_id credit credit_id cur n)
  unfolding transfer_currency
  transfer_currency-Keeps key reason ref_type ref_id debit debit_id credit credit_id cur n =
      search (tx_rules, insert_transaction-Keeps, post-Keeps) depth 20 fits 2000
