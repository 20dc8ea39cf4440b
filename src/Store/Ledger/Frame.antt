-- ===== src/Store/Ledger/Frame.antt =====
-- internal/store/store.go: rules for `updateBalanceMetrics` and a property of the other tables.
use clearinghouse_batteries.Base.{String}
use clearinghouse_batteries.Base.Int.{ℤ}
use clearinghouse_batteries.Base.Exec.Keeps.{Keeps}
use clearinghouse_batteries.Db.{Db, Summary}
use clearinghouse_batteries.Db.Tx.Rules.{OfDb, tx_rules}
use clearinghouse_batteries.Store.Summary.{on_summary}
use clearinghouse_batteries.Store.Summary.Frame.{
  change_metric_count-Keeps, change_metric_amount-Keeps,
}
use clearinghouse_batteries.Store.Ledger.{
  track_overdraw, update_allocation_metrics, update_escrow_metrics, update_balance_metrics,
}

module _ {P : Db → Type 0}
    (free : (f : Summary → Summary) (d : Db) → P d → P (on_summary f d)) where
  track_overdraw-Keeps :
      (a o c : String) (old next : ℤ) → Keeps (OfDb P) (track_overdraw a o c old next)
  unfolding track_overdraw
  track_overdraw-Keeps a o c old next = search (tx_rules, free)

  update_allocation_metrics-Keeps :
      (a o c : String) (old next : ℤ) → Keeps (OfDb P) (update_allocation_metrics a o c old next)
  unfolding update_allocation_metrics
  update_allocation_metrics-Keeps a o c old next =
      search
        (
          tx_rules,
          track_overdraw-Keeps,
          change_metric_count-Keeps free,
          change_metric_amount-Keeps free,
        )
        depth 20 fits 2000

  update_escrow_metrics-Keeps :
      (a o c : String) (old next : ℤ) → Keeps (OfDb P) (update_escrow_metrics a o c old next)
  unfolding update_escrow_metrics
  update_escrow_metrics-Keeps a o c old next =
      search (tx_rules, free, change_metric_count-Keeps free, change_metric_amount-Keeps free) depth
        20 fits 2000

  pub update_balance_metrics-Keeps :
      (a o c : String) (old next : ℤ) → Keeps (OfDb P) (update_balance_metrics a o c old next)
  unfolding update_balance_metrics
  update_balance_metrics-Keeps a o c old next = search (
    tx_rules,
    update_allocation_metrics-Keeps,
    update_escrow_metrics-Keeps,
    change_metric_amount-Keeps free,
  )
