-- ===== src/Store/Summary/Frame.antt =====
-- internal/store/metrics.go: rules for the summary rows and a property of the other tables.
use clearinghouse_batteries.Base.{String}
use clearinghouse_batteries.Base.Int.{ℤ}
use clearinghouse_batteries.Base.Exec.Keeps.{Keeps}
use clearinghouse_batteries.Db.{Db, Summary}
use clearinghouse_batteries.Db.Tx.Rules.{OfDb, tx_rules}
use clearinghouse_batteries.Store.Summary.{
  on_summary, lower_count, raise_count, change_metric_count, change_metric_amount, change_inventory,
}

module _ {P : Db → Type 0}
    (free : (f : Summary → Summary) (d : Db) → P d → P (on_summary f d)) where
  lower_count-Keeps : (k a b : String) (n : ℤ) → Keeps (OfDb P) (lower_count k a b n)
  unfolding lower_count
  lower_count-Keeps k a b n = search (tx_rules, free) depth 20 fits 2000

  raise_count-Keeps : (k a b : String) (n : ℤ) → Keeps (OfDb P) (raise_count k a b n)
  unfolding raise_count
  raise_count-Keeps k a b n = search (tx_rules, free)

  pub change_metric_count-Keeps :
      (k a b : String) (n : ℤ) → Keeps (OfDb P) (change_metric_count k a b n)
  unfolding change_metric_count
  change_metric_count-Keeps k a b n = search (tx_rules, lower_count-Keeps, raise_count-Keeps)

  pub change_metric_amount-Keeps :
      (name c : String) (n : ℤ) → Keeps (OfDb P) (change_metric_amount name c n)
  unfolding change_metric_amount
  change_metric_amount-Keeps name c n = search (tx_rules, free) depth 20 fits 2000

  pub change_inventory-Keeps :
      (kind c old next : String) → Keeps (OfDb P) (change_inventory kind c old next)
  unfolding change_inventory
  change_inventory-Keeps kind c old next = search (tx_rules, change_metric_count-Keeps)
