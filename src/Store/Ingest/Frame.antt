-- ===== src/Store/Ingest/Frame.antt =====
-- internal/store/ingest.go: rules for the steps of `Ingest` and a property of the ledger alone.
use clearinghouse_batteries.Base.{String}
use clearinghouse_batteries.Base.Int.{ℤ}
use clearinghouse_batteries.Base.Exec.Keeps.{Keeps}
use clearinghouse_batteries.Db.{Db, Ledger, UsageEvent}
use clearinghouse_batteries.Db.Tx.Rules.{OfDb, tx_rules}
use clearinghouse_batteries.Store.Summary.{change_metric_count, change_inventory}
use clearinghouse_batteries.Store.Summary.Frame.{change_metric_count-Keeps, change_inventory-Keeps}
use clearinghouse_batteries.Store.Ledger.{balance_currency}
use clearinghouse_batteries.Store.Position.{set_checkpoint}
use clearinghouse_batteries.Store.Rematch.{Bucket, move_bucket, rematch}
use clearinghouse_batteries.Store.Ingest.Charge.{insert_usage, exhaust}

abbrev pub OfLedger : (Ledger → Type 0) → Db → Type 0
OfLedger P d = P d.ledger

module _ (P : Ledger → Type 0) where
  pub metric_count-Frame :
      (k a b : String) (n : ℤ) → Keeps (OfDb (OfLedger P)) (change_metric_count k a b n)
  metric_count-Frame = change_metric_count-Keeps (λ f d h. h)

  inventory-Frame :
      (kind c old next : String) → Keeps (OfDb (OfLedger P)) (change_inventory kind c old next)
  inventory-Frame = change_inventory-Keeps (λ f d h. h)

  pub balance_currency-Frame : (a o c : String) → Keeps (OfDb (OfLedger P)) (balance_currency a o c)
  unfolding balance_currency
  balance_currency-Frame a o c = search tx_rules

  pub set_checkpoint-Frame :
      (source stream : String) (next : ℤ) (hash : String)
      → Keeps (OfDb (OfLedger P)) (set_checkpoint source stream next hash)
  unfolding set_checkpoint
  set_checkpoint-Frame source stream next hash = search tx_rules

  move_bucket-Frame :
      (status : String) (b : Bucket) → Keeps (OfDb (OfLedger P)) (move_bucket status b)
  unfolding move_bucket
  move_bucket-Frame status b = search (tx_rules, metric_count-Frame)

  pub rematch-Frame : (pm orch : String) → Keeps (OfDb (OfLedger P)) (rematch pm orch)
  unfolding rematch
  rematch-Frame pm orch = search (tx_rules, move_bucket-Frame) depth 20 fits 2000

  pub insert_usage-Frame : (row : UsageEvent) → Keeps (OfDb (OfLedger P)) (insert_usage row)
  unfolding insert_usage
  insert_usage-Frame row = search tx_rules depth 20 fits 2000

  pub exhaust-Frame :
      (allocation currency : String) → Keeps (OfDb (OfLedger P)) (exhaust allocation currency)
  unfolding exhaust
  exhaust-Frame allocation currency = search (tx_rules, inventory-Frame) depth 20 fits 2000
