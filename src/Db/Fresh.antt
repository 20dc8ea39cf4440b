-- ===== src/Db/Fresh.antt =====
-- The database that the migrations leave: no row but those of the summary tables
-- (migrations/003_metric_summaries.sql).
use clearinghouse_batteries.Base.{String, [], ◌∷◌}
use clearinghouse_batteries.Base.Int.{pos}
use clearinghouse_batteries.Db.{Db, MetricAmount, MetricCount}

abbrev no_amount : String → String → MetricAmount
no_amount name currency = record { name = name; currency = currency; amount_units = pos 0 }

abbrev no_count : String → String → MetricCount
no_count kind first = record { kind = kind; label1 = first; label2 = ""; value = pos 0 }

abbrev pub fresh_db : Db
fresh_db = record {
  grants = [];
  allocations = [];
  api_keys = [];
  sessions = [];
  usage_events = [];
  authorizations = [];
  ledger = record { transactions = []; entries = []; balances = [] };
  settlements = [];
  snapshots = [];
  broker_events = [];
  checkpoints = [];
  blocks = [];
  idempotency = [];
  summary = record {
    amounts =
        no_amount "grant_unallocated" "eth"
        ∷ no_amount "grant_unallocated" "usd"
        ∷ no_amount "allocation_available" "eth"
        ∷ no_amount "allocation_available" "usd"
        ∷ no_amount "allocation_spent" "eth"
        ∷ no_amount "allocation_spent" "usd"
        ∷ no_amount "allocation_overdraw" "eth"
        ∷ no_amount "allocation_overdraw" "usd"
        ∷ no_amount "settlement_face_value" "eth"
        ∷ no_amount "settlement_paid" "eth"
        ∷ no_amount "settlement_shortfall" "eth"
        ∷ no_amount "escrow_deposit" "eth"
        ∷ no_amount "escrow_reserve" "eth"
        ∷ [];
    counts =
        no_count "settlements_underpaid" ""
        ∷ no_count "allocations_overdrawn" "eth"
        ∷ no_count "allocations_overdrawn" "usd"
        ∷ no_count "escrow_unfunded_signers" "deposit"
        ∷ no_count "escrow_unfunded_signers" "reserve"
        ∷ [];
    balances = [];
  };
  kafka_lag = [];
}
