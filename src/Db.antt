-- ===== src/Db.antt =====
-- The SQLite database of migrations/*.sql as tables of rows in order of insertion, and the
-- transactions of internal/store/store.go. A decimal text column that a CHECK keeps canonical is
-- the number that it prints; identifiers, hashes and status words are the texts themselves.
mod Rows
pub mod Tx
pub mod Fresh
pub use Rows.*
use clearinghouse_batteries.Base.{ℕ, String, List, Option}
use clearinghouse_batteries.Base.Int.{ℤ}

-- The double-entry ledger: `ledger_transactions`, `ledger_entries`, `account_balances`.
pub record Ledger : Type 0 where
  pub transactions : List LedgerTransaction
  pub entries : List LedgerEntry
  pub balances : List AccountBalance

-- The summary tables of 003_metric_summaries.sql.
pub record Summary : Type 0 where
  pub amounts : List MetricAmount
  pub counts : List MetricCount
  pub balances : List MetricBalance

pub record Db : Type 0 where
  pub grants : List Grant
  pub allocations : List Allocation
  pub api_keys : List ApiKey
  pub sessions : List PaymentSession
  pub usage_events : List UsageEvent
  pub authorizations : List SigningAuthorization
  pub ledger : Ledger
  pub settlements : List SettlementRow
  pub snapshots : List SnapshotRow
  pub broker_events : List BrokerEvent
  pub checkpoints : List Checkpoint
  pub blocks : List ChainBlock
  pub idempotency : List IdempotencyRow
  pub summary : Summary
  pub kafka_lag : List LagRow

-- What the operating system and foreign packages supply: UUIDv7 texts, the wall clock in Unix
-- milliseconds, the random part of an API key (`none` if `rand.Read` fails), and SHA-256.
pub record Env : Type 0 where
  pub uuid : ℕ → String
  pub clock : ℕ → ℤ
  pub secret : ℕ → Option String
  pub sha256 : String → String

-- `draws` counts the values taken from the environment; a rollback does not give them back.
pub record World : Type 0 where
  pub env : Env
  pub draws : ℕ
  pub db : Db
