-- ===== src/Db/Rows.antt =====
-- The rows of the tables that migrations/001_initial.sql to 004_kafka_lag.sql create. A nullable
-- column is an `Option`; the column `seq` is the place of a row in its table.
use clearinghouse_batteries.Base.{String, Option}
use clearinghouse_batteries.Base.Int.{ℤ}
use mathlib.Core.Bool.{Bool}

pub record Grant : Type 0 where
  pub id : String
  pub name : String
  pub sponsor : String
  pub total_units : ℤ
  pub currency : String
  pub starts_at_ms : Option ℤ
  pub ends_at_ms : Option ℤ
  pub status : String
  pub metadata : String
  pub created_at_ms : ℤ

pub record Allocation : Type 0 where
  pub id : String
  pub grant_id : String
  pub name : String
  pub beneficiary : String
  pub allocated_units : ℤ
  pub currency : String
  pub starts_at_ms : Option ℤ
  pub ends_at_ms : Option ℤ
  pub status : String
  pub metadata : String
  pub created_at_ms : ℤ

pub record ApiKey : Type 0 where
  pub id : String
  pub allocation_id : String
  pub name : String
  pub prefix : String
  pub secret_hash : String
  pub created_at_ms : ℤ
  pub last_used_at_ms : Option ℤ
  pub revoked_at_ms : Option ℤ

pub record PaymentSession : Type 0 where
  pub id : String
  pub allocation_id : String
  pub api_key_id : String
  pub state_id : String
  pub app : String
  pub payment_type : String
  pub orchestrator : String
  pub status : String
  pub created_at_ms : ℤ
  pub last_seen_at_ms : ℤ

pub record UsageEvent : Type 0 where
  pub id : String
  pub event_id : Option String
  pub topic : String
  pub partition : ℤ
  pub offset : ℤ
  pub raw_payload : String
  pub payment_session_id : Option String
  pub pipeline : String
  pub request_id : String
  pub manifest_id : String
  pub started_at_ms : ℤ
  pub ended_at_ms : ℤ
  pub billable_seconds : String
  pub pixels : String
  pub computed_fee_wei : String
  pub computed_fee_usd : Option ℤ
  pub status : String
  pub error : String
  pub created_at_ms : ℤ

pub record SigningAuthorization : Type 0 where
  pub id : String
  pub usage_event_id : String
  pub payment_session_id : String
  pub request_id : String
  pub sequence_number : ℤ
  pub pm_session_id : String
  pub orchestrator : String
  pub computed_fee_wei : String
  pub computed_fee_usd : Option ℤ
  pub num_tickets : ℤ
  pub status : String
  pub signed_at_ms : ℤ

pub record LedgerTransaction : Type 0 where
  pub id : String
  pub idempotency_key : String
  pub reason : String
  pub reference_type : String
  pub reference_id : String
  pub created_at_ms : ℤ

pub record LedgerEntry : Type 0 where
  pub id : String
  pub transaction_id : String
  pub account_type : String
  pub account_id : String
  pub direction : String
  pub amount_units : ℤ
  pub currency : String
  pub created_at_ms : ℤ

pub record AccountBalance : Type 0 where
  pub account_type : String
  pub account_id : String
  pub currency : String
  pub balance_units : ℤ

pub record SettlementRow : Type 0 where
  pub id : String
  pub chain_id : String
  pub contract_address : String
  pub tx_hash : String
  pub log_index : ℤ
  pub block_number : ℤ
  pub block_hash : String
  pub sender : String
  pub recipient : String
  pub face_value_wei : String
  pub paid_amount_wei : String
  pub deposit_paid_wei : String
  pub reserve_paid_wei : String
  pub win_probability : String
  pub sender_nonce : String
  pub recipient_rand : String
  pub pm_session_id : String
  pub aux_data : String
  pub payment_session_id : Option String
  pub match_status : String
  pub status : String
  pub generation : ℤ
  pub created_at_ms : ℤ
  pub settled_at_ms : ℤ

pub record SnapshotRow : Type 0 where
  pub id : String
  pub stream : String
  pub chain_id : String
  pub contract_address : String
  pub sender : String
  pub block_number : ℤ
  pub block_hash : String
  pub deposit_wei : ℤ
  pub reserve_wei : ℤ
  pub created_at_ms : ℤ

pub record BrokerEvent : Type 0 where
  pub id : String
  pub chain_id : String
  pub contract_address : String
  pub tx_hash : String
  pub log_index : ℤ
  pub block_number : ℤ
  pub block_hash : String
  pub event_type : String
  pub sender : String
  pub recipient : Option String
  pub amount_wei : String
  pub deposit_amount_wei : String
  pub reserve_amount_wei : String
  pub status : String
  pub generation : ℤ
  pub created_at_ms : ℤ
  pub occurred_at_ms : ℤ

pub record Checkpoint : Type 0 where
  pub source : String
  pub stream : String
  pub next_position : ℤ
  pub block_hash : String

pub record ChainBlock : Type 0 where
  pub stream : String
  pub number : ℤ
  pub hash : String

-- The stored response: its HTTP status and its JSON body.
pub record IdempotencyRow : Type 0 where
  pub grant_id : String
  pub idempotency_key : String
  pub fingerprint : String
  pub response_status : ℤ
  pub response_json : String
  pub created_at_ms : ℤ

pub record MetricAmount : Type 0 where
  pub name : String
  pub currency : String
  pub amount_units : ℤ

pub record MetricCount : Type 0 where
  pub kind : String
  pub label1 : String
  pub label2 : String
  pub value : ℤ

pub record MetricBalance : Type 0 where
  pub account_type : String
  pub account_id : String
  pub currency : String
  pub source_id : String
  pub balance_units : ℤ

pub record LagRow : Type 0 where
  pub topic : String
  pub checked_at_ms : ℤ
  pub covered_through_ms : ℤ
  pub available : Bool
