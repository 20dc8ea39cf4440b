-- ===== src/Store/Ingest/Tests.antt =====
-- Tests for internal/store/ingest.go: a signed ticket of 40 wei on an allocation of 100, delivered twice.
use clearinghouse_batteries.Base.{
  String, ◌≡◌, refl, Option, none, some, List, [], ◌∷◌, true, false, if◌then◌else◌,
}
use clearinghouse_batteries.Base.Int.{ℤ, pos, ◌+ℤ◌, ltb_ℤ}
use clearinghouse_batteries.Base.Exec.{Result, ok, err, failure}
use clearinghouse_batteries.Db.{Db, World, Allocation, AccountBalance, PaymentSession}
use clearinghouse_batteries.Db.Fresh.{fresh_db}
use clearinghouse_batteries.Fixtures.{world_of}
use clearinghouse_batteries.Store.Position.{next_position, kafka_stream}
use clearinghouse_batteries.Store.Ledger.Transfer.{view}
use clearinghouse_batteries.Store.Ingest.{ingest, offset_gap}
use clearinghouse_batteries.Store.Ingest.Classify.{
  Codec, Envelope, SignedTicketEvent, Draft, no_ticket, bind_session, read_envelope,
}
use clearinghouse_batteries.Store.Ingest.Effect.{effect_of, ingest-balances}
use clearinghouse_batteries.Store.Ingest.Order.{Committed}
use clearinghouse_batteries.Store.Ingest.Once.{ingest-Committed, ingest-out_of_order, ingest-once}

abbrev orch : String
orch = "0x00000000000000000000000000000000000000aa"

abbrev pm : String
pm = "0x00000000000000000000000000000000000000000000000000000000000000bb"

abbrev ticket : SignedTicketEvent
ticket = record no_ticket {
  session_id = "state";
  auth_id = "session";
  app = "app";
  pipeline = "lv2v";
  request_id = "request";
  orchestrator = orch;
  pm_session_id = pm;
  computed_fee = "40";
  num_tickets = pos 1;
  started = pos 5;
  ended = pos 9;
}

abbrev ticket_codec : Codec
ticket_codec = record {
  envelope = λ raw. some (record { id = "event"; kind = "create_signed_ticket"; payload = raw });
  ticket = λ payload. (ticket, true);
}

abbrev allocation : Allocation
allocation = record {
  id = "allocation";
  grant_id = "grant";
  name = "a";
  beneficiary = "";
  allocated_units = pos 100;
  currency = "eth";
  starts_at_ms = none;
  ends_at_ms = none;
  status = "active";
  metadata = "";
  created_at_ms = pos 1;
}

abbrev session : PaymentSession
session = record {
  id = "session";
  allocation_id = "allocation";
  api_key_id = "key";
  state_id = "state";
  app = "app";
  payment_type = "lv2v";
  orchestrator = orch;
  status = "active";
  created_at_ms = pos 1;
  last_seen_at_ms = pos 1;
}

abbrev funds : AccountBalance
funds = record {
  account_type = "allocation_available";
  account_id = "allocation";
  currency = "eth";
  balance_units = pos 100;
}

abbrev before : World
before = world_of (record fresh_db {
  allocations = allocation ∷ [];
  sessions = session ∷ [];
  ledger = record (fresh_db.ledger) { balances = funds ∷ [] };
})

abbrev draft : Draft
draft =
    bind_session before.db
      (read_envelope ticket_codec "raw" (ticket_codec.envelope "raw") before.db)

delivered : (ingest ticket_codec "topic" (pos 0) (pos 0) "raw" before).0 ≡ ok (some draft)
unfolding clearinghouse_batteries.Base.Exec.◌>>=◌ clearinghouse_batteries.Base.Exec.pure
    clearinghouse_batteries.Base.Exec.raise clearinghouse_batteries.Base.Exec.raise_if
    clearinghouse_batteries.Base.Exec.or_raise clearinghouse_batteries.Base.Exec.when
    clearinghouse_batteries.Base.Exec.for_each clearinghouse_batteries.Db.Tx.write
    clearinghouse_batteries.Db.Tx.query clearinghouse_batteries.Db.Tx.fresh_id
    clearinghouse_batteries.Db.Tx.now clearinghouse_batteries.Db.Tx.execute
    clearinghouse_batteries.Base.Int.◌+ℤ◌ clearinghouse_batteries.Base.Int.◌-ℤ◌
    clearinghouse_batteries.Base.Text.bytes clearinghouse_batteries.Base.Text.all_bytes
    clearinghouse_batteries.Base.Text.to_lower clearinghouse_batteries.Base.Text.decimal_from
    clearinghouse_batteries.Base.Text.decimal_value clearinghouse_batteries.Store.Amount.address
    clearinghouse_batteries.Store.Amount.amount clearinghouse_batteries.Store.Amount.amount_of
    clearinghouse_batteries.Store.Amount.valid_hash
    clearinghouse_batteries.Store.Position.kafka_stream
    clearinghouse_batteries.Store.Position.set_checkpoint
    clearinghouse_batteries.Store.Position.next_position
    clearinghouse_batteries.Store.Ingest.Classify.classify
    clearinghouse_batteries.Store.Ingest.Classify.bind_session
    clearinghouse_batteries.Store.Ingest.Classify.read_envelope
    clearinghouse_batteries.Store.Ingest.Classify.read_ticket
    clearinghouse_batteries.Store.Ingest.Classify.check_ticket
    clearinghouse_batteries.Store.Ingest.Classify.matches_binding
    clearinghouse_batteries.Store.Ingest.Classify.valid_ticket
    clearinghouse_batteries.Store.Ingest.Classify.usd_fee
    clearinghouse_batteries.Store.Ingest.Charge.record_usage
    clearinghouse_batteries.Store.Ingest.Charge.insert_usage
    clearinghouse_batteries.Store.Ingest.Charge.usage_row
    clearinghouse_batteries.Store.Ingest.Charge.quarantine_reason
    clearinghouse_batteries.Store.Ingest.Charge.charge
    clearinghouse_batteries.Store.Ingest.Charge.charge_of
    clearinghouse_batteries.Store.Ingest.Charge.exhaust
    clearinghouse_batteries.Store.Ledger.transfer_currency
    clearinghouse_batteries.Store.Ledger.insert_transaction
    clearinghouse_batteries.Store.Ledger.post clearinghouse_batteries.Store.Ledger.balance_currency
    clearinghouse_batteries.Store.Ledger.balance_of clearinghouse_batteries.Store.Ledger.is_account
    clearinghouse_batteries.Store.Ledger.update_balance_metrics
    clearinghouse_batteries.Store.Ledger.update_allocation_metrics
    clearinghouse_batteries.Store.Summary.change_metric_amount
    clearinghouse_batteries.Store.Summary.change_metric_count
    clearinghouse_batteries.Store.Summary.change_inventory
    clearinghouse_batteries.Store.Rematch.rematch clearinghouse_batteries.Store.Rematch.move_bucket
    clearinghouse_batteries.Store.Rematch.buckets_where clearinghouse_batteries.Store.Ingest.ingest
    clearinghouse_batteries.Store.Ingest.ingest_offset
    clearinghouse_batteries.Store.Ingest.ingest_next
delivered = refl

ingest-Committed_example :
    Committed "topic"
      (pos 0)
      (pos 0)
      "raw"
      before.db
      draft
      (ingest ticket_codec "topic" (pos 0) (pos 0) "raw" before).1.db
ingest-Committed_example =
    ingest-Committed ticket_codec "topic" (pos 0) (pos 0) "raw" before draft delivered

ingest-once_example :
    ingest ticket_codec "topic"
      (pos 0)
      (pos 0)
      "other"
      (ingest ticket_codec "topic" (pos 0) (pos 0) "raw" before).1
    ≡ (ok none, (ingest ticket_codec "topic" (pos 0) (pos 0) "raw" before).1)
ingest-once_example =
    ingest-once ticket_codec "topic" (pos 0) (pos 0) "raw" "other" before draft delivered

ingest-balances_example :
    view
      (ingest ticket_codec "topic" (pos 0) (pos 0) "raw" before).1.db
      "allocation_available"
      "allocation"
      "eth"
    ≡ effect_of
        (ingest ticket_codec "topic" (pos 0) (pos 0) "raw" before).0
        (view before.db)
        "allocation_available"
        "allocation"
        "eth"
ingest-balances_example =
    ingest-balances ticket_codec "topic" (pos 0) (pos 0) "raw" before "allocation_available"
      "allocation" "eth"

ingest-out_of_order_example : ingest ticket_codec "topic" (pos 0) (pos 3) "raw" before ≡ (
  if ltb_ℤ (pos 3) (next_position "kafka" (kafka_stream "topic" (pos 0)) before.db)
      then ok none
      else err (
          failure (
            offset_gap "topic"
              (pos 0)
              (next_position "kafka" (kafka_stream "topic" (pos 0)) before.db)
              (pos 3))),
  before,
)
unfolding next_position
ingest-out_of_order_example =
    ingest-out_of_order ticket_codec "topic" (pos 0) (pos 3) "raw" before refl refl refl

abbrev unbound : Draft
unbound = read_envelope ticket_codec "raw" (ticket_codec.envelope "raw") before.db
