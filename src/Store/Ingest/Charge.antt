-- ===== src/Store/Ingest/Charge.antt =====
-- internal/store/ingest.go: the audit record of a message, and the charge of a signed ticket.
use clearinghouse_batteries.Base.{
  String, concat, Option, none, some, Bool, false, not, ◌&&◌, ◌||◌, ◌==◌, if◌then◌else◌, [], ◌∷◌,
  ◌++◌,
}
use clearinghouse_batteries.Base.Int.{ℤ, pos, eqb_ℤ, is_positive}
use clearinghouse_batteries.Base.Lists.{any, update}
use clearinghouse_batteries.Base.Exec.{ok, err, Result, constraint, raise_if, when, ◌>>=◌, ◌>>◌}
use clearinghouse_batteries.Db.{UsageEvent, Allocation}
use clearinghouse_batteries.Db.Tx.{Tx, fresh_id, now, query, execute}
use clearinghouse_batteries.Store.Amount.{amount}
use clearinghouse_batteries.Store.Summary.{change_metric_count, change_inventory}
use clearinghouse_batteries.Store.Ledger.{balance_currency, transfer_currency}
use clearinghouse_batteries.Store.Manage.Allocations.{has_allocation_id}
use clearinghouse_batteries.Store.Rematch.{rematch}
use clearinghouse_batteries.Store.Ingest.Classify.{Draft, has_event_id}

unfoldable pub quarantine_reason : String → String
quarantine_reason detail =
    if detail == ""
    then "none"
    else if detail == "malformed envelope or missing event id/type/data"
    then "envelope"
    else if detail == "event id reused with different payload"
    then "conflicting_id"
    else if detail == "malformed signed-ticket data"
    then "ticket_data"
    else if detail == "missing auth_id or unknown payment session"
    then "unknown_session"
    else if detail == "event does not match session binding"
    then "session_binding"
    else if detail == "invalid fee, ticket count, request, timestamp, or PM session"
    then "invalid_ticket"
    else if detail == "USD fee unavailable"
    then "missing_usd_fee"
    else "other"

abbrev pub at_offset : String → ℤ → ℤ → UsageEvent → Bool
at_offset topic partition offset row =
    row.topic == topic && eqb_ℤ row.partition partition && eqb_ℤ row.offset offset

abbrev same_event_id : Option String → UsageEvent → Bool
same_event_id none row = false
same_event_id (some id) row = has_event_id id row

-- `UNIQUE(topic, partition, offset)` and `UNIQUE` on `event_id`.
unfoldable pub insert_usage : UsageEvent → Tx (Unit {0})
insert_usage row = do
  taken ← query (λ db.
      any (λ r. at_offset row.topic row.partition row.offset r || same_event_id row.event_id r)
        db.usage_events)
  raise_if taken (constraint "usage_events")
  execute λ db. record db { usage_events = db.usage_events ++ row ∷ [] }

-- The fee in the currency of the allocation.
abbrev or_nothing : Result ℤ → ℤ
or_nothing (ok n) = n
or_nothing (err e) = pos 0

abbrev units_or_nothing : Option ℤ → ℤ
units_or_nothing none = pos 0
units_or_nothing (some n) = n

unfoldable pub charge_of : Draft → ℤ
charge_of d =
    if d.currency == "usd"
    then units_or_nothing d.usd_units
    else or_nothing (amount d.event.computed_fee)

abbrev is_active : String → Allocation → Bool
is_active id a = has_allocation_id id a && a.status == "active"

-- `UPDATE … SET status='exhausted' WHERE id=? AND status='active'`, once nothing is left.
unfoldable pub exhaust : String → String → Tx (Unit {0})
exhaust allocation currency = do
  active ← query (λ db. any (is_active allocation) db.allocations)
  execute λ db. record db {
    allocations =
        update (is_active allocation) (λ r. record r { status = "exhausted" }) db.allocations;
  }
  when active (change_inventory "allocations" currency "active" "exhausted")

unfoldable pub charge : String → Draft → Tx (Unit {0})
unfolding exhaust
charge uid d = do
  aid ← fresh_id
  execute λ db. record db {
    authorizations =
        db.authorizations
        ++ record {
          id = aid;
          usage_event_id = uid;
          payment_session_id = d.event.auth_id;
          request_id = d.event.request_id;
          sequence_number = d.event.sequence;
          pm_session_id = d.event.pm_session_id;
          orchestrator = d.event.orchestrator;
          computed_fee_wei = d.event.computed_fee;
          computed_fee_usd = d.usd_units;
          num_tickets = d.event.num_tickets;
          status = "signed";
          signed_at_ms = d.event.ended;
        }
          ∷ [];
  }
  transfer_currency (concat "usage:" d.envelope_id) "signed usage" "signing_authorization" aid
      "allocation_available" d.allocation "allocation_spent" d.allocation d.currency (charge_of d)
  balance ← balance_currency "allocation_available" d.allocation d.currency
  when (not (is_positive balance)) (exhaust d.allocation d.currency)
  rematch d.event.pm_session_id d.event.orchestrator

unfoldable pub usage_row : String → ℤ → String → ℤ → ℤ → String → Draft → UsageEvent
usage_row uid at topic partition offset raw d = record {
  id = uid;
  event_id = d.event_id;
  topic = topic;
  partition = partition;
  offset = offset;
  raw_payload = raw;
  payment_session_id = d.session_id;
  pipeline = d.event.pipeline;
  request_id = d.event.request_id;
  manifest_id = d.event.manifest_id;
  started_at_ms = d.event.started;
  ended_at_ms = d.event.ended;
  billable_seconds = d.event.billable_seconds;
  pixels = d.event.pixels;
  computed_fee_wei = d.event.computed_fee;
  computed_fee_usd = d.usd_units;
  status = d.status;
  error = d.reason;
  created_at_ms = at;
}

unfoldable pub record_usage : String → ℤ → ℤ → String → Draft → Tx (Unit {0})
unfolding insert_usage charge
record_usage topic partition offset raw d = do
  uid ← fresh_id
  at ← now
  insert_usage (usage_row uid at topic partition offset raw d)
  when (d.status == "quarantined")
      (change_metric_count "quarantines" (quarantine_reason d.reason) "" (pos 1))
  when (d.status == "applied") (charge uid d)
