-- ===== src/Store/Ingest/Classify.antt =====
-- internal/store/ingest.go: what a message is, before anything is written.
use clearinghouse_batteries.Base.{
  String, Option, none, some, Bool, true, false, not, ◌&&◌, ◌||◌, ◌==◌, if◌then◌else◌, List,
}
use clearinghouse_batteries.Base.Int.{ℤ, pos, ltb_ℤ, leb_ℤ, is_negative}
use clearinghouse_batteries.Base.Lists.{find}
use clearinghouse_batteries.Base.Text.{bytes, to_lower}
use clearinghouse_batteries.Base.Exec.{Result, ok, err, bind_result, is_ok}
use clearinghouse_batteries.Units.{decimal_to_units}
use clearinghouse_batteries.Db.{Db, UsageEvent, PaymentSession, Allocation}
use clearinghouse_batteries.Db.Tx.{Tx, query}
use clearinghouse_batteries.Store.Amount.{amount, amount_of, address, valid_hash}
use clearinghouse_batteries.Store.Manage.Allocations.{has_allocation_id}
use clearinghouse_batteries.Store.Manage.Status.{has_session_id}

pub record Envelope : Type 0 where
  pub id : String
  pub kind : String
  pub payload : String

pub record SignedTicketEvent : Type 0 where
  pub session_id : String
  pub auth_id : String
  pub app : String
  pub pipeline : String
  pub request_id : String
  pub manifest_id : String
  pub orchestrator : String
  pub pm_session_id : String
  pub computed_fee : String
  pub computed_fee_usd : Option String
  pub sequence : ℤ
  pub num_tickets : ℤ
  pub started : ℤ
  pub ended : ℤ
  pub billable_seconds : String
  pub pixels : String

-- `encoding/json`: an envelope that decodes; a ticket as far as it was filled in, and whether it
-- decoded.
pub record Codec : Type 0 where
  pub envelope : String → Option Envelope
  pub ticket : String → SignedTicketEvent × Bool

abbrev pub no_ticket : SignedTicketEvent
no_ticket = record {
  session_id = "";
  auth_id = "";
  app = "";
  pipeline = "";
  request_id = "";
  manifest_id = "";
  orchestrator = "";
  pm_session_id = "";
  computed_fee = "";
  computed_fee_usd = none;
  sequence = pos 0;
  num_tickets = pos 0;
  started = pos 0;
  ended = pos 0;
  billable_seconds = "";
  pixels = "";
}

-- The local variables of `Ingest`: `env.ID`, `status`, `reason`, `eventID`, `ev`, `sessionID`,
-- `allocation`, `currency` and `usdUnits`, of which `feeUSD` is the decimal.
pub record Draft : Type 0 where
  pub envelope_id : String
  pub status : String
  pub reason : String
  pub event_id : Option String
  pub event : SignedTicketEvent
  pub session_id : Option String
  pub allocation : String
  pub currency : String
  pub usd_units : Option ℤ

abbrev start : String → Draft
start envelope_id = record {
  envelope_id = envelope_id;
  status = "applied";
  reason = "";
  event_id = some envelope_id;
  event = no_ticket;
  session_id = none;
  allocation = "";
  currency = "";
  usd_units = none;
}

abbrev pub quarantine : String → Draft → Draft
quarantine reason d = record d { status = "quarantined"; reason = reason }

-- The type of the event, and its ticket.
unfoldable pub read_ticket : Codec → Envelope → Draft
read_ticket codec env =
    if not (env.kind == "create_signed_ticket")
    then record (start env.id) { status = "ignored" }
    else let (ev, decoded) = codec.ticket env.payload in
      if decoded
      then record (start env.id) { event = ev }
      else quarantine "malformed signed-ticket data" (record (start env.id) { event = ev })

-- An event id that is already stored is a duplicate if its payload is the same.
unfoldable pub read_repeated : String → Envelope → UsageEvent → Draft
read_repeated raw env previous =
    if previous.raw_payload == raw
    then record (start env.id) { event_id = none; status = "duplicate" }
    else quarantine "event id reused with different payload"
        (record (start env.id) { event_id = none })

abbrev pub has_event_id : String → UsageEvent → Bool
has_event_id id row = elim row.event_id [ none ↦ false | some e ↦ e == id ]

abbrev is_incomplete : Envelope → Bool
is_incomplete env = env.id == "" || env.kind == "" || env.payload == ""

abbrev malformed : Draft
malformed =
    quarantine "malformed envelope or missing event id/type/data"
      (record (start "") { event_id = none })

abbrev read_known : Codec → String → Envelope → Option UsageEvent → Draft
read_known codec raw env none = read_ticket codec env
read_known codec raw env (some previous) = read_repeated raw env previous

unfoldable pub read_envelope : Codec → String → Option Envelope → Db → Draft
unfolding read_ticket read_repeated
read_envelope codec raw none db = malformed
read_envelope codec raw (some env) db =
    if is_incomplete env
    then malformed
    else read_known codec raw env (find (has_event_id env.id) db.usage_events)

-- `computed_fee_usd`: absent, invalid, or its units.
unfoldable pub usd_fee : Option String → Result (Option ℤ)
usd_fee none = ok none
usd_fee (some text) =
    bind_result (decimal_to_units (bytes text) "USD")
      (λ raw. bind_result (amount_of raw) (λ units. ok (some units)))

abbrev pub usd_part : Result (Option ℤ) → Option ℤ
usd_part (ok units) = units
usd_part (err e) = none

abbrev pub is_missing : Option ℤ → Bool
is_missing none = true
is_missing (some n) = false

abbrev or_empty : Result String → String
or_empty (ok a) = a
or_empty (err e) = ""

unfoldable pub matches_binding : SignedTicketEvent → PaymentSession → Bool
matches_binding ev s =
    ev.session_id == s.state_id
    && ev.app == s.app
    && ev.pipeline == s.payment_type
    && is_ok (address ev.orchestrator)
    && or_empty (address ev.orchestrator) == s.orchestrator

unfoldable pub valid_ticket : SignedTicketEvent → Bool
valid_ticket ev =
    is_ok (amount ev.computed_fee)
    && is_ok (usd_fee ev.computed_fee_usd)
    && not (ltb_ℤ ev.num_tickets (pos 1))
    && not (ltb_ℤ (pos 100) ev.num_tickets)
    && not (ev.request_id == "")
    && valid_hash ev.pm_session_id
    && not (leb_ℤ ev.ended (pos 0))
    && not (is_negative ev.started)

-- `ev.Orchestrator = eventOrch; ev.PMSessionID = strings.ToLower(ev.PMSessionID)`
abbrev pub normalize : SignedTicketEvent → SignedTicketEvent
normalize ev = record ev {
  orchestrator = or_empty (address ev.orchestrator);
  pm_session_id = to_lower ev.pm_session_id;
}

unfoldable pub check_ticket : PaymentSession → String → Draft → Draft
unfolding matches_binding valid_ticket
check_ticket s currency d0 =
    let units = usd_part (usd_fee d0.event.computed_fee_usd) in
    let d = record d0 { allocation = s.allocation_id; currency = currency; usd_units = units } in
    if not (matches_binding d.event s)
    then quarantine "event does not match session binding" d
    else if not (valid_ticket d.event)
    then quarantine "invalid fee, ticket count, request, timestamp, or PM session" d
    else if currency == "usd" && is_missing units
    then quarantine "USD fee unavailable" d
    else record d { session_id = some d.event.auth_id; event = normalize d.event }

-- The session of the ticket, with the currency of its allocation (an inner join).
abbrev pub joined : Option PaymentSession → List Allocation → Option (PaymentSession × String)
joined none allocations = none
joined (some s) allocations = elim (find (has_allocation_id s.allocation_id) allocations) [
  | none ↦ none
  | some a ↦ some (s, a.currency)
]

abbrev pub check_session : Option (PaymentSession × String) → Draft → Draft
check_session none d = quarantine "missing auth_id or unknown payment session" d
check_session (some (s, currency)) d = check_ticket s currency d

unfoldable pub bind_session : Db → Draft → Draft
unfolding check_ticket
bind_session db d =
    if d.status == "applied"
    then check_session (joined (find (has_session_id d.event.auth_id) db.sessions) db.allocations) d
    else d

unfoldable pub classify : Codec → String → Tx Draft
unfolding read_envelope bind_session
classify codec raw = query (λ db. bind_session db (read_envelope codec raw (codec.envelope raw) db))
