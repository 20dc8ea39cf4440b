-- ===== src/Store/Auth/Decide.antt =====
-- internal/store/auth.go: the snapshot of an authorization, and the decision on it.
use clearinghouse_batteries.Base.{
  String, Option, none, some, Bool, true, false, not, ◌&&◌, ◌||◌, ◌==◌, if◌then◌else◌, [], ◌∷◌,
}
use clearinghouse_batteries.Base.Int.{ℤ, pos, ltb_ℤ, leb_ℤ, is_positive}
use clearinghouse_batteries.Base.Lists.{find}
use clearinghouse_batteries.Base.Text.{bytes, one_of}
use clearinghouse_batteries.Base.Exec.{Result, ok, err, bind_result}
use clearinghouse_batteries.Units.{decimal_to_units}
use clearinghouse_batteries.Db.{Db, ApiKey, Allocation, Grant, PaymentSession}
use clearinghouse_batteries.Store.Amount.{amount, amount_of, address}
use clearinghouse_batteries.Store.Ledger.{balance_of}
use clearinghouse_batteries.Store.Manage.Grants.{has_id}
use clearinghouse_batteries.Store.Manage.Allocations.{has_allocation_id}
use clearinghouse_batteries.Store.Manage.Status.{has_key_id}
use clearinghouse_batteries.Store.Auth.Lag.{KafkaLag, no_lag, stored_lag, lag_reason}

pub record RemoteState : Type 0 where
  pub state_id : String
  pub pm_session_id : String
  pub orchestrator_address : String
  pub app : String
  pub kind : String
  pub auth_id : String
  pub fee_wei : String
  pub fee_usd : String

pub record Decision : Type 0 where
  pub status : ℤ
  pub reason : String
  pub auth_id : String

abbrev pub decision : ℤ → String → Decision
decision status reason = record { status = status; reason = reason; auth_id = "" }

-- The columns that one SELECT joins; `saved` is `none` when no key has the id.
pub record Snapshot : Type 0 where
  pub saved : Option String
  pub allocation : String
  pub allocation_status : String
  pub grant_status : String
  pub balance : ℤ
  pub revoked : Option ℤ
  pub start : Option ℤ
  pub end : Option ℤ
  pub grant_start : Option ℤ
  pub grant_end : Option ℤ
  pub last_used : Option ℤ
  pub id : String
  pub key : String
  pub app : String
  pub payment_type : String
  pub orchestrator : String
  pub status : String
  pub last_seen : ℤ
  pub currency : String
  pub lag : KafkaLag

abbrev pub no_snapshot : Snapshot
no_snapshot = record {
  saved = none;
  allocation = "";
  allocation_status = "";
  grant_status = "";
  balance = pos 0;
  revoked = none;
  start = none;
  end = none;
  grant_start = none;
  grant_end = none;
  last_used = none;
  id = "";
  key = "";
  app = "";
  payment_type = "";
  orchestrator = "";
  status = "";
  last_seen = pos 0;
  currency = "";
  lag = no_lag;
}

abbrev pub has_state : String → PaymentSession → Bool
has_state state s = s.state_id == state

-- `LEFT JOIN payment_sessions`: the columns of no session are empty.
abbrev with_session : Option PaymentSession → Snapshot → Snapshot
with_session none a = a
with_session (some s) a = record a {
  id = s.id;
  key = s.api_key_id;
  app = s.app;
  payment_type = s.payment_type;
  orchestrator = s.orchestrator;
  status = s.status;
  last_seen = s.last_seen_at_ms;
}

abbrev joined : Db → KafkaLag → ApiKey → Allocation → Grant → Snapshot
joined db lag k a g = record no_snapshot {
  saved = some k.secret_hash;
  allocation = k.allocation_id;
  allocation_status = a.status;
  grant_status = g.status;
  balance = balance_of "allocation_available" a.id a.currency db.ledger.balances;
  revoked = k.revoked_at_ms;
  start = a.starts_at_ms;
  end = a.ends_at_ms;
  grant_start = g.starts_at_ms;
  grant_end = g.ends_at_ms;
  last_used = k.last_used_at_ms;
  currency = a.currency;
  lag = lag;
}

abbrev join_grant : Db → KafkaLag → ApiKey → Allocation → Option Grant → Snapshot
join_grant db lag k a none = no_snapshot
join_grant db lag k a (some g) = joined db lag k a g

abbrev join_allocation : Db → KafkaLag → ApiKey → Option Allocation → Snapshot
join_allocation db lag k none = no_snapshot
join_allocation db lag k (some a) = join_grant db lag k a (find (has_id a.grant_id) db.grants)

abbrev join_key : Db → KafkaLag → Option ApiKey → Snapshot
join_key db lag none = no_snapshot
join_key db lag (some k) =
    join_allocation db lag k (find (has_allocation_id k.allocation_id) db.allocations)

abbrev found : Snapshot → Option PaymentSession → Snapshot
found a s = elim a.saved [ none ↦ a | some hash ↦ with_session s a ]

unfoldable pub read_authorization : String → String → String → Db → Snapshot
read_authorization key state topic db =
    found (join_key db (stored_lag topic db) (find (has_key_id key) db.api_keys))
      (find (has_state state) db.sessions)

abbrev after_start : ℤ → Option ℤ → Bool
after_start now none = true
after_start now (some t) = leb_ℤ t now

abbrev before_end : ℤ → Option ℤ → Bool
before_end now none = true
before_end now (some t) = ltb_ℤ now t

unfoldable pub in_window : ℤ → Option ℤ → Option ℤ → Bool
in_window now start end = after_start now start && before_end now end

-- `subtle.ConstantTimeCompare(hash[:], a.saved) == 1 && !a.revoked.Valid`
abbrev pub is_authentic : String → Snapshot → Bool
is_authentic hash a = elim a.saved [
  | none ↦ false
  | some saved ↦ hash == saved && (elim a.revoked [ none ↦ true | some t ↦ false ])
]

unfoldable pub is_live : ℤ → Snapshot → Bool
unfolding in_window
is_live now a =
    a.grant_status == "active"
    && one_of a.allocation_status ("active" ∷ "exhausted" ∷ [])
    && in_window now a.start a.end
    && in_window now a.grant_start a.grant_end

-- The fee in the currency of the allocation; a USD fee that is no decimal has its own reason.
unfoldable pub fee_of : RemoteState → String → Result (Result ℤ)
fee_of state currency =
    if currency == "usd"
    then bind_result (decimal_to_units (bytes state.fee_usd) "USD") (λ units. ok (amount_of units))
    else ok (amount state.fee_wei)

-- The session of the snapshot is the one that the request names.
unfoldable pub is_bound : RemoteState → String → String → Snapshot → Bool
is_bound state key orch a =
    a.key == key
    && a.app == state.app
    && a.payment_type == state.kind
    && a.orchestrator == orch
    && a.status == "active"
    && (state.auth_id == "" || state.auth_id == a.id)

unfoldable pub decide_lag : ℤ → ℤ → Snapshot → Decision
decide_lag now max_age a =
    if lag_reason a.lag now max_age == ""
    then record (decision (pos 200) "") { auth_id = a.id }
    else decision (pos 503) (lag_reason a.lag now max_age)

unfoldable pub decide_session : RemoteState → String → String → ℤ → ℤ → Snapshot → Decision
unfolding is_bound decide_lag
decide_session state key orch now max_age a =
    if a.id == ""
    then if state.auth_id == ""
      then decide_lag now max_age a
      else decision (pos 403) "unknown auth_id"
    else if is_bound state key orch a
    then decide_lag now max_age a
    else decision (pos 403) "session is revoked or binding does not match"

abbrev pub decide_orchestrator :
    RemoteState → String → ℤ → ℤ → Snapshot → Result String → Result Decision
decide_orchestrator state key now max_age a (ok orch) =
    ok (decide_session state key orch now max_age a)
decide_orchestrator state key now max_age a (err e) = err e

abbrev pub decide_fee :
    RemoteState → String → ℤ → ℤ → Snapshot → Result (Result ℤ) → Result Decision
decide_fee state key now max_age a (err e) = ok (decision (pos 400) "invalid USD payment fee")
decide_fee state key now max_age a (ok (err e)) = ok (decision (pos 400) "invalid payment fee")
decide_fee state key now max_age a (ok (ok fee)) =
    if ltb_ℤ a.balance fee
    then ok (decision (pos 402) "insufficient allocation balance")
    else decide_orchestrator state key now max_age a (address state.orchestrator_address)

unfoldable pub decide : RemoteState → String → String → ℤ → ℤ → Snapshot → Result Decision
unfolding is_live fee_of decide_session
decide state key hash now max_age a =
    if not (is_authentic hash a)
    then ok (decision (pos 401) "invalid API key")
    else if not (is_live now a)
    then ok (decision (pos 403) "grant or allocation is inactive")
    else if a.allocation_status == "exhausted" || not (is_positive a.balance)
    then ok (decision (pos 402) "allocation exhausted")
    else decide_fee state key now max_age a (fee_of state a.currency)
