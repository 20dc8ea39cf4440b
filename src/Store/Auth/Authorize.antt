-- ===== src/Store/Auth/Authorize.antt =====
-- internal/store/auth.go: `Authorize` and `touchAuthorization`.
use clearinghouse_batteries.Base.{
  String, Option, none, some, Bool, true, not, ◌&&◌, ◌||◌, ◌==◌, if◌then◌else◌, [], ◌∷◌, ◌++◌,
}
use clearinghouse_batteries.Base.Int.{ℤ, pos, ◌-ℤ◌, leb_ℤ, eqb_ℤ}
use clearinghouse_batteries.Base.Lists.{any, update}
use clearinghouse_batteries.Base.Exec.{
  Result, ok, err, failure, constraint, pure, raise, lift, raise_if, when, ◌>>=◌, ◌>>◌,
}
use clearinghouse_batteries.Db.{PaymentSession}
use clearinghouse_batteries.Db.Tx.{Tx, fresh_id, now, query, execute, write}
use clearinghouse_batteries.Store.Amount.{address}
use clearinghouse_batteries.Store.Manage.Keys.{sha256}
use clearinghouse_batteries.Store.Manage.Status.{has_key_id, has_session_id}
use clearinghouse_batteries.Store.Auth.Bearer.{Headers, request_key, api_key_id}
use clearinghouse_batteries.Store.Auth.Decide.{
  RemoteState, Decision, decision, Snapshot, has_state, read_authorization, decide,
}

-- The fields `KafkaTopic` and `MaxKafkaLag` (in nanoseconds) of a `Store`.
pub record Settings : Type 0 where
  pub kafka_topic : String
  pub max_kafka_lag : ℤ

abbrev pub is_allowed : Decision → Bool
is_allowed d = eqb_ℤ d.status (pos 200)

abbrev or_empty : Result String → String
or_empty (ok a) = a
or_empty (err e) = ""

-- A decision with the snapshot and the time that it rests on.
pub record Outcome : Type 0 where
  pub decided : Decision
  pub snapshot : Snapshot
  pub at : ℤ

unfoldable pub assess : Settings → RemoteState → String → String → Tx Outcome
assess settings state key hash = do
  snapshot ← query (read_authorization key state.state_id settings.kafka_topic)
  at ← now
  decided ← lift (decide state key hash at settings.max_kafka_lag snapshot)
  pure (record { decided = decided; snapshot = snapshot; at = at })

-- `UNIQUE` on `state_id`, and the foreign key to the API key of the same allocation.
unfoldable pub insert_session : PaymentSession → Tx (Unit {0})
insert_session row = do
  taken ← query (λ db. any (has_state row.state_id) db.sessions)
  raise_if taken (constraint "payment_sessions.state_id")
  execute λ db. record db { sessions = db.sessions ++ row ∷ [] }

unfoldable pub open_session : RemoteState → String → Outcome → Tx Outcome
unfolding insert_session
open_session state key o = do
  id ← fresh_id
  insert_session (record {
    id = id;
    allocation_id = o.snapshot.allocation;
    api_key_id = key;
    state_id = state.state_id;
    app = state.app;
    payment_type = state.kind;
    orchestrator = or_empty (address state.orchestrator_address);
    status = "active";
    created_at_ms = o.at;
    last_seen_at_ms = o.at;
  })
  execute λ db. record db {
    api_keys = update (has_key_id key) (λ r. record r { last_used_at_ms = some o.at }) db.api_keys;
  }
  pure (record o {
    decided = record (o.decided) { auth_id = id };
    snapshot = record (o.snapshot) { last_seen = o.at; last_used = some o.at };
  })

-- The transaction that revalidates, then creates the session if there is still none.
unfoldable pub ensure_session : Settings → RemoteState → String → String → Tx Outcome
unfolding assess open_session
ensure_session settings state key hash = do
  o ← assess settings state key hash
  (if not (is_allowed o.decided) || not (o.decided.auth_id == "")
      then pure o
      else open_session state key o)

abbrev pub minute : ℤ
minute = pos 60_000

abbrev is_stale_use : ℤ → Option ℤ → Bool
is_stale_use cutoff none = true
is_stale_use cutoff (some t) = leb_ℤ t cutoff

unfoldable pub touch_authorization : String → String → ℤ → Tx (Unit {0})
touch_authorization key session at = write do
  execute λ db. record db {
    sessions =
        update (λ r. has_session_id session r && leb_ℤ r.last_seen_at_ms (at -ℤ minute))
          (λ r. record r { last_seen_at_ms = at }) db.sessions;
  }
  execute λ db. record db {
    api_keys =
        update (λ r. has_key_id key r && is_stale_use (at -ℤ minute) r.last_used_at_ms)
          (λ r. record r { last_used_at_ms = some at }) db.api_keys;
  }

-- An error of the touch is logged, not returned.
abbrev pub ignore_error : Tx (Unit {0}) → Tx (Unit {0})
ignore_error m w = (ok tt, (m w).1)

unfoldable pub touch_if_stale : String → Outcome → Tx (Unit {0})
unfolding touch_authorization
touch_if_stale key o =
    when
      (leb_ℤ o.snapshot.last_seen (o.at -ℤ minute)
        || is_stale_use (o.at -ℤ minute) o.snapshot.last_used)
      (ignore_error (touch_authorization key o.decided.auth_id o.at))

unfoldable pub authorize_key : Settings → RemoteState → String → String → Tx Decision
unfolding assess ensure_session touch_if_stale
authorize_key settings state token key = do
  hash ← sha256 token
  first ← assess settings state key hash
  if not (is_allowed first.decided) then pure first.decided else do
    o ←
        (if first.decided.auth_id == ""
          then write (ensure_session settings state key hash)
          else pure first)
    if not (is_allowed o.decided) then pure o.decided else do touch_if_stale key o; pure o.decided

abbrev pub denied : Decision
denied = decision (pos 401) "invalid API key"

abbrev pub authorize_token : Settings → RemoteState → Option String → Tx Decision
authorize_token settings state none = pure denied
authorize_token settings state (some token) = elim (api_key_id token) [
  | none ↦ pure denied
  | some key ↦ authorize_key settings state token key
]

unfoldable pub authorize : Settings → Headers → Option RemoteState → Tx Decision
unfolding authorize_key
authorize settings headers none = raise (failure "signer state is required")
authorize settings headers (some state) =
    if state.state_id == ""
    then raise (failure "signer state is required")
    else authorize_token settings state (request_key headers)
