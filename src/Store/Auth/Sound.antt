-- ===== src/Store/Auth/Sound.antt =====
-- internal/store/auth.go: rules for authorizations and the soundness of the ledger.
use clearinghouse_batteries.Base.{String, Option, none, some}
use clearinghouse_batteries.Base.Int.{ℤ}
use clearinghouse_batteries.Base.Exec.{pure}
use clearinghouse_batteries.Base.Exec.Keeps.{Keeps}
use clearinghouse_batteries.Db.{PaymentSession}
use clearinghouse_batteries.Db.Tx.{Tx}
use clearinghouse_batteries.Db.Tx.Rules.{OfDb, tx_rules}
use clearinghouse_batteries.Db.Tx.Always.{Always, always_rules}
use clearinghouse_batteries.Store.Ledger.Sound.{IsSound}
use clearinghouse_batteries.Store.Manage.Keys.{sha256}
use clearinghouse_batteries.Store.Auth.Bearer.{Headers, api_key_id}
use clearinghouse_batteries.Store.Auth.Lag.{KafkaLag, set_kafka_lag}
use clearinghouse_batteries.Store.Auth.Decide.{RemoteState}
use clearinghouse_batteries.Store.Auth.Authorize.{
  Settings, Outcome, assess, insert_session, open_session, ensure_session, touch_authorization,
  ignore_error, touch_if_stale, authorize_key, authorize_token, authorize, denied,
}

pub set_kafka_lag-Sound : (topic : String) (h : KafkaLag) → Always IsSound (set_kafka_lag topic h)
unfolding set_kafka_lag
set_kafka_lag-Sound topic h = search (always_rules, tx_rules) depth 20 fits 2000

assess-Keeps :
    (s : Settings) (state : RemoteState) (key hash : String)
    → Keeps (OfDb IsSound) (assess s state key hash)
unfolding assess
assess-Keeps s state key hash = search tx_rules depth 20 fits 2000

assess-Sound :
    (s : Settings) (state : RemoteState) (key hash : String)
    → Always IsSound (assess s state key hash)
unfolding assess
assess-Sound s state key hash = search always_rules depth 20 fits 2000

insert_session-Keeps : (row : PaymentSession) → Keeps (OfDb IsSound) (insert_session row)
unfolding insert_session
insert_session-Keeps row = search tx_rules depth 20 fits 2000

open_session-Keeps :
    (state : RemoteState) (key : String) (o : Outcome)
    → Keeps (OfDb IsSound) (open_session state key o)
unfolding open_session
open_session-Keeps state key o = search (tx_rules, insert_session-Keeps) depth 20 fits 2000

ensure_session-Keeps :
    (s : Settings) (state : RemoteState) (key hash : String)
    → Keeps (OfDb IsSound) (ensure_session s state key hash)
unfolding ensure_session
ensure_session-Keeps s state key hash = search (tx_rules, assess-Keeps, open_session-Keeps)

touch-Sound : (key session : String) (at : ℤ) → Always IsSound (touch_authorization key session at)
unfolding touch_authorization
touch-Sound key session at = search (always_rules, tx_rules) depth 20 fits 2000

ignore_error-Sound : (m : Tx (Unit {0})) → Always IsSound m → Always IsSound (ignore_error m)
ignore_error-Sound m k = record { at = k.at }

touch_if_stale-Sound : (key : String) (o : Outcome) → Always IsSound (touch_if_stale key o)
unfolding touch_if_stale
touch_if_stale-Sound key o = search (always_rules, ignore_error-Sound, touch-Sound)

sha256-Sound : (text : String) → Always IsSound (sha256 text)
sha256-Sound text = record { at = λ w h. h }

authorize_key-Sound :
    (s : Settings) (state : RemoteState) (token key : String)
    → Always IsSound (authorize_key s state token key)
unfolding authorize_key
authorize_key-Sound s state token key =
    search (always_rules, sha256-Sound, assess-Sound, ensure_session-Keeps, touch_if_stale-Sound)
      depth 20 fits 2000

authorize_id-Sound :
    (s : Settings) (state : RemoteState) (token : String) (id : Option String)
    → Always IsSound (elim id [ none ↦ pure denied | some key ↦ authorize_key s state token key ])
authorize_id-Sound s state token none = search always_rules
authorize_id-Sound s state token (some key) = authorize_key-Sound s state token key

authorize_token-Sound :
    (s : Settings) (state : RemoteState) (token : Option String)
    → Always IsSound (authorize_token s state token)
authorize_token-Sound s state none = search always_rules
authorize_token-Sound s state (some token) = authorize_id-Sound s state token (api_key_id token)

pub authorize-Sound :
    (s : Settings) (headers : Headers) (state : Option RemoteState)
    → Always IsSound (authorize s headers state)
unfolding authorize
authorize-Sound s headers none = search always_rules
authorize-Sound s headers (some state) = search (always_rules, authorize_token-Sound)
