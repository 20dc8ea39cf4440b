-- ===== src/Store/Calls.antt =====
-- internal/store: the calls of a `Store` that write, and a run of them. SQLite admits one writer
-- at a time; a run takes each call as a whole, and `Authorize`, which may write twice, too.
pub mod Sound
pub mod Tests
use clearinghouse_batteries.Base.{String, Option, List, [], ◌∷◌}
use clearinghouse_batteries.Base.Int.{ℤ}
use clearinghouse_batteries.Base.Text.{is_blank}
use clearinghouse_batteries.Base.Exec.{invalid_input, lift, raise_if, ◌>>=◌, ◌>>◌}
use clearinghouse_batteries.Db.{World}
use clearinghouse_batteries.Db.Tx.{Tx, write}
use clearinghouse_batteries.Store.Manage.Grants.{Create, prepare_create}
use clearinghouse_batteries.Store.Manage.Allocations.{fund_currency}
use clearinghouse_batteries.Store.Manage.Keys.{create_key, create_key_for_grant}
use clearinghouse_batteries.Store.Manage.Status.{create, set_status}
use clearinghouse_batteries.Store.Idempotency.{
  Fields, Idempotency, create_allocation_idempotent, fund_currency_idempotent,
  create_key_idempotent, create_key_for_grant_idempotent,
}
use clearinghouse_batteries.Store.Ingest.{ingest}
use clearinghouse_batteries.Store.Ingest.Classify.{Codec}
use clearinghouse_batteries.Store.Settlements.Events.{Block, EscrowSnapshot, EscrowEvent}
use clearinghouse_batteries.Store.Settlements.Bootstrap.{bootstrap_chain}
use clearinghouse_batteries.Store.Settlements.Apply.{apply_chain}
use clearinghouse_batteries.Store.Settlements.Rewind.{rewind}
use clearinghouse_batteries.Store.Auth.Bearer.{Headers}
use clearinghouse_batteries.Store.Auth.Decide.{RemoteState}
use clearinghouse_batteries.Store.Auth.Lag.{KafkaLag, set_kafka_lag}
use clearinghouse_batteries.Store.Auth.Authorize.{Settings, authorize}

pub data Call : Type 0 where
  creating : String → Create → Call
  funding : String → String → String → String → Call
  setting_status : String → String → String → Call
  creating_key : String → String → Call
  creating_key_for_grant : Create → Call
  creating_allocation_once : Create → Idempotency → Call
  funding_once : String → String → String → String → Idempotency → Call
  creating_key_once : String → String → Idempotency → Call
  creating_key_for_grant_once : String → String → String → String → Idempotency → Call
  ingesting : String → ℤ → ℤ → String → Call
  authorizing : Settings → Headers → Option RemoteState → Call
  setting_lag : String → KafkaLag → Call
  bootstrapping : String → Block → List EscrowSnapshot → Call
  applying : String → List Block → List EscrowEvent → ℤ → Call
  rewinding : String → String → String → Block → Call

-- `FundCurrency`, `CreateKey` and `CreateKeyForGrantCurrency` with their transactions.
unfoldable pub fund_call : String → String → String → String → Tx (Unit {0})
fund_call kind id value currency = write (fund_currency kind id value currency)

unfoldable pub create_key_call : String → String → Tx (String × String)
create_key_call allocation name = do
  raise_if (is_blank name) (invalid_input "name is required")
  write (create_key allocation name)

unfoldable pub create_key_for_grant_call : Create → Tx (String × String × String)
create_key_for_grant_call p = do lift (prepare_create p); write (create_key_for_grant p)

-- The world after a call; its result, an error included, goes to the caller alone.
module _ (encode : Fields → String) (codec : Codec) where
  abbrev pub after_call : Call → World → World
  after_call (creating kind p) w = (create kind p w).1
  after_call (funding kind id value currency) w = (fund_call kind id value currency w).1
  after_call (setting_status kind id status) w = (write (set_status kind id status) w).1
  after_call (creating_key allocation name) w = (create_key_call allocation name w).1
  after_call (creating_key_for_grant p) w = (create_key_for_grant_call p w).1
  after_call (creating_allocation_once p request) w =
      (create_allocation_idempotent encode p request w).1
  after_call (funding_once kind id value currency request) w =
      (fund_currency_idempotent encode kind id value currency request w).1
  after_call (creating_key_once allocation name request) w =
      (create_key_idempotent encode allocation name request w).1
  after_call (creating_key_for_grant_once grant name value currency request) w =
      (create_key_for_grant_idempotent encode grant name value currency request w).1
  after_call (ingesting topic partition offset raw) w =
      (ingest codec topic partition offset raw w).1
  after_call (authorizing settings headers state) w = (authorize settings headers state w).1
  after_call (setting_lag topic lag) w = (set_kafka_lag topic lag w).1
  after_call (bootstrapping stream anchor snapshots) w =
      (bootstrap_chain stream anchor snapshots w).1
  after_call (applying stream blocks events lookback) w =
      (apply_chain stream blocks events lookback w).1
  after_call (rewinding stream chain contract ancestor) w =
      (rewind stream chain contract ancestor w).1

  abbrev pub after_calls : List Call → World → World
  after_calls [] w = w
  after_calls (c ∷ cs) w = after_calls cs (after_call c w)
