-- ===== src/Store/Calls/Sound.antt =====
-- internal/store: the soundness of the ledger under the calls of a store.
use clearinghouse_batteries.Base.{String, List, [], ◌∷◌}
use clearinghouse_batteries.Base.Int.{ℤ}
use clearinghouse_batteries.Db.{World}
use clearinghouse_batteries.Db.Tx.{write}
use clearinghouse_batteries.Db.Tx.Rules.{tx_rules}
use clearinghouse_batteries.Db.Tx.Always.{Always, always_rules}
use clearinghouse_batteries.Store.Ledger.Sound.{Sound, IsSound}
use clearinghouse_batteries.Store.Manage.Grants.{Create}
use clearinghouse_batteries.Store.Manage.Status.{create, set_status}
use clearinghouse_batteries.Store.Manage.Sound.{
  create_grant-Sound, create_allocation-Sound, fund_currency-Sound, create_key-Sound,
  create_key_for_grant-Sound, set_status-Sound,
}
use clearinghouse_batteries.Store.Idempotency.{Fields}
use clearinghouse_batteries.Store.Idempotency.Sound.{
  create_allocation_idempotent-Sound, fund_currency_idempotent-Sound, create_key_idempotent-Sound,
  create_key_for_grant_idempotent-Sound,
}
use clearinghouse_batteries.Store.Ingest.{ingest}
use clearinghouse_batteries.Store.Ingest.Classify.{Codec}
use clearinghouse_batteries.Store.Ingest.Sound.{ingest_offset-Sound}
use clearinghouse_batteries.Store.Settlements.Events.{Block, EscrowSnapshot, EscrowEvent}
use clearinghouse_batteries.Store.Settlements.Bootstrap.{bootstrap_chain}
use clearinghouse_batteries.Store.Settlements.Apply.{apply_chain}
use clearinghouse_batteries.Store.Settlements.Rewind.{rewind}
use clearinghouse_batteries.Store.Settlements.Sound.{
  bootstrap_body-Sound, apply_batch-Sound, rewind_body-Sound,
}
use clearinghouse_batteries.Store.Auth.Sound.{authorize-Sound, set_kafka_lag-Sound}
use clearinghouse_batteries.Store.Calls.{
  Call, creating, funding, setting_status, creating_key, creating_key_for_grant,
  creating_allocation_once, funding_once, creating_key_once, creating_key_for_grant_once, ingesting,
  authorizing, setting_lag, bootstrapping, applying, rewinding, fund_call, create_key_call,
  create_key_for_grant_call, after_call, after_calls,
}

create-Sound : (kind : String) (p : Create) → Always IsSound (create kind p)
unfolding create
create-Sound kind p =
    search (always_rules, tx_rules, create_grant-Sound, create_allocation-Sound) depth 20 fits 2000

fund_call-Sound : (kind id value c : String) → Always IsSound (fund_call kind id value c)
unfolding fund_call
fund_call-Sound kind id value c = search (always_rules, fund_currency-Sound)

set_status_call-Sound :
    (kind id status : String) → Always IsSound (write (set_status kind id status))
set_status_call-Sound kind id status = search (always_rules, set_status-Sound)

create_key_call-Sound : (a name : String) → Always IsSound (create_key_call a name)
unfolding create_key_call
create_key_call-Sound a name = search (always_rules, create_key-Sound)

create_key_for_grant_call-Sound : (p : Create) → Always IsSound (create_key_for_grant_call p)
unfolding create_key_for_grant_call
create_key_for_grant_call-Sound p = search (always_rules, create_key_for_grant-Sound)

ingest-Sound :
    (codec : Codec) (topic : String) (partition offset : ℤ) (raw : String)
    → Always IsSound (ingest codec topic partition offset raw)
unfolding ingest
ingest-Sound codec topic partition offset raw = search (always_rules, ingest_offset-Sound)

pub bootstrap_chain-Sound :
    (stream : String) (anchor : Block) (snapshots : List EscrowSnapshot)
    → Always IsSound (bootstrap_chain stream anchor snapshots)
unfolding bootstrap_chain
bootstrap_chain-Sound stream anchor snapshots = search (always_rules, bootstrap_body-Sound)

pub apply_chain-Sound :
    (stream : String) (blocks : List Block) (events : List EscrowEvent) (lookback : ℤ)
    → Always IsSound (apply_chain stream blocks events lookback)
unfolding apply_chain
apply_chain-Sound stream [] events lookback = search always_rules
apply_chain-Sound stream (b ∷ bs) events lookback = search (always_rules, apply_batch-Sound)

pub rewind-Sound :
    (stream chain contract : String) (ancestor : Block)
    → Always IsSound (rewind stream chain contract ancestor)
unfolding rewind
rewind-Sound stream chain contract ancestor = search (always_rules, rewind_body-Sound)

module _ (encode : Fields → String) (codec : Codec) where
  pub after_call-Sound :
      (c : Call) (w : World) → Sound w.db.ledger → Sound (after_call encode codec c w).db.ledger
  after_call-Sound (creating kind p) w h = (create-Sound kind p).at w h
  after_call-Sound (funding kind id value currency) w h =
      (fund_call-Sound kind id value currency).at w h
  after_call-Sound (setting_status kind id status) w h =
      (set_status_call-Sound kind id status).at w h
  after_call-Sound (creating_key allocation name) w h =
      (create_key_call-Sound allocation name).at w h
  after_call-Sound (creating_key_for_grant p) w h = (create_key_for_grant_call-Sound p).at w h
  after_call-Sound (creating_allocation_once p request) w h =
      (create_allocation_idempotent-Sound encode request p).at w h
  after_call-Sound (funding_once kind id value currency request) w h =
      (fund_currency_idempotent-Sound encode request kind id value currency).at w h
  after_call-Sound (creating_key_once allocation name request) w h =
      (create_key_idempotent-Sound encode request allocation name).at w h
  after_call-Sound (creating_key_for_grant_once grant name value currency request) w h =
      (create_key_for_grant_idempotent-Sound encode request grant name value currency).at w h
  after_call-Sound (ingesting topic partition offset raw) w h =
      (ingest-Sound codec topic partition offset raw).at w h
  after_call-Sound (authorizing settings headers state) w h =
      (authorize-Sound settings headers state).at w h
  after_call-Sound (setting_lag topic lag) w h = (set_kafka_lag-Sound topic lag).at w h
  after_call-Sound (bootstrapping stream anchor snapshots) w h =
      (bootstrap_chain-Sound stream anchor snapshots).at w h
  after_call-Sound (applying stream blocks events lookback) w h =
      (apply_chain-Sound stream blocks events lookback).at w h
  after_call-Sound (rewinding stream chain contract ancestor) w h =
      (rewind-Sound stream chain contract ancestor).at w h

  -- Any sequence of calls of the store, the failing ones included, takes a sound ledger to a
  -- sound one: every stored balance is the signed sum of its account's entries, the debits and
  -- credits of each transaction agree in each currency, and the balances of a currency sum to zero.
  pub after_calls-Sound :
      (cs : List Call) (w : World)
      → Sound w.db.ledger
      → Sound (after_calls encode codec cs w).db.ledger
  after_calls-Sound [] w h = h
  after_calls-Sound (c ∷ cs) w h =
      after_calls-Sound cs (after_call encode codec c w) (after_call-Sound c w h)
