-- ===== src/Store/Idempotency/Sound.antt =====
-- internal/store/idempotency.go: rules for replayable requests and the soundness of the ledger.
use clearinghouse_batteries.Base.{String, Option, none, some}
use clearinghouse_batteries.Base.Int.{ℤ}
use clearinghouse_batteries.Base.Exec.Keeps.{Keeps}
use clearinghouse_batteries.Db.{IdempotencyRow}
use clearinghouse_batteries.Db.Tx.{Tx}
use clearinghouse_batteries.Db.Tx.Rules.{OfDb, tx_rules}
use clearinghouse_batteries.Db.Tx.Always.{Always, always_rules}
use clearinghouse_batteries.Store.Ledger.Sound.{IsSound}
use clearinghouse_batteries.Store.Manage.Grants.{Create}
use clearinghouse_batteries.Store.Manage.Sound.{
  create_allocation-Sound, fund_currency-Sound, create_key-Sound, create_key_for_grant-Sound,
}
use clearinghouse_batteries.Store.Idempotency.{
  Idempotency, ManagementResponse, Fields, scope_grant, execute_request, replay, store_response,
  run_or_replay, keyed_body, write_idempotent, create_allocation_idempotent,
  fund_currency_idempotent, create_key_idempotent, create_key_for_grant_idempotent,
}

scope_grant-Keeps : (kind id : String) → Keeps (OfDb IsSound) (scope_grant kind id)
unfolding scope_grant
scope_grant-Keeps kind id = search tx_rules depth 20 fits 2000

replay-Keeps :
    (request : Idempotency) (row : IdempotencyRow) → Keeps (OfDb IsSound) (replay request row)
unfolding replay
replay-Keeps request row = search tx_rules

store_response-Keeps :
    (grant : String) (request : Idempotency) (response : ManagementResponse)
    → Keeps (OfDb IsSound) (store_response grant request response)
unfolding store_response
store_response-Keeps grant request response = search tx_rules

module _ (encode : Fields → String) (status : ℤ) (request : Idempotency) (mutate : Tx Fields)
    (sound : Keeps (OfDb IsSound) mutate) where
  execute_request-Keeps : Keeps (OfDb IsSound) (execute_request encode status mutate)
  unfolding execute_request
  execute_request-Keeps = search (tx_rules, sound)

  run_or_replay-Keeps :
      (grant : String) (stored : Option IdempotencyRow)
      → Keeps (OfDb IsSound) (run_or_replay encode status grant request mutate stored)
  run_or_replay-Keeps grant none = search (tx_rules, execute_request-Keeps, store_response-Keeps)
  run_or_replay-Keeps grant (some row) = replay-Keeps request row

  keyed_body-Keeps :
      (kind id : String) → Keeps (OfDb IsSound) (keyed_body encode kind id status request mutate)
  unfolding keyed_body
  keyed_body-Keeps kind id = search (tx_rules, scope_grant-Keeps, run_or_replay-Keeps)

  pub write_idempotent-Sound :
      (kind id : String) → Always IsSound (write_idempotent encode kind id status request mutate)
  unfolding write_idempotent
  write_idempotent-Sound kind id = search (always_rules, execute_request-Keeps, keyed_body-Keeps)

module _ (encode : Fields → String) (request : Idempotency) where
  pub create_allocation_idempotent-Sound :
      (p : Create) → Always IsSound (create_allocation_idempotent encode p request)
  unfolding create_allocation_idempotent
  create_allocation_idempotent-Sound p =
      search (always_rules, tx_rules, write_idempotent-Sound, create_allocation-Sound) depth 20 fits
        2000

  pub fund_currency_idempotent-Sound :
      (kind id value c : String)
      → Always IsSound (fund_currency_idempotent encode kind id value c request)
  unfolding fund_currency_idempotent
  fund_currency_idempotent-Sound kind id value c =
      search (always_rules, tx_rules, write_idempotent-Sound, fund_currency-Sound) depth 20 fits
        2000

  pub create_key_idempotent-Sound :
      (allocation name : String)
      → Always IsSound (create_key_idempotent encode allocation name request)
  unfolding create_key_idempotent
  create_key_idempotent-Sound allocation name =
      search (always_rules, tx_rules, write_idempotent-Sound, create_key-Sound) depth 20 fits 2000

  pub create_key_for_grant_idempotent-Sound :
      (grant name value c : String)
      → Always IsSound (create_key_for_grant_idempotent encode grant name value c request)
  unfolding create_key_for_grant_idempotent
  create_key_for_grant_idempotent-Sound grant name value c =
      search (always_rules, tx_rules, write_idempotent-Sound, create_key_for_grant-Sound) depth 20
        fits 2000
