-- ===== src/Store/Idempotency/Tests.antt =====
-- Tests for internal/store/idempotency.go: an allocation of 400 wei, requested twice.
use clearinghouse_batteries.Base.{String, ◌≡◌, refl, ◌==◌, false, List, [], ◌∷◌}
use clearinghouse_batteries.Base.Int.{ℤ, pos}
use clearinghouse_batteries.Base.Exec.{ok, pure, ◌>>=◌, ◌>>◌}
use clearinghouse_batteries.Base.Exec.Keeps.{Keeps-pure}
use clearinghouse_batteries.Db.{World}
use clearinghouse_batteries.Db.Tx.{Tx}
use clearinghouse_batteries.Fixtures.{test_encode, grant_form, fresh_world}
use clearinghouse_batteries.Store.Manage.Grants.{Create}
use clearinghouse_batteries.Store.Manage.Status.{create}
use clearinghouse_batteries.Store.Idempotency.{
  Fields, Idempotency, ManagementResponse, write_idempotent, create_allocation_idempotent,
}
use clearinghouse_batteries.Store.Idempotency.Replay.{
  write_idempotent-once, create_allocation_idempotent-once,
}

abbrev request : Idempotency
request = record { key = "key-1"; fingerprint = "f" }

abbrev granted : World
granted = (create "grant" grant_form fresh_world).1

abbrev form : Create
form = record grant_form { grant_id = "id-0"; amount = "400"; status = "" }

abbrev response : ManagementResponse
response = record { status = pos 201; body = "idid-6" }

created : (create_allocation_idempotent test_encode form request granted).0 ≡ ok response
unfolding clearinghouse_batteries.Base.Exec.pure clearinghouse_batteries.Base.Exec.raise
    clearinghouse_batteries.Base.Exec.lift clearinghouse_batteries.Base.Exec.gets
    clearinghouse_batteries.Base.Exec.or_raise clearinghouse_batteries.Base.Exec.modify
    clearinghouse_batteries.Base.Exec.raise_if clearinghouse_batteries.Base.Exec.when
    clearinghouse_batteries.Base.Exec.◌>>=◌ clearinghouse_batteries.Base.Exec.for_each
    clearinghouse_batteries.Db.Tx.fresh_id clearinghouse_batteries.Db.Tx.now
    clearinghouse_batteries.Db.Tx.random clearinghouse_batteries.Db.Tx.query
    clearinghouse_batteries.Db.Tx.execute clearinghouse_batteries.Db.Tx.write
    clearinghouse_batteries.Base.Int.◌+ℤ◌ clearinghouse_batteries.Base.Int.◌-ℤ◌
    clearinghouse_batteries.Base.Int.◌*ℤ◌ clearinghouse_batteries.Base.Text.bytes
    clearinghouse_batteries.Base.Text.all_bytes clearinghouse_batteries.Base.Text.decimal_from
    clearinghouse_batteries.Base.Text.decimal_value clearinghouse_batteries.Base.Text.decimal_before
    clearinghouse_batteries.Base.Text.decimal clearinghouse_batteries.Base.Text.sprint
    clearinghouse_batteries.Base.Text.to_lower clearinghouse_batteries.Base.Text.is_blank
    clearinghouse_batteries.Base.Text.one_of clearinghouse_batteries.Store.Amount.amount_of
    clearinghouse_batteries.Store.Amount.amount clearinghouse_batteries.Store.Amount.amount_limit
    clearinghouse_batteries.Store.Amount.stored_amount clearinghouse_batteries.Store.Amount.address
    clearinghouse_batteries.Store.Amount.valid_hash
    clearinghouse_batteries.Store.Summary.lower_count
    clearinghouse_batteries.Store.Summary.raise_count
    clearinghouse_batteries.Store.Summary.change_metric_count
    clearinghouse_batteries.Store.Summary.change_metric_amount
    clearinghouse_batteries.Store.Summary.change_inventory
    clearinghouse_batteries.Store.Ledger.is_account clearinghouse_batteries.Store.Ledger.balance_of
    clearinghouse_batteries.Store.Ledger.balance_currency
    clearinghouse_batteries.Store.Ledger.balance clearinghouse_batteries.Store.Ledger.track_overdraw
    clearinghouse_batteries.Store.Ledger.update_allocation_metrics
    clearinghouse_batteries.Store.Ledger.update_escrow_metrics
    clearinghouse_batteries.Store.Ledger.update_balance_metrics
    clearinghouse_batteries.Store.Ledger.post
    clearinghouse_batteries.Store.Ledger.insert_transaction
    clearinghouse_batteries.Store.Ledger.transfer_currency
    clearinghouse_batteries.Store.Ledger.transfer
    clearinghouse_batteries.Store.Manage.Grants.prepare_create
    clearinghouse_batteries.Store.Manage.Grants.create_grant
    clearinghouse_batteries.Store.Manage.Grants.fund_grant
    clearinghouse_batteries.Store.Manage.Allocations.allocation_amount
    clearinghouse_batteries.Store.Manage.Allocations.create_allocation
    clearinghouse_batteries.Store.Manage.Allocations.fund_allocation
    clearinghouse_batteries.Store.Manage.Allocations.fund_currency
    clearinghouse_batteries.Store.Manage.Status.set_grant_status
    clearinghouse_batteries.Store.Manage.Status.return_unused
    clearinghouse_batteries.Store.Manage.Status.store_status
    clearinghouse_batteries.Store.Manage.Status.change_allocation_status
    clearinghouse_batteries.Store.Manage.Status.set_allocation_status
    clearinghouse_batteries.Store.Manage.Status.revoke_key
    clearinghouse_batteries.Store.Manage.Status.revoke_session
    clearinghouse_batteries.Store.Manage.Status.set_status
    clearinghouse_batteries.Store.Manage.Status.create
    clearinghouse_batteries.Store.Idempotency.validate_idempotency_key
    clearinghouse_batteries.Store.Idempotency.scope_grant
    clearinghouse_batteries.Store.Idempotency.execute_request
    clearinghouse_batteries.Store.Idempotency.replay
    clearinghouse_batteries.Store.Idempotency.store_response
    clearinghouse_batteries.Store.Idempotency.keyed_body
    clearinghouse_batteries.Store.Idempotency.write_idempotent
    clearinghouse_batteries.Store.Idempotency.create_allocation_idempotent
    clearinghouse_batteries.Store.Idempotency.fund_currency_idempotent
    clearinghouse_batteries.Store.Idempotency.create_key_idempotent
    clearinghouse_batteries.Store.Idempotency.create_key_for_grant_idempotent
created = refl

create_allocation_idempotent-once_example :
    create_allocation_idempotent test_encode form request
      (create_allocation_idempotent test_encode form request granted).1
    ≡ (ok response, (create_allocation_idempotent test_encode form request granted).1)
create_allocation_idempotent-once_example =
    create_allocation_idempotent-once test_encode form request granted response refl created

abbrev nothing : Tx Fields
nothing = pure (("id", "1") ∷ [])

abbrev small : ManagementResponse
small = record { status = pos 200; body = "id1" }

ran : (write_idempotent test_encode "grant" "g" (pos 200) request nothing fresh_world).0 ≡ ok small
unfolding write_idempotent ◌>>=◌ clearinghouse_batteries.Store.Idempotency.validate_idempotency_key
    clearinghouse_batteries.Base.Text.bytes clearinghouse_batteries.Base.Text.all_bytes
    clearinghouse_batteries.Db.Tx.write clearinghouse_batteries.Db.Tx.query
    clearinghouse_batteries.Db.Tx.now clearinghouse_batteries.Db.Tx.execute
ran = refl

write_idempotent-once_example :
    write_idempotent test_encode "grant" "g"
      (pos 201)
      request
      nothing
      (write_idempotent test_encode "grant" "g" (pos 200) request nothing fresh_world).1
    ≡ (ok small, (write_idempotent test_encode "grant" "g" (pos 200) request nothing fresh_world).1)
write_idempotent-once_example =
    write_idempotent-once test_encode test_encode "g" (pos 200) (pos 201) request nothing nothing
      (Keeps-pure (("id", "1") ∷ [])) fresh_world small refl ran
