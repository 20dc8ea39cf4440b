-- ===== src/Store/Manage/Status.antt =====
-- internal/store/manage.go: `SetStatus`, `Create`, and the transactions of the management calls.
use clearinghouse_batteries.Base.{
  String, concat, Option, none, some, Bool, not, ◌&&◌, ◌==◌, if◌then◌else◌, [], ◌∷◌,
}
use clearinghouse_batteries.Base.Int.{ℤ, ◌-ℤ◌, is_positive, is_negative}
use clearinghouse_batteries.Base.Lists.{any, update}
use clearinghouse_batteries.Base.Text.{one_of}
use clearinghouse_batteries.Base.Exec.{
  no_rows, invalid_input, state_conflict, constraint, failure, pure, raise, lift, raise_if, ◌>>=◌,
  ◌>>◌,
}
use clearinghouse_batteries.Db.{Allocation, ApiKey, PaymentSession}
use clearinghouse_batteries.Db.Tx.{Tx, now, query, execute, write}
use clearinghouse_batteries.Store.Amount.{stored_amount}
use clearinghouse_batteries.Store.Summary.{change_inventory}
use clearinghouse_batteries.Store.Ledger.{balance_currency, transfer_currency}
use clearinghouse_batteries.Store.Manage.Grants.{
  Create, prepare_create, has_id, find_grant, create_grant,
}
use clearinghouse_batteries.Store.Manage.Allocations.{
  has_allocation_id, find_allocation, create_allocation,
}

unfoldable pub set_grant_status : String → String → Tx (Unit {0})
set_grant_status id status = do
  raise_if (not (one_of status ("draft" ∷ "active" ∷ "paused" ∷ "closed" ∷ [])))
      (invalid_input "invalid grant status")
  g ← find_grant id
  raise_if (g.status == "closed" && not (status == g.status))
      (state_conflict "closed grant cannot be reopened")
  change_inventory "grants" g.currency g.status status
  execute
      λ db. record db { grants = update (has_id id) (λ r. record r { status = status }) db.grants }

-- What a revocation returns to the grant, and the allocated amount that is left.
unfoldable pub return_unused : Allocation → ℤ → Tx ℤ
return_unused a bal = do
  transfer_currency (concat "revoke:" a.id) "return unused allocation" "allocation" a.id
      "allocation_available" a.id "grant_unallocated" a.grant_id a.currency bal
  n ← lift (stored_amount a.allocated_units)
  pure (n -ℤ bal)

-- The column's CHECK refuses an amount with a sign.
unfoldable pub store_status : String → String → ℤ → Tx (Unit {0})
store_status id status allocated = do
  raise_if (is_negative allocated) (constraint "grant_allocations.allocated_units")
  execute λ db. record db {
    allocations =
        update (has_allocation_id id)
          (λ r. record r { status = status; allocated_units = allocated }) db.allocations;
  }

unfoldable pub change_allocation_status : Allocation → String → Tx (Unit {0})
unfolding return_unused store_status
change_allocation_status a status = do
  bal ← balance_currency "allocation_available" a.id a.currency
  raise_if (status == "active" && not (is_positive bal))
      (state_conflict "allocation has no available balance")
  allocated ←
      (if status == "revoked" && is_positive bal
        then return_unused a bal
        else pure a.allocated_units)
  change_inventory "allocations" a.currency a.status status
  store_status a.id status allocated

unfoldable pub set_allocation_status : String → String → Tx (Unit {0})
unfolding change_allocation_status
set_allocation_status id status = do
  raise_if (not (one_of status ("active" ∷ "paused" ∷ "revoked" ∷ [])))
      (invalid_input "invalid allocation status")
  a ← find_allocation id
  (if a.status == "revoked"
      then if status == a.status
        then pure tt
        else raise (state_conflict "revoked allocation cannot be reopened")
      else change_allocation_status a status)

-- `coalesce(revoked_at_ms,?)`
abbrev coalesce : Option ℤ → ℤ → Option ℤ
coalesce none at = some at
coalesce (some t) at = some t

abbrev pub has_key_id : String → ApiKey → Bool
has_key_id id k = k.id == id

abbrev pub has_session_id : String → PaymentSession → Bool
has_session_id id s = s.id == id

unfoldable pub revoke_key : String → Tx (Unit {0})
revoke_key id = do
  at ← now
  found ← query (λ db. any (has_key_id id) db.api_keys)
  raise_if (not found) no_rows
  execute λ db. record db {
    api_keys =
        update (has_key_id id) (λ r. record r { revoked_at_ms = coalesce r.revoked_at_ms at })
          db.api_keys;
  }

unfoldable pub revoke_session : String → Tx (Unit {0})
revoke_session id = do
  found ← query (λ db. any (has_session_id id) db.sessions)
  raise_if (not found) no_rows
  execute λ db. record db {
    sessions = update (has_session_id id) (λ r. record r { status = "revoked" }) db.sessions;
  }

-- The body of `SetStatus`; `api-key` and `session` take no status.
unfoldable pub set_status : String → String → String → Tx (Unit {0})
unfolding set_grant_status set_allocation_status revoke_key revoke_session
set_status kind id status =
    if kind == "grant"
    then set_grant_status id status
    else if kind == "allocation"
    then set_allocation_status id status
    else if kind == "api-key"
    then revoke_key id
    else if kind == "session"
    then revoke_session id
    else raise (failure "unknown resource")

unfoldable pub create : String → Create → Tx String
create kind p = do
  lift (prepare_create p)
  write (
      if kind == "grant"
      then create_grant p
      else if kind == "allocation"
      then create_allocation p
      else raise (failure "unknown resource"))
