-- ===== src/Store/Manage/Allocations.antt =====
-- internal/store/manage.go: `createAllocation`, `fundCurrency` and `allocationAmount`.
use clearinghouse_batteries.Base.{
  String, concat, Bool, not, ◌&&◌, ◌==◌, if◌then◌else◌, [], ◌∷◌, ◌++◌,
}
use clearinghouse_batteries.Base.Int.{ℤ, ◌+ℤ◌, ltb_ℤ, is_zero, is_positive}
use clearinghouse_batteries.Base.Lists.{find, update}
use clearinghouse_batteries.Base.Text.{one_of}
use clearinghouse_batteries.Base.Exec.{
  Result, ok, no_rows, invalid_input, state_conflict, failure, pure, raise, lift, or_raise,
  raise_if, ◌>>=◌, ◌>>◌,
}
use clearinghouse_batteries.Db.{Allocation}
use clearinghouse_batteries.Db.Tx.{Tx, fresh_id, now, query, execute}
use clearinghouse_batteries.Store.Amount.{amount, stored_amount}
use clearinghouse_batteries.Store.Summary.{change_inventory}
use clearinghouse_batteries.Store.Ledger.{balance_currency, transfer_currency}
use clearinghouse_batteries.Store.Manage.Grants.{Create, or_default, find_grant, fund_grant}

unfoldable pub allocation_amount : String → ℤ → Result ℤ
allocation_amount value available = if value == "all" then ok available else amount value

abbrev pub has_allocation_id : String → Allocation → Bool
has_allocation_id id a = a.id == id

abbrev pub find_allocation : String → Tx Allocation
find_allocation id =
    query (λ db. find (has_allocation_id id) db.allocations) >>= λ found. or_raise found no_rows

unfoldable pub create_allocation : Create → Tx String
create_allocation p = do
  g ← find_grant p.grant_id
  raise_if (not (p.currency == "") && not (p.currency == g.currency))
      (invalid_input "allocation currency must match grant currency")
  raise_if (g.status == "closed") (state_conflict "grant is closed")
  available ← balance_currency "grant_unallocated" p.grant_id g.currency
  n ← lift (allocation_amount p.amount available)
  raise_if (ltb_ℤ available n) (state_conflict "insufficient unallocated grant balance")
  let wanted = or_default p.status "active"
  raise_if (not (one_of wanted ("active" ∷ "paused" ∷ [])))
      (invalid_input "initial allocation status must be active or paused")
  let status = if wanted == "active" && is_zero n then "exhausted" else wanted
  id ← fresh_id
  at ← now
  execute λ db. record db {
    allocations =
        db.allocations
        ++ record {
          id = id;
          grant_id = p.grant_id;
          name = p.name;
          beneficiary = p.beneficiary;
          allocated_units = n;
          currency = g.currency;
          starts_at_ms = p.starts;
          ends_at_ms = p.ends;
          status = status;
          metadata = p.metadata;
          created_at_ms = at;
        }
          ∷ [];
  }
  change_inventory "allocations" g.currency "" status
  transfer_currency (concat "create:" id) "grant allocation" "allocation" id "grant_unallocated"
      p.grant_id "allocation_available" id g.currency n
  pure id

-- The case of an allocation in `fundCurrency`.
unfoldable pub fund_allocation : String → String → String → Tx (Unit {0})
fund_allocation id value currency = do
  a ← find_allocation id
  raise_if (not (currency == "") && not (currency == a.currency))
      (invalid_input "funding currency must match allocation currency")
  raise_if (a.status == "revoked") (state_conflict "allocation is revoked")
  g ← find_grant a.grant_id
  raise_if (g.status == "closed") (state_conflict "grant is closed")
  available ← balance_currency "grant_unallocated" a.grant_id a.currency
  n ← lift (allocation_amount value available)
  raise_if (is_zero n) (invalid_input "funding must be positive")
  raise_if (ltb_ℤ available n) (state_conflict "insufficient unallocated grant balance")
  old ← lift (stored_amount a.allocated_units)
  fund ← fresh_id
  transfer_currency (concat "fund:" fund) "allocation funding" "allocation" id "grant_unallocated"
      a.grant_id "allocation_available" id a.currency n
  bal ← balance_currency "allocation_available" id a.currency
  let status = if a.status == "exhausted" && is_positive bal then "active" else a.status
  change_inventory "allocations" a.currency a.status status
  execute λ db. record db {
    allocations =
        update (has_allocation_id id)
          (λ r. record r { allocated_units = old +ℤ n; status = status }) db.allocations;
  }

unfoldable pub fund_currency : String → String → String → String → Tx (Unit {0})
unfolding fund_allocation fund_grant
fund_currency kind id value currency =
    if kind == "grant"
    then (do
      n ← lift (amount value)
      raise_if (is_zero n) (invalid_input "funding must be positive")
      fund_grant id n currency)
    else if kind == "allocation"
    then fund_allocation id value currency
    else raise (failure "unknown resource")
