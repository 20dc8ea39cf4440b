-- ===== src/Store/Ledger.antt =====
-- internal/store/store.go: balances and `TransferCurrency`, the only posting primitive.
pub mod Sums
pub mod Postings
pub mod Frame
pub mod Sound
pub mod Transfer
pub mod Others
use clearinghouse_batteries.Base.{
  ℕ, String, Option, none, some, Bool, true, false, ◌&&◌, ◌||◌, not, ◌==◌, if◌then◌else◌, List, [],
  ◌∷◌, ◌++◌, ltb,
}
use clearinghouse_batteries.Base.Int.{ℤ, pos, ◌+ℤ◌, ◌-ℤ◌, ◌*ℤ◌, neg, is_zero, is_negative}
use clearinghouse_batteries.Base.Lists.{find, select, update, upsert, any, length}
use clearinghouse_batteries.Base.Exec.{
  failure, constraint, pure, raise, raise_if, when, ◌>>=◌, ◌>>◌,
}
use clearinghouse_batteries.Db.{
  Db, Ledger, Allocation, AccountBalance, LedgerEntry, LedgerTransaction, MetricBalance,
}
use clearinghouse_batteries.Db.Tx.{Tx, fresh_id, now, query, execute}
use clearinghouse_batteries.Store.Summary.{
  on_summary, change_metric_amount, change_metric_count, bool_count,
}

abbrev pub on_ledger : (Ledger → Ledger) → Db → Db
on_ledger f db = record db { ledger = f db.ledger }

unfoldable pub is_account : String → String → String → AccountBalance → Bool
is_account account owner currency row =
    row.account_type == account && row.account_id == owner && row.currency == currency

abbrev pub units_of : Option AccountBalance → ℤ
units_of none = pos 0
units_of (some row) = row.balance_units

-- The balance that a missing row stands for is zero.
unfoldable pub balance_of : String → String → String → List AccountBalance → ℤ
balance_of account owner currency rows = units_of (find (is_account account owner currency) rows)

abbrev pub is_currency : String → Bool
is_currency currency = currency == "usd" || currency == "eth"

unfoldable pub balance_currency : String → String → String → Tx ℤ
balance_currency account owner currency =
    if is_currency currency
    then query (λ db. balance_of account owner currency db.ledger.balances)
    else raise (failure "invalid balance currency")

unfoldable pub balance : String → String → Tx ℤ
balance account owner = balance_currency account owner "eth"

abbrev pub overdraw : ℤ → ℤ
overdraw n = if is_negative n then neg n else pos 0

abbrev is_metric_balance : String → String → String → MetricBalance → Bool
is_metric_balance account source currency row =
    row.account_type == account && row.source_id == source && row.currency == currency

abbrev tracks : String → String → String → MetricBalance → Bool
tracks account owner currency row =
    row.account_type == account && row.account_id == owner && row.currency == currency

-- The row of an overdrawn allocation is set while its balance is below zero, then deleted.
unfoldable pub track_overdraw : String → String → String → ℤ → ℤ → Tx (Unit {0})
track_overdraw account owner currency old next =
    if is_negative next
    then execute (
        on_summary λ s. record s {
          balances =
              upsert (is_metric_balance account owner currency)
                (λ r. record r { balance_units = next })
                (record {
                  account_type = account;
                  account_id = owner;
                  currency = currency;
                  source_id = owner;
                  balance_units = next;
                })
                s.balances;
        })
    else if is_negative old
    then execute (
        on_summary λ s. record s {
          balances = select (λ r. not (is_metric_balance account owner currency r)) s.balances;
        })
    else pure tt

-- The case of `allocation_available` and `allocation_spent`.
unfoldable pub update_allocation_metrics : String → String → String → ℤ → ℤ → Tx (Unit {0})
unfolding track_overdraw
update_allocation_metrics account owner currency old next = do
  eligible ← query (λ db. any (λ a. a.id == owner && a.currency == currency) db.allocations)
  when eligible do
    change_metric_amount account currency (next -ℤ old)
    when (account == "allocation_available") do
      change_metric_amount "allocation_overdraw" currency (overdraw next -ℤ overdraw old)
      change_metric_count "allocations_overdrawn" currency ""
          (bool_count (is_negative next) -ℤ bool_count (is_negative old))
      track_overdraw account owner currency old next

-- `account[len("escrow_"):]`
abbrev escrow_bucket : String → String
escrow_bucket account = if account == "escrow_deposit" then "deposit" else "reserve"

-- The case of `escrow_deposit` and `escrow_reserve`; `tracked` counts the updated rows.
unfoldable pub update_escrow_metrics : String → String → String → ℤ → ℤ → Tx (Unit {0})
update_escrow_metrics account owner currency old next = when (currency == "eth") do
  tracked ← query (λ db. length (select (tracks account owner currency) db.summary.balances))
  execute (
      on_summary λ s. record s {
        balances =
            update (tracks account owner currency) (λ r. record r { balance_units = next })
              s.balances;
      })
  when (ltb 0 tracked) do
    change_metric_amount account currency ((next -ℤ old) *ℤ pos tracked)
    change_metric_count "escrow_unfunded_signers" (escrow_bucket account) ""
        (pos tracked *ℤ (bool_count (is_zero next) -ℤ bool_count (is_zero old)))

unfoldable pub update_balance_metrics : String → String → String → ℤ → ℤ → Tx (Unit {0})
unfolding update_allocation_metrics update_escrow_metrics
update_balance_metrics account owner currency old next =
    if account == "grant_unallocated"
    then change_metric_amount account currency (next -ℤ old)
    else if account == "allocation_available" || account == "allocation_spent"
    then update_allocation_metrics account owner currency old next
    else if account == "escrow_deposit" || account == "escrow_reserve"
    then update_escrow_metrics account owner currency old next
    else pure tt

abbrev pub moved : String → ℤ → ℤ → ℤ
moved dir balance n = if dir == "debit" then balance -ℤ n else balance +ℤ n

abbrev pub add_entry : LedgerEntry → Ledger → Ledger
add_entry e l = record l { entries = l.entries ++ e ∷ [] }

abbrev pub set_balance : String → String → String → ℤ → Ledger → Ledger
set_balance account owner currency value l = record l {
  balances =
      upsert (is_account account owner currency) (λ r. record r { balance_units = value })
        (record {
          account_type = account;
          account_id = owner;
          currency = currency;
          balance_units = value;
        })
        l.balances;
}

-- One entry of a transfer, and its account's new balance.
unfoldable pub post : String → String → String → String → String → ℤ → ℤ → Tx (Unit {0})
post id account owner dir currency n at = do
  entry_id ← fresh_id
  execute (
      on_ledger (
        add_entry (record {
          id = entry_id;
          transaction_id = id;
          account_type = account;
          account_id = owner;
          direction = dir;
          amount_units = n;
          currency = currency;
          created_at_ms = at;
        })))
  old ← balance_currency account owner currency
  let next = moved dir old n
  execute (on_ledger (set_balance account owner currency next))
  update_balance_metrics account owner currency old next

abbrev has_key : String → LedgerTransaction → Bool
has_key key row = row.idempotency_key == key

-- `UNIQUE` on `idempotency_key` refuses a second transaction under one key.
unfoldable pub insert_transaction : LedgerTransaction → Tx (Unit {0})
insert_transaction row = do
  used ← query (λ db. any (has_key row.idempotency_key) db.ledger.transactions)
  raise_if used (constraint "ledger_transactions.idempotency_key")
  execute (on_ledger (λ l. record l { transactions = l.transactions ++ row ∷ [] }))

unfoldable pub transfer_currency :
    String
    → String
    → String
    → String
    → String
    → String
    → String
    → String
    → String
    → ℤ
    → Tx (Unit {0})
unfolding post insert_transaction
transfer_currency key reason ref_type ref_id debit debit_id credit credit_id currency n =
    if not (is_currency currency)
    then raise (failure "invalid transfer currency")
    else if is_negative n
    then raise (failure "negative transfer")
    else if is_zero n
    then pure tt
    else do
      id ← fresh_id
      at ← now
      insert_transaction (record {
        id = id;
        idempotency_key = key;
        reason = reason;
        reference_type = ref_type;
        reference_id = ref_id;
        created_at_ms = at;
      })
      post id debit debit_id "debit" currency n at
      post id credit credit_id "credit" currency n at

unfoldable pub transfer :
    String → String → String → String → String → String → String → String → ℤ → Tx (Unit {0})
unfolding transfer_currency
transfer key reason ref_type ref_id debit debit_id credit credit_id n =
    transfer_currency key reason ref_type ref_id debit debit_id credit credit_id "eth" n
