-- ===== src/Store/Settlements/Rewind.antt =====
-- internal/store/settlements.go: `Rewind`, which reverses the postings above a common ancestor.
use clearinghouse_batteries.Base.{
  String, concat, Option, none, some, Bool, not, ◌&&◌, ◌||◌, ◌==◌, if◌then◌else◌, List, [], ◌∷◌,
}
use clearinghouse_batteries.Base.Int.{ℤ, pos, ◌+ℤ◌, eqb_ℤ, ltb_ℤ, min_ℤ}
use clearinghouse_batteries.Base.Lists.{update, select}
use clearinghouse_batteries.Base.Exec.{
  Error, failure, pure, lift, raise_if, or_raise, for_each, ◌>>=◌, ◌>>◌,
}
use clearinghouse_batteries.Db.{SettlementRow, BrokerEvent, SnapshotRow}
use clearinghouse_batteries.Db.Tx.{Tx, query, execute, write}
use clearinghouse_batteries.Store.Amount.{amount}
use clearinghouse_batteries.Store.Ledger.{transfer}
use clearinghouse_batteries.Store.Position.{set_checkpoint}
use clearinghouse_batteries.Store.Settlements.Events.{
  Block, treasury_owner, escrow_owner, deposit_funded, reserve_funded, withdrawal,
}
use clearinghouse_batteries.Store.Settlements.Settle.{
  update_settlement_metrics, posting_key, has_settlement_id,
}
use clearinghouse_batteries.Store.Settlements.Apply.{has_event_row}

-- `SELECT min(block_number) FROM escrow_snapshots WHERE stream=?`; no row gives NULL, which does
-- not scan into an integer.
abbrev lower_of : ℤ → Option ℤ → Option ℤ
lower_of n none = some n
lower_of n (some m) = some (min_ℤ n m)

unfoldable pub opening_block : String → List SnapshotRow → Option ℤ
opening_block stream [] = none
opening_block stream (s ∷ rest) =
    if s.stream == stream
    then lower_of s.block_number (opening_block stream rest)
    else opening_block stream rest

-- `ORDER BY block_number DESC,log_index DESC`
abbrev pub comes_first : ℤ → ℤ → ℤ → ℤ → Bool
comes_first block log block' log' = ltb_ℤ block' block || eqb_ℤ block block' && ltb_ℤ log' log

abbrev pub not_after_row : {A : Type 0} → (A → ℤ) → (A → ℤ) → A → A → Bool
not_after_row block log x y = not (comes_first (block y) (log y) (block x) (log x))

unfoldable pub insert_row : {A : Type 0} → (A → ℤ) → (A → ℤ) → A → List A → List A
insert_row block log x [] = x ∷ []
insert_row block log x (y ∷ ys) =
    if not_after_row block log x y then x ∷ y ∷ ys else y ∷ insert_row block log x ys

unfoldable pub newest_first : {A : Type 0} → (A → ℤ) → (A → ℤ) → List A → List A
unfolding insert_row
newest_first block log [] = []
newest_first block log (x ∷ xs) = insert_row block log x (newest_first block log xs)

abbrev pub is_settled_above : String → String → ℤ → SettlementRow → Bool
is_settled_above chain contract number row =
    row.chain_id == chain
    && row.contract_address == contract
    && row.status == "settled"
    && ltb_ℤ number row.block_number

abbrev pub is_canonical_above : String → String → ℤ → BrokerEvent → Bool
is_canonical_above chain contract number row =
    row.chain_id == chain
    && row.contract_address == contract
    && row.status == "canonical"
    && ltb_ℤ number row.block_number

unfoldable pub reverse_settlement : String → String → SettlementRow → Tx (Unit {0})
reverse_settlement chain contract reversal = do
  deposit ← lift (amount reversal.deposit_paid_wei)
  reserve ← lift (amount reversal.reserve_paid_wei)
  let escrow = escrow_owner chain contract reversal.sender
  let spend = treasury_owner chain reversal.sender
  let key = posting_key "orphan:settle:" reversal.id reversal.generation
  transfer (concat key ":deposit") "orphaned deposit payment reversal" "settlement" reversal.id
      "treasury_settled_spend" spend "escrow_deposit" escrow deposit
  transfer (concat key ":reserve") "orphaned reserve payment reversal" "settlement" reversal.id
      "treasury_settled_spend" spend "escrow_reserve" escrow reserve
  face ← lift (amount reversal.face_value_wei)
  paid ← lift (amount reversal.paid_amount_wei)
  update_settlement_metrics "settled" "orphaned" reversal.match_status face paid
  execute λ db. record db {
    settlements =
        update (has_settlement_id reversal.id) (λ r. record r { status = "orphaned" })
          db.settlements;
  }

unfoldable pub reverse_funding : String → BrokerEvent → String → String → String → Tx (Unit {0})
reverse_funding key reversal account escrow treasury = do
  n ← lift (amount reversal.amount_wei)
  transfer key "orphaned funding reversal" "escrow_event" reversal.id account escrow "treasury_cash"
      treasury n

unfoldable pub reverse_withdrawal : String → BrokerEvent → String → String → Tx (Unit {0})
reverse_withdrawal key reversal escrow treasury = do
  deposit ← lift (amount reversal.deposit_amount_wei)
  reserve ← lift (amount reversal.reserve_amount_wei)
  transfer (concat key ":deposit") "orphaned deposit withdrawal reversal" "escrow_event" reversal.id
      "treasury_cash" treasury "escrow_deposit" escrow deposit
  transfer (concat key ":reserve") "orphaned reserve withdrawal reversal" "escrow_event" reversal.id
      "treasury_cash" treasury "escrow_reserve" escrow reserve

-- The postings of an event, reversed by its type.
unfoldable pub reverse_postings : String → String → BrokerEvent → Tx (Unit {0})
unfolding reverse_funding reverse_withdrawal
reverse_postings chain contract reversal =
    let treasury = treasury_owner chain reversal.sender in
    let escrow = escrow_owner chain contract reversal.sender in
    let key = posting_key "orphan:event:" reversal.id reversal.generation in
    if reversal.event_type == deposit_funded
    then reverse_funding key reversal "escrow_deposit" escrow treasury
    else if reversal.event_type == reserve_funded
    then reverse_funding key reversal "escrow_reserve" escrow treasury
    else if reversal.event_type == withdrawal
    then reverse_withdrawal key reversal escrow treasury
    else pure tt

unfoldable pub reverse_event : String → String → BrokerEvent → Tx (Unit {0})
unfolding reverse_postings
reverse_event chain contract reversal = do
  reverse_postings chain contract reversal
  execute λ db. record db {
    broker_events =
        update (has_event_row reversal.id) (λ r. record r { status = "orphaned" }) db.broker_events;
  }

abbrev pub escrow_snapshot_reorg : Error
escrow_snapshot_reorg = failure "reorg crosses opening snapshot anchor"

unfoldable pub rewind_body : String → String → String → Block → Tx (Unit {0})
unfolding reverse_settlement reverse_event
rewind_body stream chain contract ancestor = do
  opening ← query (λ db. opening_block stream db.snapshots)
  anchor ← or_raise opening (failure "converting NULL to int64 is unsupported")
  raise_if (ltb_ℤ ancestor.number anchor) escrow_snapshot_reorg
  settlements ← query λ db.
      newest_first (λ r. r.block_number) (λ r. r.log_index)
        (select (is_settled_above chain contract ancestor.number) db.settlements)
  for_each settlements (reverse_settlement chain contract)
  events ← query λ db.
      newest_first (λ r. r.block_number) (λ r. r.log_index)
        (select (is_canonical_above chain contract ancestor.number) db.broker_events)
  for_each events (reverse_event chain contract)
  execute λ db. record db {
    blocks = select (λ r. not (r.stream == stream && ltb_ℤ ancestor.number r.number)) db.blocks;
  }
  set_checkpoint "chain" stream (ancestor.number +ℤ pos 1) ancestor.hash

unfoldable pub rewind : String → String → String → Block → Tx (Unit {0})
unfolding rewind_body
rewind stream chain contract ancestor = write (rewind_body stream chain contract ancestor)
