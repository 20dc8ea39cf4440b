-- ===== src/Store/Settlements/Apply.antt =====
-- internal/store/settlements.go: `applyEscrowEvent` and `ApplyChain`.
use clearinghouse_batteries.Base.{
  String, concat, Option, none, some, Bool, not, ◌&&◌, ◌||◌, ◌==◌, if◌then◌else◌, List, [], ◌∷◌,
  ◌++◌,
}
use clearinghouse_batteries.Base.Int.{ℤ, pos, ◌+ℤ◌, ◌-ℤ◌, eqb_ℤ, ltb_ℤ}
use clearinghouse_batteries.Base.Lists.{find, update, upsert, select}
use clearinghouse_batteries.Base.Exec.{failure, pure, raise, lift, for_each, ◌>>=◌, ◌>>◌}
use clearinghouse_batteries.Db.{BrokerEvent}
use clearinghouse_batteries.Db.Tx.{Tx, fresh_id, now, query, execute, write}
use clearinghouse_batteries.Store.Amount.{amount}
use clearinghouse_batteries.Store.Ledger.{transfer}
use clearinghouse_batteries.Store.Position.{set_checkpoint}
use clearinghouse_batteries.Store.Settlements.Events.{
  Block, EscrowEvent, Settlement, treasury_owner, escrow_owner, require_exact_balance, is_block,
  deposit_funded, reserve_funded, reserve_claimed, withdrawal, winning_ticket_transfer,
  winning_ticket_redeemed,
}
use clearinghouse_batteries.Store.Settlements.Settle.{apply_settlement, posting_key}

abbrev pub is_log : EscrowEvent → BrokerEvent → Bool
is_log event row =
    row.chain_id == event.chain_id
    && row.contract_address == event.contract
    && row.block_hash == event.block_hash
    && row.tx_hash == event.tx_hash
    && eqb_ℤ row.log_index event.log_index

abbrev text_of : Option String → String
text_of none = ""
text_of (some s) = s

unfoldable pub same_event : EscrowEvent → BrokerEvent → Bool
same_event event stored =
    stored.event_type == event.kind
    && stored.sender == event.sender
    && text_of stored.recipient == event.recipient
    && stored.amount_wei == event.amount
    && stored.deposit_amount_wei == event.deposit_amount
    && stored.reserve_amount_wei == event.reserve_amount
    && eqb_ℤ stored.block_number event.block_number

unfoldable pub redeem : Option Settlement → Tx (Unit {0})
redeem none = raise (failure "redemption is missing settlement data")
redeem (some settlement) = apply_settlement settlement

abbrev null_if_empty : String → Option String
null_if_empty text = if text == "" then none else some text

unfoldable pub insert_event : EscrowEvent → Tx String
insert_event event = do
  id ← fresh_id
  at ← now
  execute λ db. record db {
    broker_events =
        db.broker_events
        ++ record {
          id = id;
          chain_id = event.chain_id;
          contract_address = event.contract;
          tx_hash = event.tx_hash;
          log_index = event.log_index;
          block_number = event.block_number;
          block_hash = event.block_hash;
          event_type = event.kind;
          sender = event.sender;
          recipient = null_if_empty event.recipient;
          amount_wei = event.amount;
          deposit_amount_wei = event.deposit_amount;
          reserve_amount_wei = event.reserve_amount;
          status = "canonical";
          generation = pos 0;
          created_at_ms = at;
          occurred_at_ms = event.timestamp;
        }
          ∷ [];
  }
  pure id

abbrev pub has_event_row : String → BrokerEvent → Bool
has_event_row id row = row.id == id

unfoldable pub restore_event : EscrowEvent → BrokerEvent → Tx (Unit {0})
restore_event event stored = execute λ db. record db {
  broker_events =
      update (has_event_row stored.id)
        (λ r. record r {
          status = "canonical";
          generation = stored.generation +ℤ pos 1;
          occurred_at_ms = event.timestamp;
        })
        db.broker_events;
}

unfoldable pub withdraw : EscrowEvent → String → String → String → String → Tx (Unit {0})
withdraw event id key treasury escrow = do
  deposit ← lift (amount event.deposit_amount)
  reserve ← lift (amount event.reserve_amount)
  require_exact_balance "escrow_deposit" escrow deposit
  require_exact_balance "escrow_reserve" escrow reserve
  transfer (concat key ":deposit") "deposit withdrawn" "escrow_event" id "escrow_deposit" escrow
      "treasury_cash" treasury deposit
  transfer (concat key ":reserve") "reserve withdrawn" "escrow_event" id "escrow_reserve" escrow
      "treasury_cash" treasury reserve

unfoldable pub fund_escrow :
    EscrowEvent → String → String → String → String → String → String → Tx (Unit {0})
fund_escrow event id key treasury escrow reason account = do
  n ← lift (amount event.amount)
  transfer key reason "escrow_event" id "treasury_cash" treasury account escrow n

-- The `switch` on the type, under the row's id and generation.
unfoldable pub post_event : EscrowEvent → String → ℤ → Tx (Unit {0})
unfolding withdraw fund_escrow
post_event event id generation =
    let treasury = treasury_owner event.chain_id event.sender in
    let escrow = escrow_owner event.chain_id event.contract event.sender in
    let key = posting_key "event:" id generation in
    if event.kind == deposit_funded
    then fund_escrow event id key treasury escrow "deposit funded" "escrow_deposit"
    else if event.kind == reserve_funded
    then fund_escrow event id key treasury escrow "reserve funded" "escrow_reserve"
    else if event.kind == withdrawal
    then withdraw event id key treasury escrow
    else if event.kind == winning_ticket_redeemed
    then redeem event.settlement
    else if event.kind == reserve_claimed || event.kind == winning_ticket_transfer
    then pure tt
    else raise (failure "unknown chain event")

abbrev pub apply_known : EscrowEvent → Option BrokerEvent → Tx (Unit {0})
apply_known event none = do id ← insert_event event; post_event event id (pos 0)
apply_known event (some stored) =
    if not (same_event event stored)
    then raise (failure "chain log identity reused with different event data")
    else if stored.status == "canonical"
    then (if event.kind == winning_ticket_redeemed then redeem event.settlement else pure tt)
    else do restore_event event stored; post_event event stored.id (stored.generation +ℤ pos 1)

unfoldable pub apply_escrow_event : EscrowEvent → Tx (Unit {0})
unfolding insert_event restore_event post_event redeem
apply_escrow_event event = do
  known ← query (λ db. find (is_log event) db.broker_events)
  apply_known event known

unfoldable pub store_block : String → Block → Tx (Unit {0})
store_block stream block = execute λ db. record db {
  blocks =
      upsert (is_block stream block.number) (λ r. record r { hash = block.hash })
        (record { stream = stream; number = block.number; hash = block.hash }) db.blocks;
}

unfoldable pub prune_blocks : String → ℤ → Tx (Unit {0})
prune_blocks stream number = execute λ db. record db {
  blocks = select (λ r. not (r.stream == stream && ltb_ℤ r.number number)) db.blocks;
}

-- `blocks[len(blocks)-1]`, where the list is its first block and the others.
unfoldable pub last_block : Block → List Block → Block
last_block b [] = b
last_block b (c ∷ rest) = last_block c rest

unfoldable pub apply_batch : String → Block → List Block → List EscrowEvent → ℤ → Tx (Unit {0})
unfolding store_block prune_blocks
apply_batch stream first rest events lookback = do
  for_each (first ∷ rest) (store_block stream)
  for_each events apply_escrow_event
  let last = last_block first rest
  set_checkpoint "chain" stream (last.number +ℤ pos 1) last.hash
  prune_blocks stream (last.number -ℤ lookback)

unfoldable pub apply_chain : String → List Block → List EscrowEvent → ℤ → Tx (Unit {0})
unfolding apply_batch
apply_chain stream [] events lookback = raise (failure "empty block batch")
apply_chain stream (first ∷ rest) events lookback =
    write (apply_batch stream first rest events lookback)
