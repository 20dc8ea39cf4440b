-- ===== src/Store/Settlements/Sound.antt =====
-- internal/store/settlements.go: rules for the escrow ledger and the soundness of the ledger.
use clearinghouse_batteries.Base.{String, Option, none, some, List}
use clearinghouse_batteries.Base.Int.{ℤ}
use clearinghouse_batteries.Base.Exec.Keeps.{Keeps}
use clearinghouse_batteries.Db.{SnapshotRow, SettlementRow, BrokerEvent}
use clearinghouse_batteries.Db.Tx.Rules.{OfDb}
use clearinghouse_batteries.Store.Summary.{change_metric_amount}
use clearinghouse_batteries.Store.Summary.Frame.{change_metric_amount-Keeps}
use clearinghouse_batteries.Store.Ledger.{balance}
use clearinghouse_batteries.Store.Ledger.Sound.{IsSound, transfer-Sound}
use clearinghouse_batteries.Store.Manage.Sound.{sound_rules, balance_currency-Sound}
use clearinghouse_batteries.Store.Ingest.Sound.{
  metric_count-Sound, set_checkpoint-Sound, rematch-Sound,
}
use clearinghouse_batteries.Store.Settlements.Events.{
  Block, EscrowSnapshot, EscrowEvent, Settlement, require_balance, require_exact_balance,
}
use clearinghouse_batteries.Store.Settlements.Bootstrap.{
  register_bucket, register_escrow_metrics, insert_snapshot, open_snapshot, insert_anchor,
  bootstrap_body,
}
use clearinghouse_batteries.Store.Settlements.Settle.{
  Posting, update_settlement_metrics, insert_settlement, restore_settlement, pay_settlement,
  settle_known, apply_settlement,
}
use clearinghouse_batteries.Store.Settlements.Apply.{
  redeem, insert_event, restore_event, withdraw, fund_escrow, post_event, apply_known,
  apply_escrow_event, store_block, prune_blocks, apply_batch,
}
use clearinghouse_batteries.Store.Settlements.Rewind.{
  reverse_settlement, reverse_funding, reverse_withdrawal, reverse_postings, reverse_event,
  rewind_body,
}

metric_amount-Sound :
    (name c : String) (n : ℤ) → Keeps (OfDb IsSound) (change_metric_amount name c n)
metric_amount-Sound = change_metric_amount-Keeps (λ f d h. h)

balance-Sound : (account owner : String) → Keeps (OfDb IsSound) (balance account owner)
unfolding balance
balance-Sound account owner = balance_currency-Sound account owner "eth"

require_balance-Sound : (a o : String) (n : ℤ) → Keeps (OfDb IsSound) (require_balance a o n)
unfolding require_balance
require_balance-Sound a o n = search (sound_rules, balance-Sound)

require_exact_balance-Sound :
    (a o : String) (n : ℤ) → Keeps (OfDb IsSound) (require_exact_balance a o n)
unfolding require_exact_balance
require_exact_balance-Sound a o n = search (sound_rules, balance-Sound)

ruleset escrow_rules = (
  sound_rules, metric_count-Sound, metric_amount-Sound, balance-Sound, require_balance-Sound,
  require_exact_balance-Sound, set_checkpoint-Sound, rematch-Sound, transfer-Sound,
)

register_bucket-Sound :
    (id owner bucket : String) → Keeps (OfDb IsSound) (register_bucket id owner bucket)
unfolding register_bucket
register_bucket-Sound id owner bucket = search escrow_rules depth 20 fits 2000

register_escrow_metrics-Sound :
    (id owner : String) → Keeps (OfDb IsSound) (register_escrow_metrics id owner)
unfolding register_escrow_metrics
register_escrow_metrics-Sound id owner = search (escrow_rules, register_bucket-Sound)

insert_snapshot-Sound : (row : SnapshotRow) → Keeps (OfDb IsSound) (insert_snapshot row)
unfolding insert_snapshot
insert_snapshot-Sound row = search escrow_rules depth 20 fits 2000

open_snapshot-Sound :
    (stream : String) (anchor : Block) (s : EscrowSnapshot)
    → Keeps (OfDb IsSound) (open_snapshot stream anchor s)
unfolding open_snapshot
open_snapshot-Sound stream anchor s =
    search (escrow_rules, insert_snapshot-Sound, register_escrow_metrics-Sound) depth 20 fits 2000

insert_anchor-Sound :
    (stream : String) (anchor : Block) → Keeps (OfDb IsSound) (insert_anchor stream anchor)
unfolding insert_anchor
insert_anchor-Sound stream anchor = search escrow_rules depth 20 fits 2000

pub bootstrap_body-Sound :
    (stream : String) (anchor : Block) (snapshots : List EscrowSnapshot)
    → Keeps (OfDb IsSound) (bootstrap_body stream anchor snapshots)
unfolding bootstrap_body
bootstrap_body-Sound stream anchor snapshots =
    search (escrow_rules, insert_anchor-Sound, open_snapshot-Sound) depth 20 fits 2000

update_settlement_metrics-Sound :
    (old next m : String) (face paid : ℤ)
    → Keeps (OfDb IsSound) (update_settlement_metrics old next m face paid)
unfolding update_settlement_metrics
update_settlement_metrics-Sound old next m face paid = search escrow_rules depth 20 fits 2000

insert_settlement-Sound : (event : Settlement) → Keeps (OfDb IsSound) (insert_settlement event)
unfolding insert_settlement
insert_settlement-Sound event = search escrow_rules depth 20 fits 2000

restore_settlement-Sound :
    (event : Settlement) (row : SettlementRow) → Keeps (OfDb IsSound) (restore_settlement event row)
unfolding restore_settlement
restore_settlement-Sound event row = search escrow_rules

pay_settlement-Sound :
    (event : Settlement) (p : Posting) (face paid d r : ℤ)
    → Keeps (OfDb IsSound) (pay_settlement event p face paid d r)
unfolding pay_settlement
pay_settlement-Sound event p face paid d r =
    search (escrow_rules, update_settlement_metrics-Sound) depth 20 fits 2000

ruleset settle_rules =
    (escrow_rules, insert_settlement-Sound, restore_settlement-Sound, pay_settlement-Sound)

settle_known-Sound :
    (event : Settlement) (known : Option SettlementRow) (face paid d r : ℤ)
    → Keeps (OfDb IsSound) (settle_known event known face paid d r)
settle_known-Sound event none face paid d r = search settle_rules
settle_known-Sound event (some row) face paid d r = search settle_rules depth 20 fits 2000

apply_settlement-Sound : (event : Settlement) → Keeps (OfDb IsSound) (apply_settlement event)
unfolding apply_settlement
apply_settlement-Sound event = search (escrow_rules, settle_known-Sound) depth 20 fits 2000

redeem-Sound : (s : Option Settlement) → Keeps (OfDb IsSound) (redeem s)
unfolding redeem
redeem-Sound none = search escrow_rules
redeem-Sound (some s) = apply_settlement-Sound s

insert_event-Sound : (event : EscrowEvent) → Keeps (OfDb IsSound) (insert_event event)
unfolding insert_event
insert_event-Sound event = search escrow_rules depth 20 fits 2000

restore_event-Sound :
    (event : EscrowEvent) (row : BrokerEvent) → Keeps (OfDb IsSound) (restore_event event row)
unfolding restore_event
restore_event-Sound event row = search escrow_rules

withdraw-Sound :
    (event : EscrowEvent) (id key t e : String) → Keeps (OfDb IsSound) (withdraw event id key t e)
unfolding withdraw
withdraw-Sound event id key t e = search escrow_rules depth 20 fits 2000

fund_escrow-Sound :
    (event : EscrowEvent) (id key t e r a : String)
    → Keeps (OfDb IsSound) (fund_escrow event id key t e r a)
unfolding fund_escrow
fund_escrow-Sound event id key t e r a = search escrow_rules

post_event-Sound :
    (event : EscrowEvent) (id : String) (g : ℤ) → Keeps (OfDb IsSound) (post_event event id g)
unfolding post_event
post_event-Sound event id g =
    search (escrow_rules, withdraw-Sound, fund_escrow-Sound, redeem-Sound) depth 20 fits 2000

apply_known-Sound :
    (event : EscrowEvent) (known : Option BrokerEvent)
    → Keeps (OfDb IsSound) (apply_known event known)
apply_known-Sound event none = search (escrow_rules, insert_event-Sound, post_event-Sound)
apply_known-Sound event (some row) =
    search (escrow_rules, restore_event-Sound, post_event-Sound, redeem-Sound) depth 20 fits 2000

apply_escrow_event-Sound : (event : EscrowEvent) → Keeps (OfDb IsSound) (apply_escrow_event event)
unfolding apply_escrow_event
apply_escrow_event-Sound event = search (escrow_rules, apply_known-Sound)

store_block-Sound : (stream : String) (b : Block) → Keeps (OfDb IsSound) (store_block stream b)
unfolding store_block
store_block-Sound stream b = search escrow_rules

prune_blocks-Sound : (stream : String) (n : ℤ) → Keeps (OfDb IsSound) (prune_blocks stream n)
unfolding prune_blocks
prune_blocks-Sound stream n = search escrow_rules

pub apply_batch-Sound :
    (stream : String) (first : Block) (rest : List Block) (events : List EscrowEvent) (lookback : ℤ)
    → Keeps (OfDb IsSound) (apply_batch stream first rest events lookback)
unfolding apply_batch
apply_batch-Sound stream first rest events lookback =
    search (escrow_rules, store_block-Sound, prune_blocks-Sound, apply_escrow_event-Sound) depth 20
      fits 2000

reverse_settlement-Sound :
    (chain contract : String) (row : SettlementRow)
    → Keeps (OfDb IsSound) (reverse_settlement chain contract row)
unfolding reverse_settlement
reverse_settlement-Sound chain contract row =
    search (escrow_rules, update_settlement_metrics-Sound) depth 20 fits 2000

reverse_funding-Sound :
    (key : String) (row : BrokerEvent) (a e t : String)
    → Keeps (OfDb IsSound) (reverse_funding key row a e t)
unfolding reverse_funding
reverse_funding-Sound key row a e t = search escrow_rules

reverse_withdrawal-Sound :
    (key : String) (row : BrokerEvent) (e t : String)
    → Keeps (OfDb IsSound) (reverse_withdrawal key row e t)
unfolding reverse_withdrawal
reverse_withdrawal-Sound key row e t = search escrow_rules depth 20 fits 2000

reverse_postings-Sound :
    (chain contract : String) (row : BrokerEvent)
    → Keeps (OfDb IsSound) (reverse_postings chain contract row)
unfolding reverse_postings
reverse_postings-Sound chain contract row =
    search (escrow_rules, reverse_funding-Sound, reverse_withdrawal-Sound)

reverse_event-Sound :
    (chain contract : String) (row : BrokerEvent)
    → Keeps (OfDb IsSound) (reverse_event chain contract row)
unfolding reverse_event
reverse_event-Sound chain contract row = search (escrow_rules, reverse_postings-Sound)

pub rewind_body-Sound :
    (stream chain contract : String) (ancestor : Block)
    → Keeps (OfDb IsSound) (rewind_body stream chain contract ancestor)
unfolding rewind_body
rewind_body-Sound stream chain contract ancestor =
    search (escrow_rules, reverse_settlement-Sound, reverse_event-Sound) depth 20 fits 2000
