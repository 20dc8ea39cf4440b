-- ===== src/Store/Settlements/Bootstrap.antt =====
-- internal/store/settlements.go: `BootstrapChain`, the opening state of the event ledger.
use clearinghouse_batteries.Base.{
  String, concat, Bool, true, false, not, ◌&&◌, ◌||◌, ◌==◌, if◌then◌else◌, List, [], ◌∷◌, ◌++◌,
}
use clearinghouse_batteries.Base.Int.{pos, negsuc, ◌+ℤ◌, eqb_ℤ, is_zero, is_negative}
use clearinghouse_batteries.Base.Lists.{any}
use clearinghouse_batteries.Base.Exec.{failure, constraint, lift, raise_if, for_each, ◌>>=◌, ◌>>◌}
use clearinghouse_batteries.Db.{SnapshotRow, MetricBalance}
use clearinghouse_batteries.Db.Tx.{Tx, fresh_id, now, query, execute, write}
use clearinghouse_batteries.Store.Amount.{amount}
use clearinghouse_batteries.Store.Summary.{
  on_summary, change_metric_amount, change_metric_count, bool_count,
}
use clearinghouse_batteries.Store.Ledger.{balance, transfer}
use clearinghouse_batteries.Store.Position.{set_checkpoint}
use clearinghouse_batteries.Store.Settlements.Events.{
  Block, EscrowSnapshot, treasury_owner, escrow_owner, is_block,
}

abbrev is_source : String → String → MetricBalance → Bool
is_source account id row =
    row.account_type == account && row.source_id == id && row.currency == "eth"

-- One bucket, `deposit` or `reserve`, of the loop of `registerEscrowMetrics`.
unfoldable pub register_bucket : String → String → String → Tx (Unit {0})
register_bucket id owner bucket = do
  let account = concat "escrow_" bucket
  have ← balance account owner
  taken ← query (λ db. any (is_source account id) db.summary.balances)
  raise_if taken (constraint "metric_balances")
  execute (
      on_summary λ s. record s {
        balances =
            s.balances
            ++ record {
              account_type = account;
              account_id = owner;
              currency = "eth";
              source_id = id;
              balance_units = have;
            }
              ∷ [];
      })
  change_metric_amount account "eth" have
  change_metric_count "escrow_unfunded_signers" bucket "" (bool_count (is_zero have))

unfoldable pub register_escrow_metrics : String → String → Tx (Unit {0})
unfolding register_bucket
register_escrow_metrics id owner = do
  register_bucket id owner "deposit"
  register_bucket id owner "reserve"

abbrev same_signer : String → String → SnapshotRow → Bool
same_signer stream sender row = row.stream == stream && row.sender == sender

-- `UNIQUE(stream,sender)`
unfoldable pub insert_snapshot : SnapshotRow → Tx (Unit {0})
insert_snapshot row = do
  taken ← query (λ db. any (same_signer row.stream row.sender) db.snapshots)
  raise_if taken (constraint "escrow_snapshots")
  execute λ db. record db { snapshots = db.snapshots ++ row ∷ [] }

unfoldable pub open_snapshot : String → Block → EscrowSnapshot → Tx (Unit {0})
unfolding register_escrow_metrics insert_snapshot
open_snapshot stream anchor snapshot = do
  deposit ← lift (amount snapshot.deposit)
  reserve ← lift (amount snapshot.reserve)
  id ← fresh_id
  at ← now
  insert_snapshot (record {
    id = id;
    stream = stream;
    chain_id = snapshot.chain_id;
    contract_address = snapshot.contract;
    sender = snapshot.sender;
    block_number = anchor.number;
    block_hash = anchor.hash;
    deposit_wei = deposit;
    reserve_wei = reserve;
    created_at_ms = at;
  })
  let treasury = treasury_owner snapshot.chain_id snapshot.sender
  let escrow = escrow_owner snapshot.chain_id snapshot.contract snapshot.sender
  register_escrow_metrics id escrow
  transfer (concat "snapshot:" (concat id ":deposit")) "opening deposit" "escrow_snapshot" id
      "treasury_cash" treasury "escrow_deposit" escrow deposit
  transfer (concat "snapshot:" (concat id ":reserve")) "opening reserve" "escrow_snapshot" id
      "treasury_cash" treasury "escrow_reserve" escrow reserve

-- The anchor block, unless the chain is scanned from its genesis.
unfoldable pub insert_anchor : String → Block → Tx (Unit {0})
insert_anchor stream anchor =
    if is_negative anchor.number
    then raise_if (not (eqb_ℤ anchor.number (negsuc 0)) || not (anchor.hash == ""))
        (failure "invalid pre-genesis snapshot anchor")
    else do
      raise_if (anchor.hash == "") (failure "snapshot anchor hash required")
      taken ← query (λ db. any (is_block stream anchor.number) db.blocks)
      raise_if taken (constraint "chain_blocks")
      execute λ db. record db {
        blocks =
            db.blocks
            ++ record { stream = stream; number = anchor.number; hash = anchor.hash } ∷ [];
      }

unfoldable pub bootstrap_body : String → Block → List EscrowSnapshot → Tx (Unit {0})
unfolding insert_anchor open_snapshot
bootstrap_body stream anchor snapshots = do
  insert_anchor stream anchor
  for_each snapshots (open_snapshot stream anchor)
  set_checkpoint "chain" stream (anchor.number +ℤ pos 1) anchor.hash

abbrev no_snapshots : List EscrowSnapshot → Bool
no_snapshots [] = true
no_snapshots (s ∷ rest) = false

unfoldable pub bootstrap_chain : String → Block → List EscrowSnapshot → Tx (Unit {0})
unfolding bootstrap_body
bootstrap_chain stream anchor snapshots = do
  raise_if (no_snapshots snapshots) (failure "empty opening snapshot")
  write (bootstrap_body stream anchor snapshots)
