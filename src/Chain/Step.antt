-- ===== src/Chain/Step.antt =====
-- internal/chain/listener.go: one step of the listener, the resolution of its configuration, and
-- its loop. Metrics and logging are left out.
pub mod Sound
pub mod Advance
use clearinghouse_batteries.Base.{
  ℕ, zero, suc, String, concat, Option, none, some, Bool, true, false, not, ◌&&◌, ◌||◌, ◌==◌,
  if◌then◌else◌, List, [], ◌∷◌, map,
}
use clearinghouse_batteries.Base.Int.{ℤ, pos, pos_part, ◌+ℤ◌, ◌-ℤ◌, eqb_ℤ, ltb_ℤ, is_positive}
use clearinghouse_batteries.Base.Lists.{select, any}
use clearinghouse_batteries.Base.Sort.{sort_by}
use clearinghouse_batteries.Base.Text.{sprint, to_lower}
use clearinghouse_batteries.Base.Exec.{Error, Result, ok, err, failure}
use clearinghouse_batteries.Db.{Db, World, Checkpoint, ChainBlock}
use clearinghouse_batteries.Db.Tx.{Tx, query}
use clearinghouse_batteries.Kafka.Broker.{explain}
use clearinghouse_batteries.Store.Position.{checkpoint}
use clearinghouse_batteries.Store.Ingest.{max_int64}
use clearinghouse_batteries.Store.Settlements.Events.{Block}
use clearinghouse_batteries.Store.Settlements.Bootstrap.{bootstrap_chain}
use clearinghouse_batteries.Store.Settlements.Apply.{apply_chain}
use clearinghouse_batteries.Store.Settlements.Rewind.{rewind, escrow_snapshot_reorg}
use clearinghouse_batteries.Chain.Logs.{Abi}
use clearinghouse_batteries.Chain.Config.{Config, validate, stream}
use clearinghouse_batteries.Chain.Opening.{opening_snapshots}
use clearinghouse_batteries.Chain.Batch.{batch_end, fetch, link, fetch_events}
use clearinghouse_batteries.Chain.Polling.{
  Failure, Outcome, done, failed, Poll, Rpc, plain, fatal, at_stage, return, fail, fail_if, give,
  call, request, during, header, latest_header, continue, ◌>>=◌, ◌>>◌,
}

-- internal/store/settlements.go, `Blocks`: newest first.
abbrev newer_block : Block → Block → Bool
newer_block a b = ltb_ℤ b.number a.number

abbrev pub block_of : ChainBlock → Block
block_of row = record { number = row.number; hash = row.hash }

unfoldable pub stored_blocks : String → Db → List Block
stored_blocks stream db =
    sort_by newer_block (map block_of (select (λ row. row.stream == stream) db.blocks))

unfoldable pub blocks : String → Tx (List Block)
unfolding stored_blocks
blocks stream = query (stored_blocks stream)

-- The next block and the hash of the one before it.
abbrev pub Cursor : Type 0
Cursor = ℤ × String

abbrev pub start_of : Option ℤ → ℤ → ℤ
start_of none head = head
start_of (some n) head = n

module _ (rpc : Rpc) (abi : Abi) (c : Config) where
  -- A stream without a checkpoint opens with a snapshot.
  unfoldable pub open_stream : ℤ → Option Checkpoint → Poll Cursor
  open_stream head (some row) = return (row.next_position, row.block_hash)
  open_stream head none = do
    let next = start_of c.start head
    opening ← during "decode" (opening_snapshots rpc abi c next)
    call (bootstrap_chain (stream c) (opening.0) (opening.1))
    return (next, (opening.0).hash)

  -- The newest stored block that is still canonical, at most `lookback` blocks back.
  unfoldable pub common_ancestor : ℤ → List Block → Poll (Option Block)
  common_ancestor next [] = return none
  common_ancestor next (b ∷ older) =
      let rest = common_ancestor next older in
      if ltb_ℤ c.lookback (next -ℤ pos 1 -ℤ b.number) then return none else do
        canonical ← header rpc b.number
        (if to_lower canonical.hash == b.hash then return (some b) else rest)

  -- A reorganisation below the opening snapshot cannot be undone.
  abbrev pub rewound : Result (Unit {0}) → Outcome Bool
  rewound (ok u) = done true
  rewound (err (failure s)) =
      if s == "reorg crosses opening snapshot anchor"
      then failed
          (record { error = escrow_snapshot_reorg; stage = some "snapshot_boundary"; fatal = true })
      else failed (plain (failure s))
  rewound (err e) = failed (plain e)

  unfoldable pub rewind_to : Block → Poll Bool
  rewind_to b w =
      let (r, w') = rewind (stream c) c.chain_id (to_lower c.contract) b w in (rewound r, w')

  abbrev pub reorganise_to : Option Block → Poll Bool
  reorganise_to none =
      fail (record (fatal (failure "reorg exceeds retained common-ancestor history")) {
        stage = some "reorg_depth";
      })
  reorganise_to (some b) = rewind_to b

  unfoldable pub reorganise : ℤ → Poll Bool
  unfolding blocks common_ancestor rewind_to
  reorganise next = do
    stored ← call (blocks (stream c))
    ancestor ← common_ancestor next stored
    reorganise_to ancestor

  -- The batch of confirmed blocks from `next` on.
  unfoldable pub apply_batch_from : ℤ → String → ℤ → Poll Bool
  unfolding fetch_events
  apply_batch_from next hash last = do
    fail_if (eqb_ℤ last max_int64) (fatal (failure "block number overflow"))
    headers ← fetch rpc next (pos_part (last -ℤ next +ℤ pos 1))
    batch ← link hash next headers
    events ← fetch_events rpc abi c next last headers
    call (apply_chain (stream c) batch events c.lookback)
    return true

  unfoldable pub advance : ℤ → String → ℤ → Poll Bool
  unfolding apply_batch_from
  advance next hash confirmed =
      if ltb_ℤ confirmed next
      then return false
      else apply_batch_from next hash (batch_end next confirmed c.batch_size)

  -- Whether the block before `next` is still the one that the store has.
  unfoldable pub is_canonical : ℤ → String → Poll Bool
  is_canonical next hash =
      if is_positive next
      then (do h ← header rpc (next -ℤ pos 1); return (to_lower h.hash == hash))
      else return true

  unfoldable pub step_database : Poll Bool
  unfolding open_stream is_canonical reorganise advance
  step_database = do
    found ← call (checkpoint "chain" (stream c))
    head ← latest_header rpc
    cursor ← open_stream head found
    canonical ← is_canonical (cursor.0) (cursor.1)
    (if canonical
        then advance (cursor.0) (cursor.1) (head -ℤ c.confirmations)
        else reorganise (cursor.0))

  -- `Step`: whether there was progress. Every failure has a stage.
  unfoldable pub step : Poll Bool
  unfolding step_database
  step = during "database" step_database

-- The chain of the node must be the configured one.
abbrev pub node_chain : Option ℤ → Result ℤ
node_chain none = err (failure "RPC returned an invalid chain ID")
node_chain (some n) =
    if is_positive n then ok n else err (failure "RPC returned an invalid chain ID")

abbrev pub zero_address : String
zero_address = "0x0000000000000000000000000000000000000000"

abbrev pub contract_of : List (Option String) → Result String
contract_of (some a ∷ []) =
    if a == zero_address
    then err (failure "the Livepeer Controller returned an empty TicketBroker address")
    else ok a
contract_of (none ∷ []) =
    err (failure "the Livepeer Controller returned an empty TicketBroker address")
contract_of values = err (failure "the Livepeer Controller returned an invalid TicketBroker result")

abbrev pub arbitrum_one_chain_id : String
arbitrum_one_chain_id = "42161"

abbrev pub arbitrum_one_controller : String
arbitrum_one_controller = "0xD8E8328501E9645d16Cf49539efC04f734606ee4"

module _ (rpc : Rpc) (abi : Abi) where
  unfoldable pub resolve_ticket_broker : String → Poll String
  resolve_ticket_broker controller = do
    question ← give abi.pack_contract
    answer ← request λ n.
        explain "resolve TicketBroker from Livepeer Controller"
          (rpc.call_contract controller question none n)
    values ←
        give (explain "decode TicketBroker from Livepeer Controller" (abi.unpack_contract answer))
    give (contract_of values)

  unfoldable pub resolve_contract : Config → String → Poll String
  unfolding resolve_ticket_broker
  resolve_contract c chain_id = if not (c.contract == "") then return c.contract else do
    fail_if (not (chain_id == arbitrum_one_chain_id))
        (plain (failure (concat "--ticket-broker required for chain ID " chain_id)))
    contract ← resolve_ticket_broker (to_lower arbitrum_one_controller)
    return (to_lower contract)

  unfoldable pub resolve_config : Config → Poll Config
  unfolding resolve_contract
  resolve_config c = do
    found ← request rpc.chain_id
    id ← give (node_chain found)
    fail_if (not (c.chain_id == "") && not (c.chain_id == sprint id)) (
        plain (
          failure (
            concat "RPC chain ID mismatch: configured "
              (concat c.chain_id (concat ", RPC returned " (sprint id))))))
    contract ← resolve_contract c (sprint id)
    fail_if (sprint id == "" || contract == "")
        (plain (failure "chain configuration did not resolve"))
    let resolved = record c { chain_id = sprint id; contract = contract }
    give (validate resolved)
    return resolved

  -- A failure that is not fatal is logged, and the loop of `Run` goes on.
  abbrev pub next_round : Poll (Unit {0}) → Outcome Bool × World → Outcome (Unit {0}) × World
  next_round rest (done progress, w) = rest w
  next_round rest (failed f, w) = if f.fatal then (failed f, w) else rest w

  unfoldable pub steps : Config → ℕ → Poll (Unit {0})
  unfolding step
  steps c zero w = (done tt, w)
  steps c (suc rounds) w = next_round (steps c rounds) (step rpc abi c w)

  unfoldable pub run : Config → ℕ → Poll (Unit {0})
  unfolding steps resolve_config
  run c rounds = do
    give (validate c)
    resolved ← resolve_config c
    foreign ← call (
        query λ db.
          any (λ row. row.source == "chain" && not (row.stream == stream resolved)) db.checkpoints)
    fail_if foreign (plain (failure "chain domain changed; use a separate accounting database"))
    steps resolved rounds
