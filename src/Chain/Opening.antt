-- ===== src/Chain/Opening.antt =====
-- internal/chain/listener.go: `openingSnapshots`, the escrow of each sender before the first block.
use clearinghouse_batteries.Base.{String, concat, some, not, ◌==◌, if◌then◌else◌, List, [], ◌∷◌}
use clearinghouse_batteries.Base.Int.{ℤ, pos, ◌-ℤ◌, is_negative}
use clearinghouse_batteries.Base.Text.{sprint, to_lower, one_of}
use clearinghouse_batteries.Base.Exec.{failure}
use clearinghouse_batteries.Kafka.Broker.{explain}
use clearinghouse_batteries.Store.Settlements.Events.{Block, EscrowSnapshot}
use clearinghouse_batteries.Chain.Logs.{Abi, non_nil}
use clearinghouse_batteries.Chain.Config.{Config}
use clearinghouse_batteries.Chain.Polling.{
  Poll, Rpc, plain, at_stage, return, fail_if, give, request, during, header, ◌>>=◌, ◌>>◌,
}

-- `common.HexToAddress` of addresses that `Validate` accepted, each once.
unfoldable pub distinct : List String → List String → List String
distinct seen [] = []
distinct seen (s ∷ senders) =
    let a = to_lower s in
    let known = one_of a seen in
    let rest = distinct (if known then seen else a ∷ seen) senders in
    if known then rest else a ∷ rest

module _ (rpc : Rpc) (abi : Abi) (c : Config) where
  abbrev historical : ℤ → String
  historical n = concat "historical getSenderInfo at block " (sprint n)

  -- A call to an address before the contract is deployed returns no data.
  unfoldable pub decode_balances : String → Poll (ℤ × ℤ)
  decode_balances answer = if answer == "" then return (pos 0, pos 0) else do
    found ← give (explain "decode historical getSenderInfo" (abi.unpack_sender_info answer))
    deposit ← give (non_nil "historical getSenderInfo returned nil balances" (found.0))
    reserve ← give (non_nil "historical getSenderInfo returned nil balances" (found.1))
    return (deposit, reserve)

  unfoldable pub balances_at : ℤ → String → Poll (ℤ × ℤ)
  unfolding decode_balances
  balances_at anchor sender = if is_negative anchor then return (pos 0, pos 0) else do
    query ← give (abi.pack_sender_info sender)
    answer ← during "rpc" (
        request (λ n.
          explain (historical anchor)
            (rpc.call_contract (to_lower c.contract) query (some anchor) n)))
    decode_balances answer

  unfoldable pub snapshot_of : ℤ → String → Poll EscrowSnapshot
  unfolding balances_at
  snapshot_of anchor sender = do
    found ← balances_at anchor sender
    return (record {
      chain_id = c.chain_id;
      contract = to_lower c.contract;
      sender = sender;
      deposit = sprint (found.0);
      reserve = sprint (found.1);
    })

  unfoldable pub snapshots_of : ℤ → List String → Poll (List EscrowSnapshot)
  unfolding snapshot_of
  snapshots_of anchor [] = return []
  snapshots_of anchor (sender ∷ senders) = do
    s ← snapshot_of anchor sender
    rest ← snapshots_of anchor senders
    return (s ∷ rest)

  -- The hash of the anchor block, which a genesis scan does not have.
  unfoldable pub anchor_hash : ℤ → Poll String
  anchor_hash anchor =
      if is_negative anchor then return "" else do h ← header rpc anchor; return (to_lower h.hash)

  unfoldable pub opening_snapshots : ℤ → Poll (Block × List EscrowSnapshot)
  unfolding anchor_hash snapshots_of distinct
  opening_snapshots next = do
    let anchor = next -ℤ pos 1
    hash ← anchor_hash anchor
    snapshots ← snapshots_of anchor (distinct [] c.senders)
    again ← anchor_hash anchor
    fail_if (not (again == hash))
        (at_stage "canonicality" (plain (failure "chain changed during opening snapshot")))
    return (record { number = anchor; hash = hash }, snapshots)
