-- ===== src/Chain/Batch.antt =====
-- internal/chain/listener.go, `Step`: the headers of a batch of blocks, and the events in it.
pub mod Canonical
use clearinghouse_batteries.Base.{
  ℕ, zero, suc, ◌-◌, ◌/◌, ◌^◌, String, Option, none, some, Bool, true, false, not, ◌&&◌, ◌||◌, ◌==◌,
  if◌then◌else◌, List, [], ◌∷◌, ltb, map,
}
use clearinghouse_batteries.Base.Int.{ℤ, pos, ◌+ℤ◌, ◌-ℤ◌, ◌*ℤ◌, eqb_ℤ, min_ℤ}
use clearinghouse_batteries.Base.Text.{to_lower, one_of}
use clearinghouse_batteries.Base.Exec.{failure}
use clearinghouse_batteries.Store.Ingest.{max_int64}
use clearinghouse_batteries.Store.Settlements.Events.{Block, EscrowEvent}
use clearinghouse_batteries.Chain.Logs.{
  Log, Abi, int64, decode, topic_address, address_topic, ordered_unique_logs,
}
use clearinghouse_batteries.Chain.Redemptions.{correlate_redemptions}
use clearinghouse_batteries.Chain.Config.{Config}
use clearinghouse_batteries.Chain.Opening.{distinct}
use clearinghouse_batteries.Chain.Polling.{
  Poll, Rpc, Header, FilterQuery, plain, fatal, at_stage, return, fail, fail_if, give, request,
  during, header, ◌>>=◌, ◌>>◌,
}

-- The last block of the batch: at most `batch_size` blocks, and none above the confirmed one.
unfoldable pub batch_end : ℤ → ℤ → ℤ → ℤ
batch_end next confirmed size = next +ℤ min_ℤ (size -ℤ pos 1) (confirmed -ℤ next)

-- The headers from `n` on; the source asks for up to sixteen of them at a time.
unfoldable pub fetch : Rpc → ℤ → ℕ → Poll (List Header)
fetch rpc n zero = return []
fetch rpc n (suc count) = do
  h ← header rpc n
  rest ← fetch rpc (n +ℤ pos 1) count
  return (h ∷ rest)

-- The blocks of the batch, each the parent of the next.
unfoldable pub link : String → ℤ → List Header → Poll (List Block)
link previous n [] = return []
link previous n (h ∷ headers) = do
  fail_if (not (previous == "") && not (to_lower h.parent_hash == previous))
      (at_stage "canonicality" (plain (failure "chain changed during header fetch")))
  rest ← link (to_lower h.hash) (n +ℤ pos 1) headers
  return (record { number = n; hash = to_lower h.hash } ∷ rest)

-- `headers[n]`, in a batch that begins with block `from`.
unfoldable pub header_at : ℤ → List Header → ℤ → Option Header
header_at from [] n = none
header_at from (h ∷ headers) n =
    let rest = header_at (from +ℤ pos 1) headers n in if eqb_ℤ from n then some h else rest

abbrev pub event_ids : Abi → List String
event_ids abi =
    abi.deposit_funded_id ∷ abi.reserve_funded_id ∷ abi.reserve_claimed_id ∷ abi.withdrawal_id
    ∷ abi.winning_ticket_transfer_id ∷ abi.event_id ∷ []

module _ (rpc : Rpc) (abi : Abi) (c : Config) where
  abbrev pub known_topics : List String → Bool
  known_topics (id ∷ sender ∷ rest) =
      one_of id (event_ids abi) && one_of (topic_address sender) (distinct [] c.senders)
  known_topics topics = false

  -- A log of the requested contract and senders, in a canonical block of the batch.
  abbrev pub in_domain : Log → Header → Bool
  in_domain log h =
      h.hash == log.block_hash && log.address == to_lower c.contract && known_topics log.topics

  unfoldable pub decode_in : Log → Option Header → Poll EscrowEvent
  decode_in log none = fail (
      at_stage "canonicality"
        (plain (failure "RPC log does not match requested domain or canonical block")))
  decode_in log (some h) = do
    fail_if (not (in_domain log h)) (
        at_stage "canonicality"
          (plain (failure "RPC log does not match requested domain or canonical block")))
    fail_if (ltb ((2 ^ 63 - 1) / 1000) h.time)
        (plain (failure "block timestamp overflows milliseconds"))
    give (decode abi log c.chain_id (int64 (h.time) *ℤ pos 1000))

  unfoldable pub decode_log : ℤ → List Header → Log → Poll EscrowEvent
  unfolding decode_in header_at
  decode_log next headers log = do
    fail_if (log.removed || ltb (2 ^ 63 - 1) log.block_number || ltb (2 ^ 63 - 1) log.index)
        (plain (failure "invalid or removed RPC log"))
    decode_in log (header_at next headers (int64 (log.block_number)))

  unfoldable pub decode_logs : ℤ → List Header → List Log → Poll (List EscrowEvent)
  unfolding decode_log
  decode_logs next headers [] = return []
  decode_logs next headers (log ∷ logs) = do
    e ← decode_log next headers log
    rest ← decode_logs next headers logs
    return (e ∷ rest)

  abbrev pub last_hash : List Header → String
  last_hash [] = ""
  last_hash (h ∷ []) = h.hash
  last_hash (h ∷ g ∷ headers) = last_hash (g ∷ headers)

  abbrev pub query_of : ℤ → ℤ → FilterQuery
  query_of next last = record {
    from_block = next;
    to_block = last;
    contract = to_lower c.contract;
    event_ids = event_ids abi;
    senders = map address_topic (distinct [] c.senders);
  }

  -- The events of the batch, once its last block is still the same.
  unfoldable pub read_events : ℤ → ℤ → List Header → List Log → Poll (List EscrowEvent)
  unfolding decode_logs
  read_events next last headers logs = do
    unique ← give (ordered_unique_logs logs)
    decoded ← decode_logs next headers unique
    events ← give (correlate_redemptions decoded)
    again ← header rpc last
    fail_if (not (again.hash == last_hash headers))
        (at_stage "canonicality" (plain (failure "chain changed during log fetch")))
    return events

  unfoldable pub fetch_events : ℤ → ℤ → List Header → Poll (List EscrowEvent)
  unfolding read_events
  fetch_events next last headers = do
    logs ← during "rpc" (request (rpc.filter_logs (query_of next last)))
    during "decode" (read_events next last headers logs)
