-- ===== src/Chain/Logs.antt =====
-- internal/chain/listener.go: the order of the logs, and their decoding. An address or a hash is
-- its lower-case hex text; ABI decoding and Keccak-256 of go-ethereum are parameters.
pub mod Ordered
use clearinghouse_batteries.Base.{
  ℕ, zero, suc, ◌-◌, ◌%◌, ◌^◌, String, concat, Option, none, some, Bool, true, false, not, ◌&&◌,
  ◌||◌, ◌==◌, if◌then◌else◌, List, [], ◌∷◌, nat_eq, ltb,
}
use clearinghouse_batteries.Base.Int.{ℤ, pos, negsuc}
use clearinghouse_batteries.Base.Sort.{sort_by}
use clearinghouse_batteries.Base.Text.{sprint}
use clearinghouse_batteries.Base.Exec.{Result, ok, err, failure, bind_result, map_result}
use clearinghouse_batteries.Store.Settlements.Events.{
  EscrowEvent, Settlement, deposit_funded, reserve_funded, reserve_claimed, withdrawal,
  winning_ticket_transfer, winning_ticket_redeemed,
}

-- `types.Log`; `payload` is its `Data`.
pub record Log : Type 0 where
  pub address : String
  pub topics : List String
  pub payload : String
  pub block_number : ℕ
  pub tx_hash : String
  pub block_hash : String
  pub index : ℕ
  pub removed : Bool

-- By block, then by index.
unfoldable pub log_before : Log → Log → Bool
log_before a b =
    if nat_eq a.block_number b.block_number
    then ltb a.index b.index
    else ltb a.block_number b.block_number

abbrev pub same_topics : List String → List String → Bool
same_topics [] [] = true
same_topics (s ∷ ss) (t ∷ ts) = (s == t) && same_topics ss ts
same_topics [] (t ∷ ts) = false
same_topics (s ∷ ss) [] = false

abbrev pub same_identity : Log → Log → Bool
same_identity a b = a.block_hash == b.block_hash && a.tx_hash == b.tx_hash && nat_eq a.index b.index

abbrev pub same_bool : Bool → Bool → Bool
same_bool true b = b
same_bool false b = not b

abbrev pub same_content : Log → Log → Bool
same_content a b =
    a.address == b.address
    && nat_eq a.block_number b.block_number
    && same_bool a.removed b.removed
    && same_topics a.topics b.topics
    && a.payload == b.payload

-- Whether a log repeats the last one that was kept.
unfoldable pub repeats : Option Log → Log → Result Bool
repeats none log = ok false
repeats (some previous) log =
    if same_identity previous log
    then (if same_content previous log
        then ok true
        else err (failure "RPC returned conflicting logs with the same identity"))
    else ok false

unfoldable pub unique_logs : Option Log → List Log → Result (List Log)
unfolding repeats
unique_logs previous [] = ok []
unique_logs previous (log ∷ logs) = bind_result (repeats previous log) λ again.
    map_result (λ rest. if again then rest else log ∷ rest)
      (unique_logs (if again then previous else some log) logs)

unfoldable pub ordered_unique_logs : List Log → Result (List Log)
unfolding unique_logs
ordered_unique_logs logs = unique_logs none (sort_by log_before logs)

-- What `UnpackIntoInterface` reads from the payload of a redemption; `none` is a nil pointer.
pub record RedemptionData : Type 0 where
  pub face_value : Option ℤ
  pub win_prob : Option ℤ
  pub sender_nonce : Option ℤ
  pub recipient_rand : Option ℤ
  pub aux_data : String

-- The ids of the events, the payloads of each, and the PM session of a random number:
-- Keccak-256 of its 32 bytes. `aux_data` is the hex text of the bytes.
pub record Abi : Type 0 where
  pub deposit_funded_id : String
  pub reserve_funded_id : String
  pub reserve_claimed_id : String
  pub withdrawal_id : String
  pub winning_ticket_transfer_id : String
  pub event_id : String
  pub unpack_amount : String → String → Result (Option ℤ)
  pub unpack_claim : String → Result (String × Option ℤ)
  pub unpack_withdrawal : String → Result (Option ℤ × Option ℤ)
  pub unpack_redemption : String → Result RedemptionData
  pub pm_session : ℤ → String
  -- `getSenderInfo`: the deposit and the funds of the reserve.
  pub pack_sender_info : String → Result String
  pub unpack_sender_info : String → Result (Option ℤ × Option ℤ)
  -- `getContract` of the Controller: its values, `none` for one that is no address.
  pub pack_contract : Result String
  pub unpack_contract : String → Result (List (Option String))

unfoldable pub drop_chars : ℕ → String → String
drop_chars zero s = s
drop_chars (suc n) String.[] = String.[]
drop_chars (suc n) (String.◌∷◌ c s) = drop_chars n s

-- `common.BytesToAddress(topic.Bytes())`: the last 20 of 32 bytes.
unfoldable pub topic_address : String → String
unfolding drop_chars
topic_address topic = concat "0x" (drop_chars 26 topic)

-- `common.BytesToHash(address.Bytes())`: 12 zero bytes before the address.
unfoldable pub address_topic : String → String
unfolding drop_chars
address_topic address = concat "0x000000000000000000000000" (drop_chars 2 address)

-- `int64(n)` of an unsigned 64-bit number.
unfoldable pub int64 : ℕ → ℤ
int64 n = let m = n % 2 ^ 64 in if ltb m (2 ^ 63) then pos m else negsuc (2 ^ 64 - m - 1)

unfoldable pub event_base : Log → String → String → String → ℤ → EscrowEvent
event_base log sender chain_id kind timestamp = record {
  kind = kind;
  chain_id = chain_id;
  contract = log.address;
  tx_hash = log.tx_hash;
  block_hash = log.block_hash;
  sender = topic_address sender;
  recipient = "";
  amount = "0";
  deposit_amount = "0";
  reserve_amount = "0";
  log_index = int64 (log.index);
  block_number = int64 (log.block_number);
  timestamp = timestamp;
  settlement = none;
}

abbrev pub non_nil : {A : Type 0} → String → Option A → Result A
non_nil text none = err (failure text)
non_nil text (some a) = ok a

module _ (abi : Abi) (log : Log) (chain_id : String) (timestamp : ℤ) (sender : String) where
  abbrev base : String → EscrowEvent
  base kind = event_base log sender chain_id kind timestamp

  unfoldable pub decode_funding : String → String → List String → Result EscrowEvent
  decode_funding name kind (topic ∷ rest) = err (failure "invalid funding event topics")
  decode_funding name kind [] = bind_result (abi.unpack_amount name log.payload) λ found.
      map_result (λ n. record (base kind) { amount = sprint n })
        (non_nil "nil funding amount" found)

  unfoldable pub decode_claim : List String → Result EscrowEvent
  decode_claim (topic ∷ rest) = err (failure "invalid ReserveClaimed topics")
  decode_claim [] = bind_result (abi.unpack_claim log.payload) λ found.
      map_result (λ n. record (base reserve_claimed) { recipient = found.0; amount = sprint n })
        (non_nil "nil reserve claim amount" (found.1))

  unfoldable pub decode_withdrawal : List String → Result EscrowEvent
  decode_withdrawal (topic ∷ rest) = err (failure "invalid Withdrawal topics")
  decode_withdrawal [] = bind_result (abi.unpack_withdrawal log.payload) λ found.
      bind_result (non_nil "nil withdrawal amount" (found.0)) λ deposit.
        map_result
          (λ reserve. record (base withdrawal) {
            deposit_amount = sprint deposit;
            reserve_amount = sprint reserve;
          })
          (non_nil "nil withdrawal amount" (found.1))

  unfoldable pub decode_transfer : List String → Result EscrowEvent
  decode_transfer (recipient ∷ []) =
      bind_result (abi.unpack_amount "WinningTicketTransfer" log.payload) λ found.
        map_result
          (λ n. record (base winning_ticket_transfer) {
            recipient = topic_address recipient;
            amount = sprint n;
          })
          (non_nil "nil ticket transfer amount" found)
  decode_transfer topics = err (failure "invalid WinningTicketTransfer topics")

  -- The settlement of a redemption, with what was paid left open.
  abbrev pub settlement_of : EscrowEvent → ℤ → ℤ → ℤ → ℤ → String → Settlement
  settlement_of event face prob nonce rand aux = record {
    chain_id = chain_id;
    contract = event.contract;
    tx_hash = event.tx_hash;
    block_hash = event.block_hash;
    sender = event.sender;
    recipient = event.recipient;
    face_value = sprint face;
    paid_amount = "";
    deposit_paid = "";
    reserve_paid = "";
    win_prob = sprint prob;
    nonce = sprint nonce;
    rand = sprint rand;
    pm_session_id = abi.pm_session rand;
    aux_data = concat "0x" aux;
    log_index = event.log_index;
    block_number = event.block_number;
    timestamp = timestamp;
  }

  abbrev pub redeemed_event : String → ℤ → ℤ → ℤ → ℤ → String → EscrowEvent
  redeemed_event recipient face prob nonce rand aux =
      let event : EscrowEvent = record (base winning_ticket_redeemed) {
        recipient = topic_address recipient;
        amount = sprint face;
      } in
      record event { settlement = some (settlement_of event face prob nonce rand aux) }

  unfoldable pub decode_redemption : List String → Result EscrowEvent
  decode_redemption (recipient ∷ []) = bind_result (abi.unpack_redemption log.payload) λ found.
      bind_result (non_nil "nil redemption value" found.face_value) λ face.
        bind_result (non_nil "nil redemption value" found.win_prob) λ prob.
          bind_result (non_nil "nil redemption value" found.sender_nonce) λ nonce.
            map_result (λ rand. redeemed_event recipient face prob nonce rand found.aux_data)
              (non_nil "nil redemption value" found.recipient_rand)
  decode_redemption topics = err (failure "invalid WinningTicketRedeemed topics")

  unfoldable pub decode_event : String → List String → Result EscrowEvent
  unfolding decode_funding decode_claim decode_withdrawal decode_transfer decode_redemption
  decode_event id rest =
      if id == abi.deposit_funded_id
      then decode_funding "DepositFunded" deposit_funded rest
      else if id == abi.reserve_funded_id
      then decode_funding "ReserveFunded" reserve_funded rest
      else if id == abi.reserve_claimed_id
      then decode_claim rest
      else if id == abi.withdrawal_id
      then decode_withdrawal rest
      else if id == abi.winning_ticket_transfer_id
      then decode_transfer rest
      else if id == abi.event_id
      then decode_redemption rest
      else err (failure "unknown event signature")

unfoldable pub decode_topics : Abi → Log → String → ℤ → List String → Result EscrowEvent
unfolding decode_event
decode_topics abi log chain_id timestamp (id ∷ sender ∷ rest) =
    decode_event abi log chain_id timestamp sender id rest
decode_topics abi log chain_id timestamp topics = err (failure "invalid event topics")

unfoldable pub decode : Abi → Log → String → ℤ → Result EscrowEvent
unfolding decode_topics
decode abi log chain_id timestamp = decode_topics abi log chain_id timestamp log.topics
