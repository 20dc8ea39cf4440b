-- ===== src/Chain/Tests.antt =====
-- Tests for internal/chain: a node with two blocks behind block 4, and a deposit in the first one.
use clearinghouse_batteries.Base.{
  ℕ, ◌+◌, ◌-◌, String, concat, ◌≡◌, refl, ◌↔◌, Option, none, some, Bool, false, List, [], ◌∷◌,
  if◌then◌else◌,
}
use clearinghouse_batteries.Base.Int.{ℤ, pos, pos_part, ◌<ℤ◌, eqb_ℤ}
use clearinghouse_batteries.Base.Text.{sprint}
use clearinghouse_batteries.Base.Exec.{Result, ok, err, failure}
use clearinghouse_batteries.Db.{World}
use clearinghouse_batteries.Store.Ledger.Sound.{Sound}
use clearinghouse_batteries.Store.Settlements.Events.{
  EscrowEvent, Settlement, reserve_claimed, winning_ticket_transfer, winning_ticket_redeemed,
}
use clearinghouse_batteries.Chain.Logs.{Log, Abi, RedemptionData, log_before, ordered_unique_logs}
use clearinghouse_batteries.Chain.Logs.Ordered.{OrderedUnique, ordered_unique_logs-OrderedUnique}
use clearinghouse_batteries.Chain.Redemptions.{correlate_redemptions, big_int}
use clearinghouse_batteries.Chain.Redemptions.Correlated.{Correlated, correlate_redemptions_iff}
use clearinghouse_batteries.Chain.Config.{Config, stream, validate}
use clearinghouse_batteries.Chain.Polling.{Rpc, Header, Outcome}

abbrev broker : String
broker = "0x00000000000000000000000000000000000000bb"

abbrev signer : String
signer = "0x00000000000000000000000000000000000000aa"

abbrev signer_topic : String
signer_topic = "0x00000000000000000000000000000000000000000000000000000000000000aa"

abbrev config : Config
config = record {
  chain_id = "42161";
  contract = broker;
  senders = "0x00000000000000000000000000000000000000AA" ∷ signer ∷ [];
  start = some (pos 5);
  confirmations = pos 1;
  batch_size = pos 2;
  lookback = pos 10;
  poll = pos 1_000;
}

config_valid : validate config ≡ ok tt
unfolding validate clearinghouse_batteries.Store.Amount.amount
    clearinghouse_batteries.Base.Text.bytes clearinghouse_batteries.Base.Text.all_bytes
    clearinghouse_batteries.Base.Text.decimal_value clearinghouse_batteries.Store.Amount.address
config_valid = refl

-- Case and repetition do not matter.
config_stream : stream config ≡ concat "42161:" (concat broker (concat ":" signer))
unfolding stream clearinghouse_batteries.Base.Text.to_lower
    clearinghouse_batteries.Base.Sort.compact_by clearinghouse_batteries.Base.Sort.sort_by
    clearinghouse_batteries.Chain.Config.text_before
config_stream = refl

abbrev deposit : Log
deposit = record {
  address = broker;
  topics = "deposit" ∷ signer_topic ∷ [];
  payload = "70";
  block_number = 5;
  tx_hash = "0xt1";
  block_hash = "0xh5";
  index = 2;
  removed = false;
}

abbrev block : ℤ → Header
block n = record {
  number = some n;
  hash = concat "0xh" (sprint n);
  parent_hash = concat "0xh" (sprint (pos (pos_part n - 1)));
  time = 100 + pos_part n;
}

abbrev latest : Option ℤ → ℤ
latest none = pos 7
latest (some n) = n

abbrev node : Rpc
node = record {
  chain_id = λ n. ok (some (pos 42_161));
  header_by_number = λ number n. ok (some (block (latest number)));
  filter_logs =
      λ query n. ok (if eqb_ℤ query.from_block (pos 5) then deposit ∷ deposit ∷ [] else []);
  call_contract = λ to question number n. ok "";
}

abbrev test_abi : Abi
test_abi = record {
  deposit_funded_id = "deposit";
  reserve_funded_id = "reserve";
  reserve_claimed_id = "claim";
  withdrawal_id = "withdrawal";
  winning_ticket_transfer_id = "transfer";
  event_id = "redeemed";
  unpack_amount = λ name payload. ok (big_int payload);
  unpack_claim = λ payload. ok (signer, big_int payload);
  unpack_withdrawal = λ payload. ok (none, none);
  unpack_redemption = λ payload. err (failure "no redemption");
  pm_session = λ rand. sprint rand;
  pack_sender_info = λ sender. ok sender;
  unpack_sender_info = λ answer. ok (none, none);
  pack_contract = ok "TicketBroker";
  unpack_contract = λ answer. ok [];
}

one_deposit :
    ordered_unique_logs (deposit ∷ record deposit { index = 1 } ∷ deposit ∷ [])
    ≡ ok (record deposit { index = 1 } ∷ deposit ∷ [])
unfolding ordered_unique_logs clearinghouse_batteries.Base.Sort.sort_by log_before
one_deposit = refl

ordered_unique_logs-OrderedUnique_example :
    OrderedUnique
      (deposit ∷ record deposit { index = 1 } ∷ deposit ∷ [])
      (record deposit { index = 1 } ∷ deposit ∷ [])
ordered_unique_logs-OrderedUnique_example =
    ordered_unique_logs-OrderedUnique (deposit ∷ record deposit { index = 1 } ∷ deposit ∷ [])
      (record deposit { index = 1 } ∷ deposit ∷ []) one_deposit

abbrev payment : String → String → EscrowEvent
payment kind amount = record {
  kind = kind;
  chain_id = "42161";
  contract = broker;
  tx_hash = "0xt2";
  block_hash = "0xh6";
  sender = signer;
  recipient = "0xr";
  amount = amount;
  deposit_amount = "0";
  reserve_amount = "0";
  log_index = pos 3;
  block_number = pos 6;
  timestamp = pos 106_000;
  settlement = none;
}

abbrev settlement : Settlement
settlement = record {
  chain_id = "42161";
  contract = broker;
  tx_hash = "0xt2";
  block_hash = "0xh6";
  sender = signer;
  recipient = "0xr";
  face_value = "100";
  paid_amount = "";
  deposit_paid = "";
  reserve_paid = "";
  win_prob = "1";
  nonce = "2";
  rand = "3";
  pm_session_id = "0xp";
  aux_data = "0x";
  log_index = pos 3;
  block_number = pos 6;
  timestamp = pos 106_000;
}

-- 90 of 100 are paid, 30 of them out of the reserve.
abbrev group : List EscrowEvent
group =
    payment reserve_claimed "30"
    ∷ payment winning_ticket_transfer "90"
    ∷ record (payment winning_ticket_redeemed "100") { settlement = some settlement }
    ∷ []

abbrev completed : List EscrowEvent
completed =
    payment reserve_claimed "30"
    ∷ payment winning_ticket_transfer "90"
    ∷ record (payment winning_ticket_redeemed "100") {
      deposit_amount = "60";
      reserve_amount = "30";
      settlement =
          some (record settlement { paid_amount = "90"; deposit_paid = "60"; reserve_paid = "30" });
    }
    ∷ []

group-completed : correlate_redemptions group ≡ ok completed
unfolding correlate_redemptions clearinghouse_batteries.Chain.Redemptions.same_payment big_int
    clearinghouse_batteries.Base.Text.bytes clearinghouse_batteries.Base.Text.all_bytes
    clearinghouse_batteries.Base.Text.decimal_value sprint clearinghouse_batteries.Base.Int.◌-ℤ◌
group-completed = refl

correlate_redemptions_iff_example :
    (correlate_redemptions group ≡ ok completed) ↔ Correlated group completed
correlate_redemptions_iff_example = correlate_redemptions_iff group completed
