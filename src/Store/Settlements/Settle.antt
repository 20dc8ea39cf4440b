-- ===== src/Store/Settlements/Settle.antt =====
-- internal/store/settlements.go: `applySettlement` and the counts and amounts of settlements.
use clearinghouse_batteries.Base.{
  String, concat, Option, none, some, Bool, not, ◌&&◌, ◌||◌, ◌==◌, if◌then◌else◌, [], ◌∷◌, ◌++◌,
}
use clearinghouse_batteries.Base.Int.{
  ℤ, pos, negsuc, ◌+ℤ◌, ◌-ℤ◌, ◌*ℤ◌, eqb_ℤ, ltb_ℤ, is_positive, min_ℤ,
}
use clearinghouse_batteries.Base.Lists.{find, update}
use clearinghouse_batteries.Base.Text.{sprint}
use clearinghouse_batteries.Base.Exec.{failure, pure, raise, lift, raise_if, when, ◌>>=◌, ◌>>◌}
use clearinghouse_batteries.Db.{SettlementRow}
use clearinghouse_batteries.Db.Tx.{Tx, fresh_id, now, query, execute}
use clearinghouse_batteries.Store.Amount.{amount}
use clearinghouse_batteries.Store.Summary.{change_metric_amount, change_metric_count, bool_count}
use clearinghouse_batteries.Store.Ledger.{balance, transfer}
use clearinghouse_batteries.Store.Rematch.{rematch}
use clearinghouse_batteries.Store.Settlements.Events.{
  Settlement, treasury_owner, escrow_owner, require_balance,
}

abbrev pub sign_of : String → String → ℤ
sign_of old next = bool_count (next == "settled") -ℤ bool_count (old == "settled")

abbrev pub shortfall : ℤ → ℤ → ℤ
shortfall face paid = if ltb_ℤ paid face then face -ℤ paid else pos 0

unfoldable pub update_settlement_metrics : String → String → String → ℤ → ℤ → Tx (Unit {0})
update_settlement_metrics old next matching face paid = if old == next then pure tt else do
  when (not (old == "")) (change_metric_count "settlements" old matching (negsuc 0))
  change_metric_count "settlements" next matching (pos 1)
  change_metric_amount "settlement_face_value" "eth" (face *ℤ sign_of old next)
  change_metric_amount "settlement_paid" "eth" (paid *ℤ sign_of old next)
  change_metric_amount "settlement_shortfall" "eth" (shortfall face paid *ℤ sign_of old next)
  change_metric_count "settlements_underpaid" "" ""
      (sign_of old next *ℤ bool_count (is_positive (shortfall face paid)))

-- `WHERE chain_id=? AND contract_address=? AND block_hash=? AND tx_hash=? AND log_index=?`
abbrev pub is_settlement : Settlement → SettlementRow → Bool
is_settlement event row =
    row.chain_id == event.chain_id
    && row.contract_address == event.contract
    && row.block_hash == event.block_hash
    && row.tx_hash == event.tx_hash
    && eqb_ℤ row.log_index event.log_index

-- A stored settlement that carries the same data.
unfoldable pub agrees : Settlement → SettlementRow → Bool
agrees event stored =
    eqb_ℤ stored.block_number event.block_number
    && stored.sender == event.sender
    && stored.recipient == event.recipient
    && stored.face_value_wei == event.face_value
    && stored.paid_amount_wei == event.paid_amount
    && stored.deposit_paid_wei == event.deposit_paid
    && stored.reserve_paid_wei == event.reserve_paid
    && stored.win_probability == event.win_prob
    && stored.sender_nonce == event.nonce
    && stored.recipient_rand == event.rand
    && stored.pm_session_id == event.pm_session_id
    && stored.aux_data == event.aux_data

-- A settlement as `applySettlement` goes on with it: its row's id, the status, the match and the
-- generation under which its payment is posted.
pub record Posting : Type 0 where
  pub id : String
  pub old_status : String
  pub matching : String
  pub generation : ℤ

unfoldable pub insert_settlement : Settlement → Tx Posting
insert_settlement event = do
  id ← fresh_id
  at ← now
  execute λ db. record db {
    settlements =
        db.settlements
        ++ record {
          id = id;
          chain_id = event.chain_id;
          contract_address = event.contract;
          tx_hash = event.tx_hash;
          log_index = event.log_index;
          block_number = event.block_number;
          block_hash = event.block_hash;
          sender = event.sender;
          recipient = event.recipient;
          face_value_wei = event.face_value;
          paid_amount_wei = event.paid_amount;
          deposit_paid_wei = event.deposit_paid;
          reserve_paid_wei = event.reserve_paid;
          win_probability = event.win_prob;
          sender_nonce = event.nonce;
          recipient_rand = event.rand;
          pm_session_id = event.pm_session_id;
          aux_data = event.aux_data;
          payment_session_id = none;
          match_status = "unmatched";
          status = "settled";
          generation = pos 0;
          created_at_ms = at;
          settled_at_ms = event.timestamp;
        }
          ∷ [];
  }
  pure (record { id = id; old_status = ""; matching = "unmatched"; generation = pos 0 })

abbrev pub has_settlement_id : String → SettlementRow → Bool
has_settlement_id id row = row.id == id

unfoldable pub restore_settlement : Settlement → SettlementRow → Tx Posting
restore_settlement event stored = do
  let next = stored.generation +ℤ pos 1
  execute λ db. record db {
    settlements =
        update (has_settlement_id stored.id)
          (λ r. record r { status = "settled"; generation = next; settled_at_ms = event.timestamp })
          db.settlements;
  }
  pure (record {
    id = stored.id;
    old_status = stored.status;
    matching = stored.match_status;
    generation = next;
  })

-- `settle:%s:%d`
unfoldable pub posting_key : String → String → ℤ → String
posting_key prefix id generation = concat prefix (concat id (concat ":" (sprint generation)))

unfoldable pub pay_settlement : Settlement → Posting → ℤ → ℤ → ℤ → ℤ → Tx (Unit {0})
unfolding update_settlement_metrics
pay_settlement event posting face paid deposit_paid reserve_paid = do
  update_settlement_metrics posting.old_status "settled" posting.matching face paid
  let escrow = escrow_owner event.chain_id event.contract event.sender
  let spend = treasury_owner event.chain_id event.sender
  deposit_balance ← balance "escrow_deposit" escrow
  raise_if (not (eqb_ℤ deposit_paid (min_ℤ face deposit_balance)))
      (failure "redemption deposit payment mismatch")
  require_balance "escrow_reserve" escrow reserve_paid
  let key = posting_key "settle:" posting.id posting.generation
  transfer (concat key ":deposit") "winning ticket deposit payment" "settlement" posting.id
      "escrow_deposit" escrow "treasury_settled_spend" spend deposit_paid
  transfer (concat key ":reserve") "winning ticket reserve payment" "settlement" posting.id
      "escrow_reserve" escrow "treasury_settled_spend" spend reserve_paid
  rematch event.pm_session_id event.recipient

abbrev pub settle_known : Settlement → Option SettlementRow → ℤ → ℤ → ℤ → ℤ → Tx (Unit {0})
settle_known event none face paid deposit_paid reserve_paid = do
  posting ← insert_settlement event
  pay_settlement event posting face paid deposit_paid reserve_paid
settle_known event (some stored) face paid deposit_paid reserve_paid =
    if not (agrees event stored)
    then raise (failure "settlement log identity reused with different data")
    else if stored.status == "settled"
    then pure tt
    else do
      posting ← restore_settlement event stored
      pay_settlement event posting face paid deposit_paid reserve_paid

unfoldable pub apply_settlement : Settlement → Tx (Unit {0})
unfolding insert_settlement restore_settlement pay_settlement
apply_settlement event = do
  face ← lift (amount event.face_value)
  paid ← lift (amount event.paid_amount)
  deposit_paid ← lift (amount event.deposit_paid)
  reserve_paid ← lift (amount event.reserve_paid)
  raise_if (not (eqb_ℤ (deposit_paid +ℤ reserve_paid) paid) || ltb_ℤ face paid)
      (failure "invalid redemption payment split")
  known ← query (λ db. find (is_settlement event) db.settlements)
  settle_known event known face paid deposit_paid reserve_paid
