-- ===== src/Store/Settlements/Events.antt =====
-- internal/store/settlements.go: blocks, chain events, and the owners of their accounts.
use clearinghouse_batteries.Base.{String, concat, Option, Bool, not, ◌&&◌, ◌==◌}
use clearinghouse_batteries.Base.Int.{ℤ, ltb_ℤ, eqb_ℤ}
use clearinghouse_batteries.Base.Exec.{failure, raise_if, ◌>>=◌}
use clearinghouse_batteries.Db.{ChainBlock}
use clearinghouse_batteries.Db.Tx.{Tx}
use clearinghouse_batteries.Store.Ledger.{balance}

abbrev pub deposit_funded : String
deposit_funded = "deposit_funded"

abbrev pub reserve_funded : String
reserve_funded = "reserve_funded"

abbrev pub reserve_claimed : String
reserve_claimed = "reserve_claimed"

abbrev pub withdrawal : String
withdrawal = "withdrawal"

abbrev pub winning_ticket_transfer : String
winning_ticket_transfer = "winning_ticket_transfer"

abbrev pub winning_ticket_redeemed : String
winning_ticket_redeemed = "winning_ticket_redeemed"

pub record Block : Type 0 where
  pub number : ℤ
  pub hash : String

pub record EscrowSnapshot : Type 0 where
  pub chain_id : String
  pub contract : String
  pub sender : String
  pub deposit : String
  pub reserve : String

pub record Settlement : Type 0 where
  pub chain_id : String
  pub contract : String
  pub tx_hash : String
  pub block_hash : String
  pub sender : String
  pub recipient : String
  pub face_value : String
  pub paid_amount : String
  pub deposit_paid : String
  pub reserve_paid : String
  pub win_prob : String
  pub nonce : String
  pub rand : String
  pub pm_session_id : String
  pub aux_data : String
  pub log_index : ℤ
  pub block_number : ℤ
  pub timestamp : ℤ

pub record EscrowEvent : Type 0 where
  pub kind : String
  pub chain_id : String
  pub contract : String
  pub tx_hash : String
  pub block_hash : String
  pub sender : String
  pub recipient : String
  pub amount : String
  pub deposit_amount : String
  pub reserve_amount : String
  pub log_index : ℤ
  pub block_number : ℤ
  pub timestamp : ℤ
  pub settlement : Option Settlement

unfoldable pub treasury_owner : String → String → String
treasury_owner chain sender = concat chain (concat ":" sender)

unfoldable pub escrow_owner : String → String → String → String
escrow_owner chain contract sender = concat chain (concat ":" (concat contract (concat ":" sender)))

unfoldable pub require_balance : String → String → ℤ → Tx (Unit {0})
require_balance account owner n = do
  have ← balance account owner
  raise_if (ltb_ℤ have n) (failure (concat "insufficient " (concat account " balance")))

unfoldable pub require_exact_balance : String → String → ℤ → Tx (Unit {0})
require_exact_balance account owner n = do
  have ← balance account owner
  raise_if (not (eqb_ℤ have n)) (failure (concat account " balance mismatch"))

abbrev pub is_block : String → ℤ → ChainBlock → Bool
is_block stream number row = row.stream == stream && eqb_ℤ row.number number
