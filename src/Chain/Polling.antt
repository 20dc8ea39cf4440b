-- ===== src/Chain/Polling.antt =====
-- internal/chain/listener.go: the failures of a poll with their stages, and what a poll asks of the
-- Ethereum node. The node is a parameter: its answers, one for each time it is asked.
pub mod Steady
pub mod Gives
use clearinghouse_batteries.Base.{
  ℕ, suc, ◌^◌, String, Option, none, some, Bool, true, false, not, ◌&&◌, if◌then◌else◌, List,
}
use clearinghouse_batteries.Base.Int.{ℤ, pos, neg, eqb_ℤ, is_negative, ltb_ℤ}
use clearinghouse_batteries.Base.Exec.{Error, Result, ok, err, failure}
use clearinghouse_batteries.Db.{World}
use clearinghouse_batteries.Db.Tx.{Tx}
use clearinghouse_batteries.Store.Ingest.{max_int64}
use clearinghouse_batteries.Chain.Logs.{Log}

-- An error, the stage that `stageError` names, and whether a `fatalError` wraps it.
pub record Failure : Type 0 where
  pub error : Error
  pub stage : Option String
  pub fatal : Bool

pub data Outcome (A : Type 0) : Type 0 where
  done : A → Outcome A
  failed : Failure → Outcome A

abbrev pub Poll : Type 0 → Type 0
Poll A = World → Outcome A × World

abbrev pub stage_or : String → Option String → Option String
stage_or stage none = some stage
stage_or stage (some inner) = some inner

-- `atStage` keeps a stage that the error has.
unfoldable pub at_stage : String → Failure → Failure
at_stage stage f = record f { stage = stage_or stage f.stage }

abbrev pub stage_name : Option String → String
stage_name none = "poll"
stage_name (some stage) = stage

unfoldable pub failure_stage : Failure → String
failure_stage f = stage_name f.stage

abbrev pub plain : Error → Failure
plain e = record { error = e; stage = none; fatal = false }

abbrev pub fatal : Error → Failure
fatal e = record { error = e; stage = none; fatal = true }

abbrev pub outcome_of : {A : Type 0} → Result A → Outcome A
outcome_of (ok a) = done a
outcome_of (err e) = failed (plain e)

abbrev pub staged : {A : Type 0} → String → Outcome A → Outcome A
staged stage (done a) = done a
staged stage (failed f) = failed (at_stage stage f)

module _ {A : Type 0} where
  unfoldable pub return : A → Poll A
  return a w = (done a, w)

  unfoldable pub fail : Failure → Poll A
  fail f w = (failed f, w)

  unfoldable pub give : Result A → Poll A
  give r w = (outcome_of r, w)

  -- A call of the store.
  unfoldable pub call : Tx A → Poll A
  call m w = let (r, w') = m w in (outcome_of r, w')

  -- A call of the node, which is one of the draws of the environment.
  unfoldable pub request : (ℕ → Result A) → Poll A
  request f w = (outcome_of (f w.draws), record w { draws = suc w.draws })

  -- The calls made while the variable `stage` has a value.
  unfoldable pub during : String → Poll A → Poll A
  unfolding at_stage
  during stage m w = let (r, w') = m w in (staged stage r, w')

unfoldable pub fail_if : Bool → Failure → Poll (Unit {0})
unfolding return fail
fail_if b f = if b then fail f else return tt

module _ {A B : Type 0} where
  abbrev pub continue : Outcome A → (A → Poll B) → Poll B
  continue (done a) f w = f a w
  continue (failed e) f w = (failed e, w)

  infixl 10 ◌>>=◌ ◌>>◌
  unfoldable pub ◌>>=◌ : Poll A → (A → Poll B) → Poll B
  unfolding return fail give call request during fail_if
  ◌>>=◌ m f w = let (r, w') = m w in continue r f w'

  abbrev pub ◌>>◌ : Poll A → Poll B → Poll B
  m >> n = m >>= λ _. n

-- `types.Header`; a number that is missing is a nil pointer.
pub record Header : Type 0 where
  pub number : Option ℤ
  pub hash : String
  pub parent_hash : String
  pub time : ℕ

-- `ethereum.FilterQuery`: the range of blocks, the contract, and the two lists of topics.
pub record FilterQuery : Type 0 where
  pub from_block : ℤ
  pub to_block : ℤ
  pub contract : String
  pub event_ids : List String
  pub senders : List String

pub record Rpc : Type 0 where
  pub chain_id : ℕ → Result (Option ℤ)
  -- `none` asks for the latest header.
  pub header_by_number : Option ℤ → ℕ → Result (Option Header)
  pub filter_logs : FilterQuery → ℕ → Result (List Log)
  pub call_contract : String → String → Option ℤ → ℕ → Result String

abbrev pub is_int64 : ℤ → Bool
is_int64 n = not (ltb_ℤ max_int64 n) && not (ltb_ℤ n (neg (pos (2 ^ 63))))

abbrev pub has_number : ℤ → Option Header → Bool
has_number n none = false
has_number n (some h) = elim (h.number) [ none ↦ false | some k ↦ is_int64 k && eqb_ℤ k n ]

abbrev pub checked_header : Bool → Error → Option Header → Poll Header
checked_header good e none = fail (at_stage "canonicality" (plain e))
checked_header good e (some h) = if good then return h else fail (at_stage "canonicality" (plain e))

unfoldable pub header : Rpc → ℤ → Poll Header
header rpc n = do
  found ← during "rpc" (request (rpc.header_by_number (some n)))
  checked_header (has_number n found) (failure "RPC returned wrong block header") found

-- The number of a head that can be used.
abbrev pub head_number : Option Header → Option ℤ
head_number none = none
head_number (some h) = elim (h.number) [
  | none ↦ none
  | some k ↦ if is_int64 k && not (is_negative k) && not (eqb_ℤ k max_int64) then some k else none
]

abbrev pub checked_head : Option ℤ → Poll ℤ
checked_head none = fail (at_stage "canonicality" (plain (failure "invalid head")))
checked_head (some n) = return n

-- The number of the latest header; its time is a metric.
unfoldable pub latest_header : Rpc → Poll ℤ
latest_header rpc = do
  found ← during "rpc" (request (rpc.header_by_number none))
  checked_head (head_number found)
