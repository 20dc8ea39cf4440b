-- ===== src/Store/Rematch.antt =====
-- internal/store/ingest.go: `rematch`, the attribution of settlements to payment sessions.
use clearinghouse_batteries.Base.{
  String, Option, none, some, Bool, true, false, not, ◌&&◌, ◌||◌, ◌==◌, if◌then◌else◌, List, [],
  ◌∷◌,
}
use clearinghouse_batteries.Base.Int.{ℤ, pos, ◌+ℤ◌, neg}
use clearinghouse_batteries.Base.Lists.{any, update}
use clearinghouse_batteries.Base.Exec.{pure, ◌>>=◌, ◌>>◌, for_each}
use clearinghouse_batteries.Db.{SigningAuthorization, SettlementRow}
use clearinghouse_batteries.Db.Tx.{Tx, query, execute}
use clearinghouse_batteries.Store.Summary.{change_metric_count}

-- `SELECT DISTINCT payment_session_id … WHERE pm_session_id=? AND orchestrator=?`
unfoldable pub matching_sessions : String → String → List SigningAuthorization → List String
matching_sessions pm orch [] = []
matching_sessions pm orch (a ∷ rest) =
    let ids = matching_sessions pm orch rest in
    if a.pm_session_id == pm
      && a.orchestrator == orch
      && not (any (λ i. i == a.payment_session_id) ids)
    then a.payment_session_id ∷ ids
    else ids

-- No session, one, or more: the status, and the session of a settlement.
unfoldable pub attribution : List String → String × Option String
attribution [] = ("unmatched", none)
attribution (i ∷ []) = ("matched", some i)
attribution (i ∷ j ∷ ids) = ("ambiguous", none)

-- `payment_session_id IS ?`
abbrev pub same_session : Option String → Option String → Bool
same_session none none = true
same_session (some a) (some b) = a == b
same_session _ _ = false

abbrev pub is_changed : String → String → String × Option String → SettlementRow → Bool
is_changed pm orch (status, id) row =
    row.pm_session_id == pm
    && row.recipient == orch
    && (not (row.match_status == status) || not (same_session row.payment_session_id id))

pub record Bucket : Type 0 where
  pub state : String
  pub matching : String
  pub count : ℤ

add_to_bucket : String → String → List Bucket → List Bucket
add_to_bucket state matching [] = record { state = state; matching = matching; count = pos 1 } ∷ []
add_to_bucket state matching (b ∷ bs) =
    if b.state == state && b.matching == matching
    then record b { count = b.count +ℤ pos 1 } ∷ bs
    else b ∷ add_to_bucket state matching bs

-- `SELECT status,match_status,count(*) … GROUP BY status,match_status`
unfoldable pub buckets_where : (SettlementRow → Bool) → List SettlementRow → List Bucket
unfolding add_to_bucket
buckets_where p [] = []
buckets_where p (s ∷ rest) =
    let bs = buckets_where p rest in if p s then add_to_bucket s.status s.match_status bs else bs

unfoldable pub move_bucket : String → Bucket → Tx (Unit {0})
move_bucket status b = if b.matching == status then pure tt else do
  change_metric_count "settlements" b.state b.matching (neg b.count)
  change_metric_count "settlements" b.state status b.count

abbrev pub attribute : String × Option String → SettlementRow → SettlementRow
attribute (status, id) row = record row { payment_session_id = id; match_status = status }

abbrev no_buckets : List Bucket → Bool
no_buckets [] = true
no_buckets (b ∷ bs) = false

unfoldable pub rematch : String → String → Tx (Unit {0})
unfolding move_bucket
rematch pm orch = do
  ids ← query (λ db. matching_sessions pm orch db.authorizations)
  let target = attribution ids
  buckets ← query (λ db. buckets_where (is_changed pm orch target) db.settlements)
  if no_buckets buckets then pure tt else do
    for_each buckets (move_bucket target.0)
    execute λ db. record db {
      settlements = update (is_changed pm orch target) (attribute target) db.settlements;
    }
