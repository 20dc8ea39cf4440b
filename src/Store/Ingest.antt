-- ===== src/Store/Ingest.antt =====
-- internal/store/ingest.go: `Ingest`, one Kafka message in one transaction.
pub mod Classify
pub mod Charge
pub mod Sound
pub mod Frame
pub mod Effect
pub mod Order
pub mod Once
pub mod Ticket
pub mod Tests
use clearinghouse_batteries.Base.{
  ℕ, ◌-◌, ◌^◌, String, concat, Option, none, some, Bool, true, false, not, ◌&&◌, ◌||◌, ◌==◌,
  if◌then◌else◌, List, [], ◌∷◌, ◌++◌,
}
use clearinghouse_batteries.Base.Int.{ℤ, pos, ◌+ℤ◌, ltb_ℤ, eqb_ℤ, is_negative}
use clearinghouse_batteries.Base.Text.{sprint}
use clearinghouse_batteries.Base.Exec.{failure, pure, raise, raise_if, ◌>>=◌, ◌>>◌}
use clearinghouse_batteries.Db.Tx.{Tx, query, write}
use clearinghouse_batteries.Store.Position.{kafka_stream, next_position, set_checkpoint}
use clearinghouse_batteries.Store.Ingest.Classify.{Codec, Draft, classify}
use clearinghouse_batteries.Store.Ingest.Charge.{record_usage}

abbrev pub max_int32 : ℤ
max_int32 = pos (2 ^ 31 - 1)

abbrev pub max_int64 : ℤ
max_int64 = pos (2 ^ 63 - 1)

abbrev pub offset_gap : String → ℤ → ℤ → ℤ → String
offset_gap topic partition next offset = concat "kafka offset gap for " (
    concat topic (
      concat " partition " (
        concat (sprint partition)
          (concat ": expected " (concat (sprint next) (concat ", received " (sprint offset)))))))

-- A new message: its record, what follows from it, and the next offset.
unfoldable pub ingest_next : Codec → String → ℤ → ℤ → String → Tx Draft
ingest_next codec topic partition offset raw = do
  draft ← classify codec raw
  record_usage topic partition offset raw draft
  set_checkpoint "kafka" (kafka_stream topic partition) (offset +ℤ pos 1) ""
  pure draft

-- The body of the transaction; `none` when the offset is already committed.
unfoldable pub ingest_offset : Codec → String → ℤ → ℤ → String → Tx (Option Draft)
unfolding ingest_next
ingest_offset codec topic partition offset raw = do
  next ← query (next_position "kafka" (kafka_stream topic partition))
  (if ltb_ℤ offset next
      then pure none
      else if ltb_ℤ next offset
      then raise (failure (offset_gap topic partition next offset))
      else do draft ← ingest_next codec topic partition offset raw; pure (some draft))

unfoldable pub ingest : Codec → String → ℤ → ℤ → String → Tx (Option Draft)
unfolding ingest_offset
ingest codec topic partition offset raw = do
  raise_if (is_negative partition || ltb_ℤ max_int32 partition) (failure "invalid Kafka partition")
  raise_if (is_negative offset || eqb_ℤ offset max_int64) (failure "invalid Kafka offset")
  write (ingest_offset codec topic partition offset raw)
