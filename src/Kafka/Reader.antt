-- ===== src/Kafka/Reader.antt =====
-- internal/kafka/listener.go: the readers of the partitions. The reader of segmentio/kafka-go is
-- the list of what its `ReadMessage` returns, up to the end of the context.
pub mod Order
use clearinghouse_batteries.Base.{
  ℕ, zero, suc, String, concat, Option, none, some, Bool, true, false, not, ◌||◌, ◌==◌,
  if◌then◌else◌, List, [], ◌∷◌,
}
use clearinghouse_batteries.Base.Int.{ℤ, pos, ◌+ℤ◌, ltb_ℤ, eqb_ℤ}
use clearinghouse_batteries.Base.Text.{sprint}
use clearinghouse_batteries.Base.Exec.{
  Error, Result, ok, err, failure, lift, pure, raise, raise_if, ◌>>=◌, ◌>>◌,
}
use clearinghouse_batteries.Db.Tx.{Tx, query}
use clearinghouse_batteries.Store.Position.{kafka_stream, next_position}
use clearinghouse_batteries.Store.Ingest.{ingest, offset_gap}
use clearinghouse_batteries.Store.Ingest.Classify.{Codec, Draft}
use clearinghouse_batteries.Kafka.Broker.{Listener, explain, partitions, offsets}

pub record Message : Type 0 where
  pub offset : ℤ
  pub value : String

-- "kafka topic … partition …", the prefix of an error.
abbrev pub at_partition : String → ℤ → String
at_partition topic partition =
    concat "kafka topic " (concat topic (concat " partition " (sprint partition)))

abbrev pub outside_offsets : String → ℤ → ℤ → ℤ → ℤ → String
outside_offsets topic partition next first last = concat (at_partition topic partition) (
    concat " checkpoint " (
      concat (sprint next) (
        concat " outside retained offsets [" (
          concat (sprint first)
            (concat "," (concat (sprint last) "]; broker data was lost or replaced"))))))

unfoldable pub explained : {A : Type 0} → String → Tx A → Tx A
explained text m w = let (r, w') = m w in (explain text r, w')

-- The offset from which to read: the checkpoint, if the broker still retains it.
unfoldable pub open_reader : Listener → ℤ → Tx ℤ
unfolding explained offsets
open_reader l partition = do
  next ← query (next_position "kafka" (kafka_stream l.topic partition))
  range ← explained (concat (at_partition l.topic partition) " offsets") (offsets l partition)
  raise_if (ltb_ℤ next range.0 || ltb_ℤ range.1 next)
      (failure (outside_offsets l.topic partition next range.0 range.1))
  pure next

-- One round of the loop: the message must be the next one.
unfoldable pub read_message : Codec → String → ℤ → ℤ → Result Message → Tx (Option Draft)
unfolding explained
read_message codec topic partition next delivery = do
  message ← lift (explain (at_partition topic partition) delivery)
  raise_if (not (eqb_ℤ message.offset next))
      (failure (offset_gap topic partition next message.offset))
  explained (at_partition topic partition)
      (ingest codec topic partition message.offset message.value)

unfoldable pub read_partition : Codec → String → ℤ → ℤ → List (Result Message) → Tx (Unit {0})
unfolding read_message
read_partition codec topic partition next [] = pure tt
read_partition codec topic partition next (delivery ∷ deliveries) = do
  read_message codec topic partition next delivery
  read_partition codec topic partition (next +ℤ pos 1) deliveries

-- The readers, each with the offset that it expects.
unfoldable pub open_all : Listener → List ℤ → Tx (List (ℤ × ℤ))
unfolding open_reader
open_all l [] = pure []
open_all l (partition ∷ rest) = do
  next ← open_reader l partition
  readers ← open_all l rest
  pure ((partition, next) ∷ readers)

-- The offset that the reader of a partition expects, and the next one after a message.
abbrev pub expects : ℤ → List (ℤ × ℤ) → Option ℤ
expects p [] = none
expects p ((partition, next) ∷ readers) = if eqb_ℤ partition p then some next else expects p readers

abbrev pub step_reader : ℤ → List (ℤ × ℤ) → List (ℤ × ℤ)
step_reader p [] = []
step_reader p ((partition, next) ∷ readers) =
    (if eqb_ℤ partition p then (partition, next +ℤ pos 1) else (partition, next))
    ∷ step_reader p readers

-- The goroutines of `Run`, one for each reader: their rounds in the order in which the store takes
-- them, each with its partition. The first error ends the group.
unfoldable pub read_all : Codec → String → List (ℤ × ℤ) → List (ℤ × Result Message) → Tx (Unit {0})
unfolding read_message
read_all codec topic readers [] = pure tt
read_all codec topic readers ((partition, delivery) ∷ rounds) =
    let rest = read_all codec topic (step_reader partition readers) rounds in
    elim (expects partition readers) [
      | none ↦ rest
      | some next ↦ read_message codec topic partition next delivery >> rest
    ]

-- Every checkpoint is validated before any reader ingests.
unfoldable pub run : Codec → Listener → List (ℤ × Result Message) → Tx (Unit {0})
unfolding read_all open_all partitions
run codec l rounds = do
  raise_if (l.broker.address == "") (failure "kafka broker address required")
  parts ← partitions l
  readers ← open_all l parts
  read_all codec l.topic readers rounds
