-- ===== src/Kafka/Broker.antt =====
-- internal/kafka/listener.go: what the listener asks of the broker. `DialContext`, `DialLeader`,
-- `ReadPartitions` and `ReadOffsets` of segmentio/kafka-go are parameters: their answers, one for
-- each time they are asked.
use clearinghouse_batteries.Base.{ℕ, suc, String, concat, ◌==◌, ◌&&◌, if◌then◌else◌, List, [], ◌∷◌}
use clearinghouse_batteries.Base.Int.{ℤ, pos, ltb_ℤ, leb_ℤ, eqb_ℤ}
use clearinghouse_batteries.Base.Sort.{sort_by, compact_by}
use clearinghouse_batteries.Base.Exec.{
  Error, no_rows, invalid_input, state_conflict, constraint, failure, Result, ok, err, pure, raise,
  ◌>>=◌,
}
use clearinghouse_batteries.Db.Tx.{Tx}

pub record Broker : Type 0 where
  pub address : String
  -- The topic and the id of each partition.
  pub metadata : ℕ → Result (List (String × ℤ))
  -- The first offset that the log of a partition retains, and its end.
  pub offsets : ℕ → ℤ → Result (ℤ × ℤ)

pub record Listener : Type 0 where
  pub broker : Broker
  pub topic : String

-- `fmt.Errorf("…: %w", err)`. Of an error that the code knows by its kind the text is left out.
abbrev pub prefixed : String → Error → Error
prefixed text (failure s) = failure (concat text (concat ": " s))
prefixed text no_rows = no_rows
prefixed text (invalid_input s) = invalid_input s
prefixed text (state_conflict s) = state_conflict s
prefixed text (constraint s) = constraint s

abbrev pub explain : {A : Type 0} → String → Result A → Result A
explain text (ok a) = ok a
explain text (err e) = err (prefixed text e)

-- A call outside, which is one of the draws of the environment.
unfoldable pub ask : {A : Type 0} → (ℕ → Result A) → Tx A
ask f w = (f w.draws, record w { draws = suc w.draws })

unfoldable pub partition_ids : String → List (String × ℤ) → List ℤ
partition_ids topic [] = []
partition_ids topic ((name, id) ∷ metadata) =
    let rest = partition_ids topic metadata in
    if (name == topic) && leb_ℤ (pos 0) id then id ∷ rest else rest

-- `slices.Compact` of the sorted ids.
unfoldable pub ascending : List ℤ → List ℤ
ascending ids = compact_by eqb_ℤ (sort_by ltb_ℤ ids)

unfoldable pub some_partitions : String → List ℤ → Tx (List ℤ)
unfolding ascending
some_partitions topic [] =
    raise (failure (concat "kafka topic " (concat topic " has no partitions")))
some_partitions topic (id ∷ ids) = pure (ascending (id ∷ ids))

unfoldable pub partitions : Listener → Tx (List ℤ)
unfolding ask some_partitions partition_ids
partitions l = do
  metadata ← ask (λ n. explain l.broker.address (l.broker.metadata n))
  some_partitions l.topic (partition_ids l.topic metadata)

unfoldable pub offsets : Listener → ℤ → Tx (ℤ × ℤ)
unfolding ask
offsets l partition = ask (λ n. explain l.broker.address (l.broker.offsets n partition))
