-- ===== src/Kafka/Tests.antt =====
-- Tests for internal/kafka: a topic with one partition, whose log ends at 5 and is consumed to 3,
-- then to 5.
use clearinghouse_batteries.Base.{
  String, ◌≡◌, refl, arith, Option, some, List, [], ◌∷◌, ◌++◌, true, false, ltb,
}
use clearinghouse_batteries.Base.Int.{ℤ, pos, ◌+ℤ◌, ltb_ℤ, ◌≤ℤ◌}
use clearinghouse_batteries.Base.Lists.{All, length}
use clearinghouse_batteries.Base.Exec.{Result, ok, err, failure}
use clearinghouse_batteries.Db.{Db, World}
use clearinghouse_batteries.Fixtures.{fresh_world, test_codec}
use clearinghouse_batteries.Store.Auth.Lag.{KafkaLag}
use clearinghouse_batteries.Store.Position.{next_position, kafka_stream}
use clearinghouse_batteries.Kafka.Broker.{Broker, Listener, partitions}
use clearinghouse_batteries.Kafka.Coverage.{
  PartitionSnapshot, PartitionCoverage, LagCoverage, advance, update,
}
use clearinghouse_batteries.Kafka.Coverage.Evidence.{
  Proved, observations, replay, no_partitions, update-Proved,
}
use clearinghouse_batteries.Kafka.Coverage.Window.{
  IsOrdered, InWindow, advance-InWindow, advance-caught_up,
}
use clearinghouse_batteries.Kafka.Monitor.Published.{Published}
use clearinghouse_batteries.Kafka.Reader.{Message, read_partition}
use clearinghouse_batteries.Kafka.Reader.Order.{FiledAll, read_partition-in_order}
use clearinghouse_batteries.ServiceAuth.{KafkaCredential}
use clearinghouse_batteries.Kafka.Security.{topic_write, broker_config}

abbrev behind : PartitionSnapshot
behind = record {
  partition = pos 0;
  first = pos 0;
  last = pos 5;
  next = pos 3;
  observed_at = pos 1_000;
}

abbrev caught_up : PartitionSnapshot
caught_up = record {
  partition = pos 0;
  first = pos 0;
  last = pos 7;
  next = pos 5;
  observed_at = pos 2_000;
}

abbrev max_age : ℤ
max_age = pos 60_000_000_000

abbrev first_poll : List (List PartitionSnapshot × ℤ)
first_poll = (behind ∷ [], pos 1_100) ∷ []

first_unavailable : (update (no_partitions max_age) (behind ∷ []) (pos 1_100)).lag.available ≡ false
unfolding update clearinghouse_batteries.Base.Int.◌-ℤ◌
first_unavailable = refl

abbrev second_lag : KafkaLag
second_lag = (update (replay (no_partitions max_age) first_poll) (caught_up ∷ []) (pos 2_100)).lag

-- The second probe has passed the end that the first one observed, at 1000.
second :
    (update (replay (no_partitions max_age) first_poll) (caught_up ∷ []) (pos 2_100)).lag
    ≡ record { checked_at = pos 2_100; covered_through = pos 1_000; available = true }
unfolding update clearinghouse_batteries.Base.Int.◌-ℤ◌
second = refl

second_available : second_lag.available ≡ true
unfolding update clearinghouse_batteries.Base.Int.◌-ℤ◌
second_available = refl

update-Proved_example :
    All
      (Proved (observations first_poll ++ caught_up ∷ []) second_lag.covered_through)
      (caught_up ∷ [])
    × (second_lag.covered_through ≤ℤ pos 2_100)
update-Proved_example =
    update-Proved max_age first_poll (caught_up ∷ []) (pos 2_100) second_available

went_back :
    (update
      (replay (no_partitions max_age) first_poll)
      (record caught_up { next = pos 2 } ∷ [])
      (pos 2_100)).error
    ≡ some (failure "kafka offsets moved backwards")
unfolding update clearinghouse_batteries.Base.Int.◌-ℤ◌
went_back = refl

abbrev test_broker : Broker
test_broker = record {
  address = "broker:9092";
  metadata =
      λ n. ok (("topic", pos 1) ∷ ("other", pos 5) ∷ ("topic", pos 0) ∷ ("topic", pos 1) ∷ []);
  offsets = λ n p. ok (pos 0, pos 0);
}

abbrev listener : Listener
listener = record { broker = test_broker; topic = "topic" }

two_partitions : (partitions listener fresh_world).0 ≡ ok (pos 0 ∷ pos 1 ∷ [])
unfolding partitions clearinghouse_batteries.Base.Exec.◌>>=◌
    clearinghouse_batteries.Base.Sort.sort_by clearinghouse_batteries.Base.Sort.compact_by
two_partitions = refl

-- Both partitions are empty, and so consumed to their ends at 12 and at 14.
abbrev later : World
later = record fresh_world { draws = 10 }

abbrev covered_at : ℤ → ℤ → PartitionCoverage
covered_at partition at = record {
  partition = partition;
  next = pos 0;
  last = pos 0;
  observed = at;
  covered = at;
  pending = [];
}

abbrev polled : LagCoverage
polled = record {
  partitions = covered_at (pos 0) (pos 12) ∷ covered_at (pos 1) (pos 14) ∷ [];
  max_age = max_age;
}

abbrev deliveries : List (Result Message)
deliveries =
    ok (record { offset = pos 0; value = "a" }) ∷ ok (record { offset = pos 1; value = "b" }) ∷ []

delivered : (read_partition test_codec "topic" (pos 0) (pos 0) deliveries fresh_world).0 ≡ ok tt
unfolding read_partition clearinghouse_batteries.Base.Exec.◌>>=◌
    clearinghouse_batteries.Store.Ingest.ingest clearinghouse_batteries.Db.Tx.write
    clearinghouse_batteries.Db.Tx.query next_position
    clearinghouse_batteries.Store.Ingest.Classify.classify
    clearinghouse_batteries.Store.Ingest.Charge.record_usage clearinghouse_batteries.Db.Tx.fresh_id
    clearinghouse_batteries.Db.Tx.now clearinghouse_batteries.Db.Tx.execute
    clearinghouse_batteries.Store.Summary.change_metric_count
    clearinghouse_batteries.Store.Position.set_checkpoint ◌+ℤ◌ kafka_stream
    clearinghouse_batteries.Base.Text.sprint clearinghouse_batteries.Store.Ingest.Charge.usage_row
delivered = refl

read_partition-in_order_example :
    FiledAll test_codec "topic"
      (pos 0)
      (pos 0)
      fresh_world.db
      deliveries
      (read_partition test_codec "topic" (pos 0) (pos 0) deliveries fresh_world).1.db
    × (next_position "kafka"
          (kafka_stream "topic" (pos 0))
          (read_partition test_codec "topic" (pos 0) (pos 0) deliveries fresh_world).1.db
        ≡ pos 0 +ℤ pos (length deliveries))
unfolding next_position
read_partition-in_order_example =
    read_partition-in_order test_codec "topic" (pos 0) (pos 0) deliveries fresh_world refl delivered

abbrev remote : KafkaCredential
remote = record {
  username = "signer";
  password = "secret";
  read = false;
  write = true;
  accounting = false;
}

granted : broker_config "topic" (remote ∷ []) ≡ (
  ("signer", "secret") ∷ [],
  record { user = "signer"; topic = "topic"; action = topic_write } ∷ [],
)
unfolding broker_config
granted = refl

-- Two fences pending, at 1000 and 1500; the checkpoint stands between their ends.
abbrev waiting : PartitionCoverage
waiting = record {
  partition = pos 0;
  next = pos 3;
  last = pos 6;
  observed = pos 1_500;
  covered = pos 0;
  pending = record { last = pos 5; at = pos 1_000 } ∷ record { last = pos 6; at = pos 1_500 } ∷ [];
}

abbrev waiting_ordered : IsOrdered waiting
waiting_ordered = record { ascending = omega arith; within = omega arith }

advance-InWindow_example :
    IsOrdered (advance (pos 900) caught_up waiting)
    × All (InWindow (pos 900) (pos 5)) (advance (pos 900) caught_up waiting).pending
advance-InWindow_example =
    advance-InWindow (pos 900) caught_up waiting waiting_ordered (omega arith) (omega arith)

advance-caught_up_example :
    ((advance (pos 900) (record caught_up { next = pos 7 }) waiting).covered ≡ pos 2_000)
    × ((advance (pos 900) (record caught_up { next = pos 7 }) waiting).pending ≡ [])
advance-caught_up_example =
    advance-caught_up (pos 900) (record caught_up { next = pos 7 }) waiting waiting_ordered
      (omega arith) (omega arith) (omega arith)
