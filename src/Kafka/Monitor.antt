-- ===== src/Kafka/Monitor.antt =====
-- internal/kafka/listener.go: the probe of all partitions, one poll, and the monitor of the lag.
pub mod Published
use clearinghouse_batteries.Base.{
  ℕ, zero, suc, String, Option, none, some, Bool, true, false, not, ◌&&◌, if◌then◌else◌, List, [],
  ◌∷◌, ◌/◌, ltb,
}
use clearinghouse_batteries.Base.Int.{ℤ, pos, ltb_ℤ, leb_ℤ, min_ℤ}
use clearinghouse_batteries.Base.Exec.{
  Error, Result, ok, err, failure, pure, raise, raise_if, ◌>>=◌, ◌>>◌,
}
use clearinghouse_batteries.Db.Tx.{Tx, query, now}
use clearinghouse_batteries.Store.Position.{kafka_stream, next_position}
use clearinghouse_batteries.Store.Auth.Lag.{KafkaLag, no_lag, set_kafka_lag, min_kafka_lag}
use clearinghouse_batteries.Kafka.Broker.{Listener, partitions, offsets}
use clearinghouse_batteries.Kafka.Coverage.{PartitionSnapshot, LagCoverage, Update, refused, update}

-- One attempt: the time first, then the checkpoint, then the offsets of the log.
unfoldable pub observe : Listener → ℤ → Tx PartitionSnapshot
unfolding offsets
observe l partition = do
  observed ← now
  next ← query (next_position "kafka" (kafka_stream l.topic partition))
  range ← offsets l partition
  pure (record {
    partition = partition;
    first = range.0;
    last = range.1;
    next = next;
    observed_at = observed;
  })

abbrev pub is_retained : PartitionSnapshot → Bool
is_retained s =
    leb_ℤ (pos 0) s.first && leb_ℤ s.first s.last && leb_ℤ s.first s.next && leb_ℤ s.next s.last

-- Two attempts: the checkpoint may move between the two readings.
unfoldable pub probe_partition : Listener → ℤ → Tx PartitionSnapshot
unfolding observe
probe_partition l partition = do
  s ← observe l partition
  (if is_retained s then pure s else do
    again ← observe l partition
    (if is_retained again
        then pure again
        else raise (failure "checkpoint outside retained offsets")))

unfoldable pub probe_all : Listener → List ℤ → Tx (List PartitionSnapshot)
unfolding probe_partition
probe_all l [] = pure []
probe_all l (p ∷ parts) = do s ← probe_partition l p; rest ← probe_all l parts; pure (s ∷ rest)

unfoldable pub probe : Listener → Tx (List PartitionSnapshot)
unfolding probe_all partitions
probe l = do parts ← partitions l; probe_all l parts

-- A call whose error is kept as a value.
unfoldable pub attempt : {A : Type 0} → Tx A → Tx (Result A)
attempt m w = let (r, w') = m w in (ok r, w')

-- The probe expires by its start: what is published is not later than that.
abbrev pub expire : ℤ → Update → Update
expire started u = record u {
  lag = record {
    checked_at = started;
    covered_through = min_ℤ u.lag.covered_through started;
    available = u.lag.available;
  };
}

unfoldable pub updated : LagCoverage → ℤ → Result (List PartitionSnapshot) → Tx Update
updated c started (err e) = pure (refused started e c.partitions)
updated c started (ok parts) = do finished ← now; pure (expire started (update c parts finished))

-- `errors.Join(err, l.DB.SetKafkaLag(…))`, of which the monitor reads whether there is an error.
abbrev pub joined : Option Error → Result (Unit {0}) → Option Error
joined (some e) saved = some e
joined none (err e) = some e
joined none (ok u) = none

unfoldable pub poll : Listener → LagCoverage → Tx (LagCoverage × Option Error)
unfolding updated attempt probe
poll l c = do
  started ← now
  parts ← attempt (probe l)
  u ← updated c started parts
  saved ← attempt (set_kafka_lag l.topic u.lag)
  pure (record c { partitions = u.partitions }, joined u.error saved)

-- `min(5*time.Second, maxAge/4)`, in nanoseconds.
unfoldable pub monitor_interval : ℕ → ℕ
monitor_interval max_age = if ltb (max_age / 4) 5_000_000_000 then max_age / 4 else 5_000_000_000

-- The polls until the context is cancelled. Their errors are logged.
unfoldable pub polls : Listener → ℕ → LagCoverage → Tx LagCoverage
unfolding poll
polls l zero c = pure c
polls l (suc rounds) c = do r ← poll l c; polls l rounds (r.0)

-- The monitor with its coverage; its lag is invalidated at the end.
unfoldable pub monitored : Listener → ℤ → ℕ → Tx (Unit {0})
unfolding polls attempt
monitored l max_age rounds = do
  polls l rounds (record { partitions = []; max_age = max_age })
  attempt (set_kafka_lag l.topic no_lag)
  pure tt

unfoldable pub monitor_lag : Listener → ℤ → ℕ → Tx (Unit {0})
unfolding monitored
monitor_lag l max_age rounds = do
  raise_if (ltb_ℤ max_age min_kafka_lag) (failure "maximum kafka lag must be at least 1s")
  monitored l max_age rounds
