-- ===== src/Kafka/Monitor/Published.antt =====
-- internal/kafka/listener.go, `poll` and `MonitorLag`: what is published about the consumer's lag.
use mathlib.Core.List.Memᴰ
use clearinghouse_batteries.Base.{◌≡◌, true, List, ◌++◌}
use clearinghouse_batteries.Base.Int.{◌≤ℤ◌}
use clearinghouse_batteries.Base.Lists.{All}
use clearinghouse_batteries.Base.Exec.{ok}
use clearinghouse_batteries.Base.Exec.Keeps.{Keeps}
use clearinghouse_batteries.Base.Exec.Total.{Total}
use clearinghouse_batteries.Db.{World}
use clearinghouse_batteries.Db.Tx.{Tx}
use clearinghouse_batteries.Store.Auth.Lag.{KafkaLag}
use clearinghouse_batteries.Kafka.Broker.{Listener}
use clearinghouse_batteries.Kafka.Coverage.{PartitionSnapshot, LagCoverage}
use clearinghouse_batteries.Kafka.Coverage.Evidence.{History, Proved, Backed}
use clearinghouse_batteries.Kafka.Monitor.{probe}

abbrev pub Anything : World → Type 0
Anything w = Unit

-- What one poll leaves, given the observations of the polls before it: evidence for the coverage
-- that it keeps, and for the lag that it publishes if that is available.
pub record Evident (l : Listener) (seen : History) (c : LagCoverage) (lag : KafkaLag) : Type 0 where
  pub parts : List PartitionSnapshot
  pub backed : All (Backed (seen ++ parts)) c.partitions
  pub probed : lag.available ≡ true → (before : World) × ((probe l before).0 ≡ ok parts)
  pub proved : lag.available ≡ true → All (Proved (seen ++ parts) lag.covered_through) parts
  pub bounded : lag.available ≡ true → lag.covered_through ≤ℤ lag.checked_at

-- A stored lag that is available, with the probe that it comes from.
pub record Published (l : Listener) (seen : History) (c : LagCoverage) (lag : KafkaLag)
    : Type 0 where
  pub parts : List PartitionSnapshot
  pub before : World
  pub probed : (probe l before).0 ≡ ok parts
  pub proved : All (Proved (seen ++ parts) lag.covered_through) parts
  pub bounded : lag.covered_through ≤ℤ lag.checked_at
  pub backed : All (Backed (seen ++ parts)) c.partitions
