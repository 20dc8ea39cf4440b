-- ===== src/Store/Auth/Lag.antt =====
-- internal/store/auth.go: the recorded lag of the accounting consumer.
pub mod Stored
use clearinghouse_batteries.Base.{
  suc, ◌-◌, ◌*◌, String, Option, none, some, Bool, false, not, ◌||◌, ◌==◌, if◌then◌else◌,
}
use clearinghouse_batteries.Base.Int.{ℤ, pos, negsuc, ◌-ℤ◌, ltb_ℤ, leb_ℤ}
use clearinghouse_batteries.Base.Lists.{find, upsert}
use clearinghouse_batteries.Base.Exec.{constraint, raise_if, ◌>>◌}
use clearinghouse_batteries.Db.{Db, LagRow}
use clearinghouse_batteries.Db.Tx.{Tx, execute, write}

pub record KafkaLag : Type 0 where
  pub checked_at : ℤ
  pub covered_through : ℤ
  pub available : Bool

abbrev pub no_lag : KafkaLag
no_lag = record { checked_at = pos 0; covered_through = pos 0; available = false }

abbrev pub is_topic : String → LagRow → Bool
is_topic topic row = row.topic == topic

-- The CHECKs of 004_kafka_lag.sql refuse a time below zero.
unfoldable pub set_kafka_lag : String → KafkaLag → Tx (Unit {0})
set_kafka_lag topic h = write do
  raise_if (ltb_ℤ h.checked_at (pos 0) || ltb_ℤ h.covered_through (pos 0)) (constraint "kafka_lag")
  execute λ db. record db {
    kafka_lag =
        upsert (is_topic topic)
          (λ r. record r {
            checked_at_ms = h.checked_at;
            covered_through_ms = h.covered_through;
            available = h.available;
          })
          (record {
            topic = topic;
            checked_at_ms = h.checked_at;
            covered_through_ms = h.covered_through;
            available = h.available;
          })
          db.kafka_lag;
  }

abbrev pub lag_of : Option LagRow → KafkaLag
lag_of none = no_lag
lag_of (some r) = record {
  checked_at = r.checked_at_ms;
  covered_through = r.covered_through_ms;
  available = r.available;
}

unfoldable pub stored_lag : String → Db → KafkaLag
stored_lag topic db = lag_of (find (is_topic topic) db.kafka_lag)

-- `time.Duration` counts nanoseconds.
abbrev pub nanoseconds : ℤ → ℤ
nanoseconds (pos n) = pos (n * 1_000_000)
nanoseconds (negsuc n) = negsuc (suc n * 1_000_000 - 1)

abbrev pub min_kafka_lag : ℤ
min_kafka_lag = pos 1_000_000_000

-- The reason to refuse an authorization, or the empty text.
unfoldable pub lag_reason : KafkaLag → ℤ → ℤ → String
lag_reason h now max_age =
    if ltb_ℤ max_age min_kafka_lag
      || not h.available
      || leb_ℤ h.checked_at (pos 0)
      || leb_ℤ h.covered_through (pos 0)
      || ltb_ℤ now h.checked_at
      || ltb_ℤ h.checked_at h.covered_through
    then "kafka lag unavailable"
    else if leb_ℤ max_age (nanoseconds (now -ℤ h.checked_at))
    then "kafka lag unavailable"
    else if leb_ℤ max_age (nanoseconds (now -ℤ h.covered_through))
    then "kafka lag exceeded"
    else ""
