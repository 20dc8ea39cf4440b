-- ===== src/Store/Auth/Tests.antt =====
-- Tests for internal/store/auth.go: a key with 100 wei asks for 40 on a session of its own.
use clearinghouse_batteries.Base.{String, ◌≡◌, none, some, true, false, ◌==◌}
use clearinghouse_batteries.Base.Int.{ℤ, pos}
use clearinghouse_batteries.Base.Exec.{ok}
use clearinghouse_batteries.Fixtures.{fresh_world}
use clearinghouse_batteries.Store.Auth.Lag.{KafkaLag, set_kafka_lag, stored_lag}
use clearinghouse_batteries.Store.Auth.Lag.Stored.{set_kafka_lag-stored_lag}
use clearinghouse_batteries.Store.Auth.Decide.{RemoteState, Decision, Snapshot, no_snapshot}

abbrev orch : String
orch = "0x00000000000000000000000000000000000000aa"

abbrev state : RemoteState
state = record {
  state_id = "state";
  pm_session_id = "";
  orchestrator_address = orch;
  app = "app";
  kind = "lv2v";
  auth_id = "session";
  fee_wei = "40";
  fee_usd = "";
}

abbrev snapshot : Snapshot
snapshot = record no_snapshot {
  saved = some "hash";
  allocation = "allocation";
  allocation_status = "active";
  grant_status = "active";
  balance = pos 100;
  id = "session";
  key = "key";
  app = "app";
  payment_type = "lv2v";
  orchestrator = orch;
  status = "active";
  currency = "eth";
  lag = record { checked_at = pos 900; covered_through = pos 800; available = true };
}

abbrev allowed : Decision
allowed = record { status = pos 200; reason = ""; auth_id = "session" }

abbrev recorded : KafkaLag
recorded = record { checked_at = pos 900; covered_through = pos 800; available = true }

set_kafka_lag-stored_lag_example :
    ((set_kafka_lag "topic" recorded fresh_world).0 ≡ ok tt)
    × (stored_lag "topic" (set_kafka_lag "topic" recorded fresh_world).1.db ≡ recorded)
set_kafka_lag-stored_lag_example = set_kafka_lag-stored_lag "topic" recorded fresh_world "topic"
