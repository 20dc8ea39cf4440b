-- ===== src/Store/Manage/Tests.antt =====
-- Tests for internal/store/manage.go: a closed grant that a call tries to reopen.
use clearinghouse_batteries.Base.{refl, none, [], ◌∷◌}
use clearinghouse_batteries.Base.Int.{pos}
use clearinghouse_batteries.Db.{World, Grant}
use clearinghouse_batteries.Db.Fresh.{fresh_db}
use clearinghouse_batteries.Db.Tx.{write}
use clearinghouse_batteries.Fixtures.{world_of}
use clearinghouse_batteries.Store.Manage.Status.{set_status}
use clearinghouse_batteries.Store.Manage.Final.{Closed, write-set_status-Closed}

abbrev grant : Grant
grant = record {
  id = "grant";
  name = "research";
  sponsor = "";
  total_units = pos 100;
  currency = "eth";
  starts_at_ms = none;
  ends_at_ms = none;
  status = "closed";
  metadata = "";
  created_at_ms = pos 1;
}

abbrev before : World
before = world_of (record fresh_db { grants = grant ∷ [] })

write-set_status-Closed_example :
    Closed "grant" (write (set_status "grant" "grant" "active") before).1.db
write-set_status-Closed_example =
    write-set_status-Closed "grant" "grant" "grant" "active" before refl
