-- ===== src/Migrations/Tests.antt =====
-- Tests for migrations/migrations.go: a catalog of two migrations.
use clearinghouse_batteries.Base.{String, ◌≡◌, refl, none, some, true, false, List, [], ◌∷◌}
use clearinghouse_batteries.Base.Int.{pos}
use clearinghouse_batteries.Base.Exec.{ok, err, failure}
use clearinghouse_batteries.Migrations.{Status, Saved, list}
use clearinghouse_batteries.Migrations.History.{History, list-History}

abbrev pending : String → String → Status
pending name hash = record { filename = name; sha256 = hash; applied_at_ms = none; applied = false }

abbrev catalog : List Status
catalog = pending "001_initial.sql" "aa" ∷ pending "002_settlements.sql" "bb" ∷ []

abbrev saved : String → String → Saved
saved name hash = record { filename = name; sha256 = hash; applied_at_ms = pos 7 }

abbrev half : List Status
half =
    record {
      filename = "001_initial.sql";
      sha256 = "aa";
      applied_at_ms = some (pos 7);
      applied = true;
    }
    ∷ pending "002_settlements.sql" "bb"
    ∷ []

lists : list (ok catalog) (ok (some (saved "001_initial.sql" "aa" ∷ []))) ≡ ok half
unfolding list
lists = refl

gap :
    list (ok catalog) (ok (some (saved "002_settlements.sql" "bb" ∷ [])))
    ≡ err (failure "database migration history has a gap before 002_settlements.sql")
unfolding list
gap = refl

altered :
    list (ok catalog) (ok (some (saved "001_initial.sql" "ab" ∷ [])))
    ≡ err (failure "migration 001_initial.sql checksum mismatch")
unfolding list
altered = refl

unknown :
    list (ok catalog) (ok (some (saved "004_other.sql" "cc" ∷ [])))
    ≡ err (failure "database has unknown migration 004_other.sql")
unfolding list
unknown = refl

list-History_example : History catalog (saved "001_initial.sql" "aa" ∷ []) half
list-History_example =
    list-History catalog (saved "001_initial.sql" "aa" ∷ []) half (refl, (refl, tt)) lists
