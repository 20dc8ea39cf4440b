-- ===== src/Migrations.antt =====
-- migrations/migrations.go: `List`, the state of each migration of the catalog, and the checks of
-- the history that the database records. What SQLite answers, and the catalog that is read from
-- the embedded files, are arguments.
pub mod Marked
pub mod History
pub mod Tests
use clearinghouse_batteries.Base.{
  String, concat, Option, none, some, Bool, true, false, not, ◌&&◌, ◌||◌, ◌==◌, if◌then◌else◌, List,
  [], ◌∷◌,
}
use clearinghouse_batteries.Base.Int.{ℤ}
use clearinghouse_batteries.Base.Lists.{find, any, upsert}
use clearinghouse_batteries.Base.Exec.{Result, ok, err, failure, bind_result, map_result}

pub record Status : Type 0 where
  pub filename : String
  pub sha256 : String
  pub applied_at_ms : Option ℤ
  pub applied : Bool

-- A row of the table `migrations`.
pub record Saved : Type 0 where
  pub filename : String
  pub sha256 : String
  pub applied_at_ms : ℤ

abbrev pub is_named : String → Status → Bool
is_named name status = status.filename == name

-- `known[item.Filename] = item.Status` for each item; a map is a list with one row for each key.
unfoldable pub known_from : List Status → List Status → List Status
known_from [] known = known
known_from (s ∷ specs) known = known_from specs (upsert (is_named s.filename) (λ _. s) s known)

abbrev pub saved_status : Saved → Status
saved_status row = record {
  filename = row.filename;
  sha256 = row.sha256;
  applied_at_ms = some row.applied_at_ms;
  applied = true;
}

abbrev pub check_expected : List Status → Saved → Option Status → Result (Unit {0})
check_expected applied row none =
    err (failure (concat "database has unknown migration " row.filename))
check_expected applied row (some expected) =
    if not (row.sha256 == expected.sha256)
    then err (failure (concat (concat "migration " row.filename) " checksum mismatch"))
    else if any (is_named row.filename) applied
    then err (failure (concat "duplicate migration " row.filename))
    else ok tt

-- The loop over the rows, which fills the map `applied`.
unfoldable pub read_rows : List Status → List Saved → List Status → Result (List Status)
read_rows known [] applied = ok applied
read_rows known (row ∷ rows) applied =
    let rest = read_rows known rows (saved_status row ∷ applied) in
    bind_result (check_expected applied row (find (is_named row.filename) known)) (λ _. rest)

abbrev pub with_saved : Status → Option Status → Status
with_saved s none = s
with_saved s (some saved) = record {
  filename = s.filename;
  sha256 = s.sha256;
  applied_at_ms = saved.applied_at_ms;
  applied = true;
}

abbrev pub marked : List Status → Status → Status
marked applied s = with_saved s (find (is_named s.filename) applied)

-- The loop over the catalog; `missing` is set once a migration has not been applied.
unfoldable pub mark : List Status → Bool → List Status → Result (List Status)
mark applied missing [] = ok []
mark applied missing (s ∷ specs) =
    let status = marked applied s in
    let rest = mark applied (missing || not status.applied) specs in
    if missing && status.applied
    then err (failure (concat "database migration history has a gap before " status.filename))
    else map_result (λ out. status ∷ out) rest

-- The arguments are what `catalog` returns, and the rows of the table `migrations` in the order of
-- their file names, or none where the database has no such table.
unfoldable pub list : Result (List Status) → Result (Option (List Saved)) → Result (List Status)
unfolding known_from read_rows mark
list (err e) table = err e
list (ok specs) (err e) = err e
list (ok specs) (ok none) = ok specs
list (ok specs) (ok (some rows)) =
    bind_result (read_rows (known_from specs []) rows []) (λ applied. mark applied false specs)
