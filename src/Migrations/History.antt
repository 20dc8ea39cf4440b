-- ===== src/Migrations/History.antt =====
-- migrations/migrations.go: what a list that `List` returns says of the history of the database.
use mathlib.Core.List.{Memᴰ}
use clearinghouse_batteries.Base.{
  String, ◌≡◌, refl, sym, ap, ◌∙◌, Option, none, some, Bool, true, false, not, ◌||◌, ◌==◌,
  if◌then◌else◌, List, [], ◌∷◌, map, eq_iff,
}
use clearinghouse_batteries.Base.Lists.{
  find, any, upsert, All, All-upsert, All-weaken, All-find, find-true,
}
use clearinghouse_batteries.Base.Exec.{ok}
use clearinghouse_batteries.Base.Exec.Inversion.{ok_inj, bind_result_ok, if_ok}
use clearinghouse_batteries.Migrations.{
  Status, Saved, is_named, known_from, saved_status, check_expected, read_rows, mark, list,
}
use clearinghouse_batteries.Migrations.Marked.{
  IsPending, InOrder, file, mark-InOrder, mark_files, mark_recorded,
}

-- A status is marked as applied exactly if there is a row of its name.
abbrev pub IsRecorded : List Saved → Status → Type 0
IsRecorded rows s = s.applied ≡ any (λ row. row.filename == s.filename) rows

-- The row describes a migration of the catalog, with its checksum.
abbrev pub IsKnown : List Status → Saved → Type 0
IsKnown specs row =
    (s : Status) × Memᴰ s specs × (s.filename ≡ row.filename) × (row.sha256 ≡ s.sha256)

known_from-All {κ} :
    (P : Status → Type κ) (specs known : List Status)
    → All P specs
    → All P known
    → All P (known_from specs known)
unfolding known_from
known_from-All P [] known new old = old
known_from-All P (s ∷ specs) known new old =
    known_from-All P specs (upsert (is_named s.filename) (λ _. s) s known) new.1
      (All-upsert P (is_named s.filename) s known new.0 old)

members : (specs : List Status) → All (λ s. Memᴰ s specs) specs
members [] = tt
members (s ∷ specs) = (
  Memᴰ.head refl,
  All-weaken (λ x. Memᴰ x (s ∷ specs)) specs (λ x m. Memᴰ.tail m) (members specs),
)

not-false : (b : Bool) → not b ≡ false → b ≡ true
not-false true h = refl
not-false false h = sym h

expected_of :
    (applied : List Status) (row : Saved) (found : Option Status)
    → check_expected applied row found ≡ ok tt
    → (s : Status) × (found ≡ some s) × (row.sha256 ≡ s.sha256)
expected_of applied row none h = cc
expected_of applied row (some s) h =
    let (same, rest) = if_ok (not (row.sha256 == s.sha256)) _ _ tt h in
    (s, refl, (eq_iff row.sha256 s.sha256).0 (not-false (row.sha256 == s.sha256) same))

checked-IsKnown :
    (specs applied : List Status) (row : Saved)
    → check_expected applied row (find (is_named row.filename) (known_from specs [])) ≡ ok tt
    → IsKnown specs row
checked-IsKnown specs applied row h =
    let (s, found, same) =
      expected_of applied row (find (is_named row.filename) (known_from specs [])) h in
    (
      s,
      All-find (λ x. Memᴰ x specs) (is_named row.filename) (known_from specs []) s
          (known_from-All (λ x. Memᴰ x specs) specs [] (members specs) tt) found,
      (eq_iff s.filename row.filename).0
          (find-true (is_named row.filename) (known_from specs []) s found),
      same,
    )

abbrev row_named : String → Saved → Bool
row_named name row = row.filename == name

any_moved : (p q r : Bool) → (q || (if p then true else r)) ≡ ((if p then true else q) || r)
any_moved true true r = refl
any_moved true false r = refl
any_moved false q r = refl

read_rows-IsKnown :
    (specs : List Status) (rows : List Saved) (applied out : List Status)
    → read_rows (known_from specs []) rows applied ≡ ok out
    → All (IsKnown specs) rows
unfolding read_rows
read_rows-IsKnown specs [] applied out h = tt
read_rows-IsKnown specs (row ∷ rows) applied out h =
    let (u, checked, rest) =
      bind_result_ok
        (check_expected applied row (find (is_named row.filename) (known_from specs [])))
        (λ _. read_rows (known_from specs []) rows (saved_status row ∷ applied)) out h in
    (
      checked-IsKnown specs applied row checked,
      read_rows-IsKnown specs rows (saved_status row ∷ applied) out rest,
    )

-- The names in the map are those of the rows, and those that were there before.
read_rows_names :
    (known : List Status) (rows : List Saved) (applied out : List Status) (name : String)
    → read_rows known rows applied ≡ ok out
    → any (is_named name) out ≡ (any (row_named name) rows || any (is_named name) applied)
unfolding read_rows
read_rows_names known [] applied out name h = ap (any (is_named name)) (sym (ok_inj h))
read_rows_names known (row ∷ rows) applied out name h =
    let (u, checked, rest) =
      bind_result_ok (check_expected applied row (find (is_named row.filename) known))
        (λ _. read_rows known rows (saved_status row ∷ applied)) out h in
    read_rows_names known rows (saved_status row ∷ applied) out name rest
    ∙ any_moved (row.filename == name) (any (row_named name) rows) (any (is_named name) applied)

-- What a list of statuses says of the catalog and of the rows of the database.
pub record History (specs : List Status) (rows : List Saved) (out : List Status) : Type 0 where
  pub files : map file out ≡ map file specs
  pub known : All (IsKnown specs) rows
  pub recorded : All (IsRecorded rows) out
  pub in_order : InOrder out

or_false : (b : Bool) → (b || false) ≡ b
or_false true = refl
or_false false = refl

-- For a catalog of migrations none of which is marked as applied, and a database that has the
-- table: a list that is returned has the files of the catalog, in its order; each row of the
-- database is that of a migration of the catalog, with its checksum; a migration is listed as
-- applied exactly if there is a row of its name; and no migration that is applied is listed after
-- one that is not.
pub list-History :
    (specs : List Status) (rows : List Saved) (out : List Status)
    → All IsPending specs
    → list (ok specs) (ok (some rows)) ≡ ok out
    → History specs rows out
unfolding list
list-History specs rows out pending h =
    let (applied, read, marks) =
      bind_result_ok (read_rows (known_from specs []) rows []) (λ applied. mark applied false specs)
        out h in
    record {
      files = mark_files applied specs out false marks;
      known = read_rows-IsKnown specs rows [] applied read;
      recorded =
          All-weaken (IsRecorded rows) out
            (λ s e.
              e
              ∙ read_rows_names (known_from specs []) rows [] applied s.filename read
              ∙ or_false (any (row_named s.filename) rows))
            (mark_recorded applied specs out false pending marks);
      in_order = mark-InOrder applied specs out marks;
    }
