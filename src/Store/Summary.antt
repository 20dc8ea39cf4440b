-- ===== src/Store/Summary.antt =====
-- internal/store/metrics.go: the summary rows that each transaction keeps up to date.
pub mod Frame
use clearinghouse_batteries.Base.{
  ℕ, String, Bool, true, false, not, ◌&&◌, ◌==◌, if◌then◌else◌, ◌++◌, ◌∷◌, [], List,
}
use clearinghouse_batteries.Base.Int.{ℤ, pos, negsuc, ◌+ℤ◌, is_zero, is_negative}
use clearinghouse_batteries.Base.Lists.{find, update, upsert}
use clearinghouse_batteries.Base.Exec.{no_rows, constraint, pure, or_raise, raise_if, ◌>>=◌, ◌>>◌}
use clearinghouse_batteries.Db.{Db, Summary, MetricAmount, MetricCount}
use clearinghouse_batteries.Db.Tx.{Tx, query, execute}

abbrev pub on_summary : (Summary → Summary) → Db → Db
on_summary f db = record db { summary = f db.summary }

abbrev pub is_count : String → String → String → MetricCount → Bool
is_count kind first second row = row.kind == kind && row.label1 == first && row.label2 == second

abbrev pub is_amount : String → String → MetricAmount → Bool
is_amount name currency row = row.name == name && row.currency == currency

abbrev add_count : ℤ → MetricCount → MetricCount
add_count delta row = record row { value = row.value +ℤ delta }

-- A fall must find its row, and `CHECK(value>=0)` refuses one below zero.
unfoldable pub lower_count : String → String → String → ℤ → Tx (Unit {0})
lower_count kind first second delta = do
  row ←
      (query (λ db. find (is_count kind first second) db.summary.counts) >>= λ found.
      or_raise found no_rows)
  raise_if (is_negative (row.value +ℤ delta)) (constraint "metric_counts.value")
  execute (
      on_summary
        (λ s. record s { counts = update (is_count kind first second) (add_count delta) s.counts }))

unfoldable pub raise_count : String → String → String → ℤ → Tx (Unit {0})
raise_count kind first second delta = execute (
    on_summary λ s. record s {
      counts =
          upsert (is_count kind first second) (add_count delta)
            (record { kind = kind; label1 = first; label2 = second; value = delta }) s.counts;
    })

unfoldable pub change_metric_count : String → String → String → ℤ → Tx (Unit {0})
unfolding lower_count raise_count
change_metric_count kind first second delta =
    if is_zero delta
    then pure tt
    else if is_negative delta
    then lower_count kind first second delta
    else raise_count kind first second delta

unfoldable pub change_metric_amount : String → String → ℤ → Tx (Unit {0})
change_metric_amount name currency delta = if is_zero delta then pure tt else do
  row ←
      (query (λ db. find (is_amount name currency) db.summary.amounts) >>= λ found.
      or_raise found no_rows)
  execute (
      on_summary λ s. record s {
        amounts =
            update (is_amount name currency)
              (λ r. record r { amount_units = row.amount_units +ℤ delta }) s.amounts;
      })

unfoldable pub change_inventory : String → String → String → String → Tx (Unit {0})
change_inventory kind currency old next =
    if old == next
    then pure tt
    else if old == ""
    then change_metric_count kind currency next (pos 1)
    else do
      change_metric_count kind currency old (negsuc 0)
      change_metric_count kind currency next (pos 1)

abbrev pub bool_count : Bool → ℤ
bool_count true = pos 1
bool_count false = pos 0
