-- ===== src/Store/Settlements/Tests.antt =====
-- Tests for internal/store/settlements.go: three rows out of order.
use clearinghouse_batteries.Base.{List, [], ◌∷◌}
use clearinghouse_batteries.Base.Int.{ℤ, pos}

abbrev block : ℤ × ℤ → ℤ
block row = row.0

abbrev log : ℤ × ℤ → ℤ
log row = row.1

abbrev rows : List (ℤ × ℤ)
rows = (pos 3, pos 1) ∷ (pos 5, pos 0) ∷ (pos 3, pos 4) ∷ []
