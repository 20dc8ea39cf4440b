-- ===== src/Store/Settlements/Order.antt =====
-- internal/store/settlements.go, `Rewind`: the order of the reversals.
use clearinghouse_batteries.Base.{◌≡◌, true, List, [], ◌∷◌}
use clearinghouse_batteries.Base.Int.{ℤ}
use clearinghouse_batteries.Store.Settlements.Rewind.{not_after_row}

module _ {A : Type 0} (block log : A → ℤ) where
  abbrev pub Leads : A → List A → Type 0
  Leads x [] = Unit
  Leads x (y ∷ ys) = not_after_row block log x y ≡ true

  -- No row stands directly behind an older one.
  abbrev pub NewestFirst : List A → Type 0
  NewestFirst [] = Unit
  NewestFirst (x ∷ xs) = Leads x xs × NewestFirst xs
