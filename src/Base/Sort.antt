-- ===== src/Base/Sort.antt =====
-- Go's `slices.Sort`, `sort.SliceStable` and `slices.Compact` on lists: what their documentation
-- says, a stable sort by a comparison, and one element for each run of equal neighbours.
use mathlib.Core.Path.{◌≡◌, refl}
use mathlib.Core.Bool.{Bool, true, false}
use mathlib.Core.List.{List, [], ◌∷◌, Memᴰ}
use mathlib.Core.List.Memᴰ
use mathlib.Core.Logic.{inl, inr}
use native.Mathlib.Omega.{arith}
use clearinghouse_batteries.Base.Tests.{if◌then◌else◌, Bool-cases}
use clearinghouse_batteries.Base.Lists.{select, length}

module _ {A : Type 0} {a : A} where
  mem-under : {ys zs : List A} (x : A) → (Memᴰ a ys → Memᴰ a zs) → Memᴰ a (x ∷ ys) → Memᴰ a (x ∷ zs)
  mem-under x f m = elim (Memᴰ.cases_cons m) [ inl e ↦ Memᴰ.head e | inr rest ↦ Memᴰ.tail (f rest) ]

  mem-swap : (x y : A) (zs : List A) → Memᴰ a (x ∷ y ∷ zs) → Memᴰ a (y ∷ x ∷ zs)
  mem-swap x y zs m = elim (Memᴰ.cases_cons m) [
    | inl e ↦ Memᴰ.tail (Memᴰ.head e)
    | inr rest ↦ mem-under y Memᴰ.tail rest
  ]

module _ {A : Type 0} (lt : A → A → Bool) where
  -- An element goes before the first one that is not less, so equal ones keep their order.
  unfoldable pub insert_by : A → List A → List A
  insert_by x [] = x ∷ []
  insert_by x (y ∷ ys) = let rest = insert_by x ys in if lt y x then y ∷ rest else x ∷ y ∷ ys

  unfoldable pub sort_by : List A → List A
  unfolding insert_by
  sort_by [] = []
  sort_by (x ∷ xs) = insert_by x (sort_by xs)

  abbrev pub Leads : A → List A → Type 0
  Leads x [] = Unit
  Leads x (y ∷ ys) = lt y x ≡ false

  -- No element stands directly behind a greater one.
  abbrev pub IsSorted : List A → Type 0
  IsSorted [] = Unit
  IsSorted (x ∷ xs) = Leads x xs × IsSorted xs

  module _ (asym : (x y : A) → lt x y ≡ true → lt y x ≡ false) where
    insert_by-Leads :
        (x y : A) (ys : List A) → lt y x ≡ true → Leads y ys → Leads y (insert_by x ys)
    unfolding insert_by
    insert_by-Leads x y [] h k = asym y x h
    insert_by-Leads x y (z ∷ zs) h k = elim (Bool-cases (lt z x)) [
      | inl less ↦ rw less k
      | inr more ↦ rw more (asym y x h)
    ]

    insert_by-IsSorted : (x : A) (ys : List A) → IsSorted ys → IsSorted (insert_by x ys)
    unfolding insert_by
    insert_by-IsSorted x [] h = (tt, tt)
    insert_by-IsSorted x (y ∷ ys) h = elim (Bool-cases (lt y x)) [
      | inl less ↦ rw less (insert_by-Leads x y ys less h.0, insert_by-IsSorted x ys h.1)
      | inr more ↦ rw more (more, h)
    ]

    pub sort_by-IsSorted : (xs : List A) → IsSorted (sort_by xs)
    unfolding sort_by
    sort_by-IsSorted [] = tt
    sort_by-IsSorted (x ∷ xs) = insert_by-IsSorted x (sort_by xs) (sort_by-IsSorted xs)

  module _ (p : A → Bool) where
    pub count-insert_by :
        (x : A) (ys : List A) → length (select p (insert_by x ys)) ≡ length (select p (x ∷ ys))
    unfolding insert_by
    count-insert_by x [] = refl
    count-insert_by x (y ∷ ys) = elim (Bool-cases (lt y x)) [
      | inl less ↦ rw less (ground (arith, count-insert_by x ys))
      | inr more ↦ rw more
    ]

    -- Any condition holds of as many elements as before.
    pub count-sort_by : (xs : List A) → length (select p (sort_by xs)) ≡ length (select p xs)
    unfolding sort_by
    count-sort_by [] = refl
    count-sort_by (x ∷ xs) = ground (arith, count-insert_by x (sort_by xs), count-sort_by xs)

  -- The elements are those of the list.
  module _ (a : A) where
    insert_by-mem :
        (x : A) (ys : List A)
        → (Memᴰ a (x ∷ ys) → Memᴰ a (insert_by x ys)) × (Memᴰ a (insert_by x ys) → Memᴰ a (x ∷ ys))
    unfolding insert_by
    insert_by-mem x [] = (λ m. m, λ m. m)
    insert_by-mem x (y ∷ ys) = elim (Bool-cases (lt y x)) [
      | inl less ↦
          let (into, out) = insert_by-mem x ys in
          rw less
            (λ m. mem-under y into (mem-swap x y ys m), λ m. mem-swap y x ys (mem-under y out m))
      | inr more ↦ rw more (λ m. m, λ m. m)
    ]

    pub mem-sort_by :
        (xs : List A) → (Memᴰ a xs → Memᴰ a (sort_by xs)) × (Memᴰ a (sort_by xs) → Memᴰ a xs)
    unfolding sort_by
    mem-sort_by [] = (λ m. m, λ m. m)
    mem-sort_by (x ∷ xs) =
        let (into, out) = mem-sort_by xs in
        let (insert, remove) = insert_by-mem x (sort_by xs) in
        (λ m. insert (mem-under x into m), λ m. mem-under x out (remove m))

module _ {A : Type 0} (eq : A → A → Bool) where
  unfoldable pub compact_after : A → List A → List A
  compact_after x [] = []
  compact_after x (y ∷ ys) = let rest = compact_after y ys in if eq x y then rest else y ∷ rest

  unfoldable pub compact_by : List A → List A
  unfolding compact_after
  compact_by [] = []
  compact_by (x ∷ xs) = x ∷ compact_after x xs
