-- ===== src/Base/Lists.antt =====
-- Lists as the rows of a table, in order of insertion: first match, update where, delete where.
use Prim.Native.Nat.{ℕ, suc, ◌+◌}
use mathlib.Core.Path.{◌≡◌, refl, ap, subst}
use mathlib.Core.Bool.{Bool, true, false}
use mathlib.Core.Option.{Option, none, some}
use mathlib.Core.List.{List, [], ◌∷◌, ◌++◌, map}
use native.Mathlib.Omega.{arith}
use mathlib.Core.Logic.{inl, inr}
use clearinghouse_batteries.Base.Tests.{if◌then◌else◌, Bool-cases}

module _ {ℓ} {A : Type ℓ} where
  abbrev pub length : List A → ℕ
  length [] = 0
  length (x ∷ xs) = suc (length xs)

  -- The first row that meets a condition.
  abbrev pub find : (A → Bool) → List A → Option A
  find p [] = none
  find p (x ∷ xs) = if p x then some x else find p xs

  -- `WHERE p`, as a filter.
  abbrev pub select : (A → Bool) → List A → List A
  select p [] = []
  select p (x ∷ xs) = if p x then x ∷ select p xs else select p xs

  -- `UPDATE … SET f WHERE p`
  abbrev pub update : (A → Bool) → (A → A) → List A → List A
  update p f [] = []
  update p f (x ∷ xs) = (if p x then f x else x) ∷ update p f xs

  -- `INSERT row ON CONFLICT (p) DO UPDATE SET f`
  abbrev pub upsert : (A → Bool) → (A → A) → A → List A → List A
  upsert p f row [] = row ∷ []
  upsert p f row (x ∷ xs) = if p x then f x ∷ xs else x ∷ upsert p f row xs

  abbrev pub any : (A → Bool) → List A → Bool
  any p [] = false
  any p (x ∷ xs) = if p x then true else any p xs

  pub length-append : (xs ys : List A) → length (xs ++ ys) ≡ length xs + length ys
  length-append [] ys = omega arith
  length-append (x ∷ xs) ys = omega (arith, length-append xs ys)

abbrev pub All {ℓ κ} : {A : Type ℓ} → (A → Type κ) → List A → Type κ
All P [] = Unit
All P (x ∷ xs) = P x × All P xs

pub All-append {ℓ κ} :
    {A : Type ℓ} (P : A → Type κ) (xs ys : List A) → All P xs → All P ys → All P (xs ++ ys)
All-append P [] ys hx hy = hy
All-append P (x ∷ xs) ys hx hy = (hx.0, All-append P xs ys hx.1 hy)

-- The row that an upsert looks for is there afterwards.
pub find-upsert {ℓ κ} :
    {A : Type ℓ} {B : Type κ} (g : Option A → B) (p : A → Bool) (f : A → A) (row : A) (b : B)
    (xs : List A)
    → p row ≡ true
    → ((x : A) → p x ≡ true → p (f x) ≡ true)
    → ((x : A) → p x ≡ true → g (some (f x)) ≡ b)
    → g (some row) ≡ b
    → g (find p (upsert p f row xs)) ≡ b
find-upsert g p f row b [] hit keeps new old = rw hit old
find-upsert g p f row b (x ∷ xs) hit keeps new old = elim (Bool-cases (p x)) [
  | inl found ↦ rw (found, keeps x found) (new x found)
  | inr missing ↦ rw (missing) (rw missing (find-upsert g p f row b xs hit keeps new old))
]

-- The first match of an appended row, where no row matched before.
pub find-append {ℓ} :
    {A : Type ℓ} (p : A → Bool) (row : A) (xs : List A)
    → find p xs ≡ none
    → p row ≡ true
    → find p (xs ++ row ∷ []) ≡ some row
find-append p row [] h k = rw k
find-append p row (x ∷ xs) h k = elim (Bool-cases (p x)) [
  | inl hit ↦ let found = subst (λ b. (if b then some x else find p xs) ≡ none) hit h in cc
  | inr miss ↦
      rw miss
        (find-append p row xs (subst (λ b. (if b then some x else find p xs) ≡ none) miss h) k)
]

-- `UPDATE … SET f WHERE q` on one row.
abbrev pub changed {ℓ} : {A : Type ℓ} → (A → Bool) → (A → A) → A → A
changed q f x = if q x then f x else x

abbrev pub changed_row {ℓ} : {A : Type ℓ} → (A → Bool) → (A → A) → Option A → Option A
changed_row q f none = none
changed_row q f (some x) = some (changed q f x)

-- An update that keeps a key changes the row that the key finds, and finds no other.
pub find-update {ℓ} :
    {A : Type ℓ} (p q : A → Bool) (f : A → A) (xs : List A)
    → ((x : A) → p (changed q f x) ≡ p x)
    → find p (update q f xs) ≡ changed_row q f (find p xs)
find-update p q f [] k = refl
find-update p q f (x ∷ xs) k = elim (Bool-cases (p x)) [
  | inl hit ↦ rw (k x, hit)
  | inr miss ↦ rw (k x, miss) (find-update p q f xs k)
]

pub find-true {ℓ} :
    {A : Type ℓ} (p : A → Bool) (xs : List A) (x : A) → find p xs ≡ some x → p x ≡ true
find-true p [] x h = cc
find-true p (y ∷ ys) x h = elim (Bool-cases (p y)) [
  | inl hit ↦
      subst (λ z. p z ≡ true)
        (ap (λ (o : Option _). elim o [ none ↦ y | some z ↦ z ])
          (subst (λ b. (if b then some y else find p ys) ≡ some x) hit h))
        hit
  | inr miss ↦ find-true p ys x (subst (λ b. (if b then some y else find p ys) ≡ some x) miss h)
]

module _ {ℓ κ} {A : Type ℓ} (P : A → Type κ) where
  -- A condition of every row holds of the row that is found.
  pub All-find : (p : A → Bool) (xs : List A) (x : A) → All P xs → find p xs ≡ some x → P x
  All-find p [] x h e = cc
  All-find p (y ∷ ys) x h e = elim (Bool-cases (p y)) [
    | inl hit ↦
        subst P
          (ap (λ (o : Option A). elim o [ none ↦ y | some z ↦ z ])
            (subst (λ b. (if b then some y else find p ys) ≡ some x) hit e))
          h.0
    | inr miss ↦
        All-find p ys x h.1 (subst (λ b. (if b then some y else find p ys) ≡ some x) miss e)
  ]

  -- An upsert of one row, whatever it replaces.
  pub All-upsert :
      (p : A → Bool) (row : A) (xs : List A) → P row → All P xs → All P (upsert p (λ _. row) row xs)
  All-upsert p row [] new old = (new, tt)
  All-upsert p row (x ∷ xs) new old = elim (Bool-cases (p x)) [
    | inl hit ↦ rw hit (new, old.1)
    | inr miss ↦ rw miss (old.0, All-upsert p row xs new old.1)
  ]

  pub All-map : (f : A → A) (xs : List A) → ((x : A) → P x → P (f x)) → All P xs → All P (map f xs)
  All-map f [] k h = tt
  All-map f (x ∷ xs) k h = (k x h.0, All-map f xs k h.1)

  pub All-weaken {μ} : {Q : A → Type μ} (xs : List A) → ((x : A) → Q x → P x) → All Q xs → All P xs
  All-weaken [] k h = tt
  All-weaken (x ∷ xs) k h = (k x h.0, All-weaken xs k h.1)

-- An upsert under one key leaves what another key finds.
pub find-upsert-other {ℓ} :
    {A : Type ℓ} (p q : A → Bool) (f : A → A) (row : A) (xs : List A)
    → p row ≡ false
    → ((x : A) → q x ≡ true → (p x ≡ false) × (p (f x) ≡ false))
    → find p (upsert q f row xs) ≡ find p xs
find-upsert-other p q f row [] new old = rw new
find-upsert-other p q f row (x ∷ xs) new old = elim (Bool-cases (q x)) [
  | inl hit ↦ let (before, after) = old x hit in rw (hit, after, before)
  | inr miss ↦ elim (Bool-cases (p x)) [
    | inl found ↦ rw (miss, found)
    | inr skipped ↦ rw (miss, skipped) (find-upsert-other p q f row xs new old)
  ]
]
