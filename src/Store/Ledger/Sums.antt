-- ===== src/Store/Ledger/Sums.antt =====
-- internal/store/store.go: sums over the entries and the balances of the ledger.
use clearinghouse_batteries.Base.{
  String, ◌≡◌, refl, Bool, true, false, ◌&&◌, ◌==◌, eq_iff, if◌then◌else◌, List, [], ◌∷◌, ◌++◌,
  arith, Bool-cases, inl, inr, ap,
}
use clearinghouse_batteries.Base.Int.{ℤ, pos, ◌+ℤ◌, ◌-ℤ◌, pos_part, neg_part, int_laws}
use clearinghouse_batteries.Base.Lists.{upsert}
use clearinghouse_batteries.Db.{AccountBalance, LedgerEntry}
use clearinghouse_batteries.Store.Ledger.{is_account, balance_of}

-- A credit counts as it stands, a debit with the opposite sign.
abbrev pub signed : String → ℤ → ℤ
signed dir n = if dir == "debit" then pos 0 -ℤ n else n

abbrev pub counted : Bool → ℤ → ℤ
counted b n = if b then n else pos 0

counted_zero : (b : Bool) → counted b (pos 0) ≡ pos 0
counted_zero true = refl
counted_zero false = refl

-- The signed sum of the entries that meet a condition.
abbrev pub sum_where : (LedgerEntry → Bool) → List LedgerEntry → ℤ
sum_where p [] = pos 0
sum_where p (e ∷ es) = counted (p e) (signed e.direction e.amount_units) +ℤ sum_where p es

-- The sum of all balances in one currency.
abbrev pub total : String → List AccountBalance → ℤ
total c [] = pos 0
total c (r ∷ rs) = counted (r.currency == c) r.balance_units +ℤ total c rs

pub sum_where-append :
    (p : LedgerEntry → Bool) (es : List LedgerEntry) (e : LedgerEntry)
    → sum_where p (es ++ e ∷ [])
      ≡ sum_where p es +ℤ counted (p e) (signed e.direction e.amount_units)
sum_where-append p [] e = omega int_laws
sum_where-append p (x ∷ es) e = rw (sum_where-append p es e) (omega int_laws)

==_sym : (a b : String) → (a == b) ≡ (b == a)
==_sym a b = ground (arith, eq_iff a b, eq_iff b a)

-- Two tests for accounts agree on the row of one of them.
abbrev pub same_account : String → String → String → String → String → String → Bool
same_account account owner currency a o c = account == a && owner == o && currency == c

module _ (account owner currency : String) (r : AccountBalance) where
  pub is_account-true :
      is_account account owner currency r ≡ true
      → (r.account_type ≡ account) × (r.account_id ≡ owner) × (r.currency ≡ currency)
  unfolding is_account
  is_account-true h =
      ground (
        arith,
        eq_iff r.account_type account,
        eq_iff r.account_id owner,
        eq_iff r.currency currency,
      )

module _ (account owner currency a o c : String) (r : AccountBalance) where
  is_account-same :
      is_account account owner currency r ≡ true
      → is_account a o c r ≡ same_account account owner currency a o c
  unfolding is_account
  is_account-same h =
      let (ea, eo, ec) = is_account-true account owner currency r h in rw (ea, eo, ec)

  same-is_account :
      is_account a o c r ≡ true
      → same_account account owner currency a o c ≡ is_account account owner currency r
  unfolding is_account
  same-is_account h =
      let (ea, eo, ec) = is_account-true a o c r h in
      rw (ea, eo, ec, ==_sym account a, ==_sym owner o, ==_sym currency c)

is_account-copy :
    (a o c : String) (value : ℤ) (r : AccountBalance)
    → is_account a o c (record r { balance_units = value }) ≡ is_account a o c r
unfolding is_account
is_account-copy a o c value r = refl

module _ (account owner currency : String) (value : ℤ) where
  abbrev row : AccountBalance
  row = record {
    account_type = account;
    account_id = owner;
    currency = currency;
    balance_units = value;
  }

  abbrev pub stored : List AccountBalance → List AccountBalance
  stored = upsert (is_account account owner currency) (λ r. record r { balance_units = value }) row

  pub total-stored :
      (c : String) (rs : List AccountBalance)
      → total c (stored rs) +ℤ counted (currency == c) (balance_of account owner currency rs)
        ≡ total c rs +ℤ counted (currency == c) value
  unfolding balance_of
  total-stored c [] = rw (counted_zero (currency == c)) (omega int_laws)
  total-stored c (r ∷ rs) = elim (Bool-cases (is_account account owner currency r)) [
    | inl hit ↦ rw (hit, (is_account-true account owner currency r hit).2) (omega int_laws)
    | inr miss ↦
        let ih = total-stored c rs in rw miss (omega (int_laws, ap pos_part ih, ap neg_part ih))
  ]

  pub balance_of-stored :
      (a o c : String) (rs : List AccountBalance)
      → balance_of a o c (stored rs)
        ≡ (if same_account account owner currency a o c then value else balance_of a o c rs)
  unfolding balance_of
  balance_of-stored a o c [] = unfold is_account in ground arith
  balance_of-stored a o c (r ∷ rs) = ground (
    arith,
    is_account-same account owner currency a o c r,
    same-is_account account owner currency a o c r,
    is_account-copy a o c value r,
    balance_of-stored a o c rs,
  )
