-- ===== src/Store/Ledger/Postings.antt =====
-- internal/store/store.go, `TransferCurrency`: one posting on the ledger as a whole.
use clearinghouse_batteries.Base.{
  String, ◌≡◌, refl, ap, Bool, true, false, ◌&&◌, ◌==◌, if◌then◌else◌, List, arith, eq_iff,
  Bool-cases, inl, inr,
}
use clearinghouse_batteries.Base.Int.{ℤ, pos, ◌+ℤ◌, ◌-ℤ◌, int_laws, pos_part, neg_part}
use clearinghouse_batteries.Db.{Ledger, LedgerEntry, AccountBalance}
use clearinghouse_batteries.Store.Ledger.{balance_of, moved, add_entry, set_balance}
use clearinghouse_batteries.Store.Ledger.Sums.{
  signed, counted, sum_where, total, sum_where-append, total-stored, balance_of-stored,
  same_account,
}

abbrev pub concerns : String → String → String → LedgerEntry → Bool
concerns a o c e = same_account e.account_type e.account_id e.currency a o c

abbrev pub within : String → String → LedgerEntry → Bool
within t c e = e.transaction_id == t && e.currency == c

-- Every balance is the sum of its account's entries; and the entries of each transaction, like
-- the balances of each currency, sum to zero, but for `d` in transaction `id` and currency `cur`.
pub record OffBy (id cur : String) (d : ℤ) (l : Ledger) : Type 0 where
  pub projected :
      (a o c : String) → balance_of a o c l.balances ≡ sum_where (concerns a o c) l.entries
  pub by_transaction :
      (t c : String) → sum_where (within t c) l.entries ≡ counted (id == t && cur == c) d
  pub totals : (c : String) → total c l.balances ≡ counted (cur == c) d

-- The ledger after an entry and its new balance.
abbrev pub posted : LedgerEntry → Ledger → Ledger
posted e l =
    set_balance e.account_type e.account_id e.currency
      (moved e.direction (balance_of e.account_type e.account_id e.currency l.balances)
        e.amount_units)
      (add_entry e l)

pub moved-eq : (dir : String) (b n : ℤ) → moved dir b n ≡ b +ℤ signed dir n
moved-eq dir b n =
    elim (dir == "debit")
      as (λ t. (if t then b -ℤ n else b +ℤ n) ≡ b +ℤ (if t then pos 0 -ℤ n else n)) [
        | true ↦ omega int_laws
        | false ↦ refl
      ]

counted-add : (b : Bool) (x y : ℤ) → counted b x +ℤ counted b y ≡ counted b (x +ℤ y)
counted-add true x y = refl
counted-add false x y = omega int_laws

-- From `t + b = s + m` and `m = b + n`, with all but `s` and `t` counted or not alike.
shift :
    (b : Bool) (t s old n : ℤ)
    → t +ℤ counted b old ≡ s +ℤ counted b (old +ℤ n)
    → t ≡ s +ℤ counted b n
shift true t s old n h = omega (int_laws, ap pos_part h, ap neg_part h)
shift false t s old n h = omega (int_laws, ap pos_part h, ap neg_part h)

pub at_account :
    (x y z a o c : String) (rs : List AccountBalance)
    → same_account x y z a o c ≡ true
    → balance_of a o c rs ≡ balance_of x y z rs
at_account x y z a o c rs h = ground (arith, eq_iff x a, eq_iff y o, eq_iff z c)

module _ {id cur : String} {d : ℤ} (e : LedgerEntry) (l : Ledger) (h : OffBy id cur d l) where
  abbrev n : ℤ
  n = signed e.direction e.amount_units

  abbrev old : ℤ
  old = balance_of e.account_type e.account_id e.currency l.balances

  -- What a posting does to every balance: its own account moves, and no other.
  pub balance_of-posted :
      (a o c : String)
      → balance_of a o c (posted e l).balances
        ≡ balance_of a o c l.balances +ℤ counted (concerns a o c e) n
  balance_of-posted a o c =
      rw
        (balance_of-stored e.account_type e.account_id e.currency
          (moved e.direction old e.amount_units) a o c l.balances)
        (elim (Bool-cases (concerns a o c e)) [
          | inl hit ↦
              rw (hit, at_account e.account_type e.account_id e.currency a o c l.balances hit)
                (moved-eq e.direction old e.amount_units)
          | inr miss ↦ rw miss (omega int_laws)
        ])

  projected-posted :
      (a o c : String)
      → balance_of a o c (posted e l).balances ≡ sum_where (concerns a o c) (posted e l).entries
  projected-posted a o c =
      rw (balance_of-posted a o c, h.projected a o c, sum_where-append (concerns a o c) l.entries e)

  totals-posted :
      (c : String)
      → total c (posted e l).balances ≡ counted (cur == c) d +ℤ counted (e.currency == c) n
  totals-posted c = rw (← h.totals c) (
      shift (e.currency == c) (total c (posted e l).balances) (total c l.balances) old n (
        rw (← moved-eq e.direction old e.amount_units) (
          total-stored e.account_type e.account_id e.currency (moved e.direction old e.amount_units)
            c l.balances)))

  pub posted-OffBy : e.transaction_id ≡ id → e.currency ≡ cur → OffBy id cur (d +ℤ n) (posted e l)
  posted-OffBy et ec = record {
    projected = projected-posted;
    by_transaction = λ t c.
        rw (sum_where-append (within t c) l.entries e, h.by_transaction t c, et, ec)
          (counted-add (id == t && cur == c) d n);
    totals = λ c. rw (totals-posted c, ec) (counted-add (cur == c) d n);
  }
