-- ===== src/Store/Ledger/Sound.antt =====
-- internal/store/store.go, `TransferCurrency`: a sound ledger, where the stored balances are the
-- sums of the entries, and debits equal credits in every transaction and in every currency.
use clearinghouse_batteries.Base.{
  String, ◌≡◌, refl, ap, ◌∙◌, sym, Bool, true, false, ◌&&◌, ◌==◌, if◌then◌else◌, [], ◌∷◌, ◌++◌,
  subst,
}
use clearinghouse_batteries.Base.Int.{ℤ, pos, ◌+ℤ◌, int_laws}
use clearinghouse_batteries.Base.Exec.{raise, failure, ◌>>◌}
use clearinghouse_batteries.Base.Exec.Keeps.{
  Keeps, Ensures, Ensures-bind, Ensures-after, Keeps-ensures, ensures-Keeps,
}
use clearinghouse_batteries.Db.{Db, Ledger, LedgerEntry, LedgerTransaction}
use clearinghouse_batteries.Db.Tx.{query}
use clearinghouse_batteries.Db.Tx.Rules.{
  OfDb, tx_rules, Ensures-execute, Ensures-query, Keeps-fresh_id, Ensures-weaken,
  Ensures-strengthen,
}
use clearinghouse_batteries.Store.Ledger.{
  balance_of, moved, add_entry, set_balance, on_ledger, post, balance_currency, is_currency,
  insert_transaction, transfer_currency, transfer,
}
use clearinghouse_batteries.Store.Ledger.Frame.{update_balance_metrics-Keeps}
use clearinghouse_batteries.Store.Ledger.Sums.{signed, counted, sum_where, total}
use clearinghouse_batteries.Store.Ledger.Postings.{concerns, within, OffBy, posted-OffBy}

pub record Sound (l : Ledger) : Type 0 where
  pub projected :
      (a o c : String) → balance_of a o c l.balances ≡ sum_where (concerns a o c) l.entries
  pub by_transaction : (t c : String) → sum_where (within t c) l.entries ≡ pos 0
  pub totals : (c : String) → total c l.balances ≡ pos 0

abbrev pub IsSound : Db → Type 0
IsSound d = Sound d.ledger

counted_none : (b : Bool) → counted b (pos 0) ≡ pos 0
counted_none true = refl
counted_none false = refl

Sound-OffBy : (id cur : String) (l : Ledger) → Sound l → OffBy id cur (pos 0) l
Sound-OffBy id cur l h = record {
  projected = h.projected;
  by_transaction = λ t c. h.by_transaction t c ∙ sym (counted_none (id == t && cur == c));
  totals = λ c. h.totals c ∙ sym (counted_none (cur == c));
}

OffBy-Sound : (id cur : String) (l : Ledger) → OffBy id cur (pos 0) l → Sound l
OffBy-Sound id cur l h = record {
  projected = h.projected;
  by_transaction = λ t c. h.by_transaction t c ∙ counted_none (id == t && cur == c);
  totals = λ c. h.totals c ∙ counted_none (cur == c);
}

module _ (id account owner dir cur : String) (n at x : ℤ) where
  abbrev Before : Db → Type 0
  Before d = OffBy id cur x d.ledger

  abbrev After : Db → Type 0
  After d = OffBy id cur (x +ℤ signed dir n) d.ledger

  abbrev entry : String → LedgerEntry
  entry entry_id = record {
    id = entry_id;
    transaction_id = id;
    account_type = account;
    account_id = owner;
    direction = dir;
    amount_units = n;
    currency = cur;
    created_at_ms = at;
  }

  -- The entry is in, its balance is not yet.
  abbrev Added : LedgerEntry → Db → Type 0
  Added e d = (l : Ledger) × OffBy id cur x l × (d.ledger ≡ add_entry e l)

  abbrev Read : LedgerEntry → ℤ → Db → Type 0
  Read e old d =
      (l : Ledger) × OffBy id cur x l
      × (d.ledger ≡ add_entry e l)
      × (old ≡ balance_of account owner cur l.balances)

  balance_step :
      (e : LedgerEntry)
      → Ensures (OfDb (Added e)) (balance_currency account owner cur) (λ old. OfDb (Read e old))
  unfolding balance_currency
  balance_step e =
      elim (is_currency cur)
        as (λ b.
          Ensures (OfDb (Added e))
            (if b
              then query (λ db. balance_of account owner cur db.ledger.balances)
              else raise (failure "invalid balance currency"))
            (λ old. OfDb (Read e old))) [
              | true ↦ Ensures-query _ (λ d (l, off, eq).
                  (l, off, eq, ap (λ (k : Ledger). balance_of account owner cur k.balances) eq))
              | false ↦ unfold raise in record { at = λ w h. tt }
            ]

  store_balance :
      (entry_id : String) (old : ℤ)
      → (d : Db) → Read (entry entry_id) old d
      → After (on_ledger (set_balance account owner cur (moved dir old n)) d)
  store_balance entry_id old d (l, off, eq, read) =
      rw (eq, read) (posted-OffBy (entry entry_id) l off refl refl)

  post-OffBy : Ensures (OfDb Before) (post id account owner dir cur n at) (λ _. OfDb After)
  unfolding post
  post-OffBy = Ensures-after _ _ Keeps-fresh_id λ entry_id.
      Ensures-bind _ _ (Ensures-execute {Q = Added (entry entry_id)} _ (λ d h. (d.ledger, h, refl)))
        λ _. Ensures-bind _ _ (balance_step (entry entry_id)) λ old.
          Ensures-bind _ _ (Ensures-execute {Q = After} _ (store_balance entry_id old)) λ _.
            Keeps-ensures (
              update_balance_metrics-Keeps {P = After} (λ f d h. h) account owner cur old
                (moved dir old n))

insert_transaction-Sound : (row : LedgerTransaction) → Keeps (OfDb IsSound) (insert_transaction row)
unfolding insert_transaction
insert_transaction-Sound row = search (
  tx_rules,
  λ (d : Db) (h : IsSound d).
      let k : IsSound (on_ledger (λ l. record l { transactions = l.transactions ++ row ∷ [] }) d) =
        record { projected = h.projected; by_transaction = h.by_transaction; totals = h.totals } in
      k,
)

offsetting : (n : ℤ) → pos 0 +ℤ signed "debit" n +ℤ signed "credit" n ≡ pos 0
offsetting n = omega int_laws

post_both :
    (id debit debit_id credit credit_id cur : String) (n at : ℤ)
    → Keeps
        (OfDb IsSound)
        (post id debit debit_id "debit" cur n at >> post id credit credit_id "credit" cur n at)
post_both id debit debit_id credit credit_id cur n at = ensures-Keeps (
    Ensures-weaken _ (λ d h. Sound-OffBy id cur d.ledger h)
      (Ensures-bind _ _ (post-OffBy id debit debit_id "debit" cur n at (pos 0)) λ _.
        Ensures-strengthen _
          (λ d h.
            OffBy-Sound id cur d.ledger (subst (λ x. OffBy id cur x d.ledger) (offsetting n) h))
          (post-OffBy id credit credit_id "credit" cur n at (pos 0 +ℤ signed "debit" n))))

-- A transfer that returns leaves a sound ledger sound: `TransferCurrency` books each amount twice.
pub transfer_currency-Sound :
    (key reason ref_type ref_id debit debit_id credit credit_id cur : String) (n : ℤ)
    → Keeps
        (OfDb IsSound)
        (transfer_currency key reason ref_type ref_id debit debit_id credit credit_id cur n)
unfolding transfer_currency
transfer_currency-Sound key reason ref_type ref_id debit debit_id credit credit_id cur n =
    search (tx_rules, insert_transaction-Sound, post_both) depth 20 fits 2000

pub transfer-Sound :
    (key reason ref_type ref_id debit debit_id credit credit_id : String) (n : ℤ)
    → Keeps (OfDb IsSound) (transfer key reason ref_type ref_id debit debit_id credit credit_id n)
unfolding transfer
transfer-Sound key reason ref_type ref_id debit debit_id credit credit_id n =
    transfer_currency-Sound key reason ref_type ref_id debit debit_id credit credit_id "eth" n
