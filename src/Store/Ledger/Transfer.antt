-- ===== src/Store/Ledger/Transfer.antt =====
-- internal/store/store.go, `TransferCurrency`: its effect on the balances.
pub mod Tests
use clearinghouse_batteries.Base.{
  String, ◌≡◌, refl, ap, ◌∙◌, sym, Bool, true, false, ◌&&◌, ◌==◌, if◌then◌else◌, not, List, [], ◌∷◌,
  ◌++◌, inl, inr, Bool-cases, arith,
}
use clearinghouse_batteries.Base.Int.{
  ℤ, pos, ◌+ℤ◌, ◌-ℤ◌, int_laws, is_zero, is_negative, eqb_ℤ_iff, pos_part, neg_part,
}
use clearinghouse_batteries.Base.Exec.{Result, ok, err, pure, raise, failure, ◌>>=◌, ◌>>◌}
use clearinghouse_batteries.Base.Exec.Keeps.{
  Keeps, Ensures, Returns, Ensures-if, Ensures-raise, Ensures-bind, Ensures-after, Keeps-ensures,
}
use clearinghouse_batteries.Db.{Db, World, Ledger, LedgerTransaction, AccountBalance}
use clearinghouse_batteries.Db.Tx.{Tx, fresh_id, now, query, execute}
use clearinghouse_batteries.Db.Tx.Rules.{
  OfDb, tx_rules, Ensures-execute, Ensures-query, Ensures-strengthen, Keeps-fresh_id, Keeps-now,
}
use clearinghouse_batteries.Store.Ledger.{
  balance_of, moved, add_entry, set_balance, on_ledger, post, balance_currency, is_currency,
  insert_transaction, transfer_currency,
}
use clearinghouse_batteries.Store.Ledger.Frame.{update_balance_metrics-Keeps}
use clearinghouse_batteries.Store.Ledger.Sums.{signed, counted, same_account, balance_of-stored}
use clearinghouse_batteries.Store.Ledger.Postings.{moved-eq, at_account}

-- A view of the balances: the balance of each account in each currency.
abbrev pub View : Type 0
View = String → String → String → ℤ

abbrev pub view : Db → View
view d a o c = balance_of a o c d.ledger.balances

pub record Shows (f : View) (l : Ledger) : Type 0 where
  pub at : (a o c : String) → balance_of a o c l.balances ≡ f a o c

abbrev pub Showing : View → Db → Type 0
Showing f d = Shows f d.ledger

-- The view with `n` more on one account.
abbrev pub plus : String → String → String → ℤ → View → View
plus account owner cur n f a o c = f a o c +ℤ counted (same_account account owner cur a o c) n

module _ (id account owner dir cur : String) (n at : ℤ) (f : View) where
  Read : ℤ → Db → Type 0
  Read old d = Shows f d.ledger × (old ≡ f account owner cur)

  balance_step :
      Ensures (OfDb (Showing f)) (balance_currency account owner cur) (λ old. OfDb (Read old))
  unfolding balance_currency Read
  balance_step =
      elim (is_currency cur)
        as (λ b.
          Ensures (OfDb (Showing f))
            (if b
              then query (λ db. balance_of account owner cur db.ledger.balances)
              else raise (failure "invalid balance currency"))
            (λ old. OfDb (Read old))) [
              | true ↦ Ensures-query _ (λ d h. (h, h.at account owner cur))
              | false ↦ unfold raise in record { at = λ w h. tt }
            ]

  moved-plus :
      (old : ℤ) (d : Db) (a o c : String)
      → Read old d
      → (if same_account account owner cur a o c then moved dir old n else view d a o c)
        ≡ plus account owner cur (signed dir n) f a o c
  unfolding Read
  moved-plus old d a o c (h, read) = elim (Bool-cases (same_account account owner cur a o c)) [
    | inl hit ↦ rw (
      hit,
      moved-eq dir old n,
      read,
      ← h.at account owner cur,
      ← h.at a o c,
      at_account account owner cur a o c d.ledger.balances hit,
    )
    | inr miss ↦ rw (miss, h.at a o c) (omega int_laws)
  ]

  store_balance :
      (old : ℤ) (d : Db)
      → Read old d
      → Shows
          (plus account owner cur (signed dir n) f)
          (set_balance account owner cur (moved dir old n) d.ledger)
  store_balance old d h = record {
    at = λ a o c.
        balance_of-stored account owner cur (moved dir old n) a o c d.ledger.balances
        ∙ moved-plus old d a o c h;
  }

  post-Shows :
      Ensures
        (OfDb (Showing f))
        (post id account owner dir cur n at)
        (λ _. OfDb (Showing (plus account owner cur (signed dir n) f)))
  unfolding post
  post-Shows = Ensures-after _ _ Keeps-fresh_id λ entry_id.
      Ensures-bind _ _ (Ensures-execute {Q = Showing f} _ (λ d h. record { at = h.at })) λ _.
        Ensures-bind _ _ balance_step λ old.
          Ensures-bind _ _
            (Ensures-execute {Q = Showing (plus account owner cur (signed dir n) f)} _
              (store_balance old))
            λ _. Keeps-ensures (
              update_balance_metrics-Keeps {P = Showing (plus account owner cur (signed dir n) f)}
                (λ g d h. record { at = h.at }) account owner cur old (moved dir old n))

zero-counted : (b : Bool) (n : ℤ) → is_zero n ≡ true → counted b n ≡ pos 0
zero-counted true n h = (eqb_ℤ_iff n (pos 0)).0 h
zero-counted false n h = refl

zero-difference : (n : ℤ) → n ≡ pos 0 → pos 0 -ℤ n ≡ pos 0
zero-difference n h = omega (int_laws, ap pos_part h, ap neg_part h)

zero-negated : (n : ℤ) → is_zero n ≡ true → is_zero (pos 0 -ℤ n) ≡ true
zero-negated n h =
    (eqb_ℤ_iff (pos 0 -ℤ n) (pos 0)).1 (zero-difference n ((eqb_ℤ_iff n (pos 0)).0 h))

plus-zero :
    (account owner cur : String) (n : ℤ) (f : View) (l : Ledger)
    → is_zero n ≡ true
    → Shows f l
    → Shows (plus account owner cur n f) l
plus-zero account owner cur n f l h s = record {
  at = λ a o c.
      s.at a o c ∙ rw (zero-counted (same_account account owner cur a o c) n h) (omega int_laws);
}

insert_transaction-Shows :
    (f : View) (row : LedgerTransaction) → Keeps (OfDb (Showing f)) (insert_transaction row)
unfolding insert_transaction
insert_transaction-Shows f row = search (
  tx_rules,
  λ (d : Db) (h : Shows f d.ledger).
      let k : Shows f (record (d.ledger) { transactions = d.ledger.transactions ++ row ∷ [] }) =
        record { at = h.at } in
      k,
)

module _ (key reason ref_type ref_id debit debit_id credit credit_id cur : String) (n : ℤ)
    (f : View) where
  -- What a transfer makes of the balances.
  abbrev pub transferred : View
  transferred = plus credit credit_id cur n (plus debit debit_id cur (pos 0 -ℤ n) f)

  transfer_nothing :
      is_zero n ≡ true → Ensures (OfDb (Showing f)) (pure tt) (λ _. OfDb (Showing transferred))
  unfolding pure
  transfer_nothing h = record {
    at = λ w s. record {
      holds =
          plus-zero credit credit_id cur n (plus debit debit_id cur (pos 0 -ℤ n) f) w.db.ledger h
            (plus-zero debit debit_id cur (pos 0 -ℤ n) f w.db.ledger (zero-negated n h) s.holds);
    };
  }

  pub transfer_currency-Shows :
      Ensures
        (OfDb (Showing f))
        (transfer_currency key reason ref_type ref_id debit debit_id credit credit_id cur n)
        (λ _. OfDb (Showing transferred))
  unfolding transfer_currency
  transfer_currency-Shows =
      Ensures-if (not (is_currency cur)) _ _ (λ h. Ensures-raise _)
        λ known.
          Ensures-if (is_negative n) _ _ (λ h. Ensures-raise _)
            λ signless. Ensures-if (is_zero n) _ _ transfer_nothing λ some_units.
              Ensures-after _ _ Keeps-fresh_id λ id. Ensures-after _ _ Keeps-now λ at.
                Ensures-after _ _ (insert_transaction-Shows f _) λ inserted.
                  Ensures-bind _ _ (post-Shows id debit debit_id "debit" cur n at f) λ debited.
                    post-Shows id credit credit_id "credit" cur n at
                      (plus debit debit_id cur (pos 0 -ℤ n) f)

  transferred-at :
      (r : Result (Unit {0}) × World)
      → Returns (λ _. OfDb (Showing transferred)) r
      → (r.0 ≡ ok tt)
      → (a o c : String) → view r.1.db a o c ≡ transferred a o c
  transferred-at (ok u, w) h e a o c = h.holds.at a o c
  transferred-at (err x, w) h e a o c = cc

-- A transfer that returns takes its amount from the balance of the debit account, adds it to that
-- of the credit account, and leaves every other balance as it was (a transfer from an account to
-- itself leaves all of them).
pub transfer_currency-balances :
    (key reason ref_type ref_id debit debit_id credit credit_id cur : String) (n : ℤ) (w : World)
    → (transfer_currency key reason ref_type ref_id debit debit_id credit credit_id cur n w).0
      ≡ ok tt
    → (a o c : String)
    → view
        (transfer_currency key reason ref_type ref_id debit debit_id credit credit_id cur n w).1.db
        a
        o
        c
      ≡ view w.db a o c
        +ℤ counted (same_account debit debit_id cur a o c) (pos 0 -ℤ n)
        +ℤ counted (same_account credit credit_id cur a o c) n
transfer_currency-balances key reason ref_type ref_id debit debit_id credit credit_id cur n w =
    let f = view w.db in
    transferred-at key reason ref_type ref_id debit debit_id credit credit_id cur n f
      (transfer_currency key reason ref_type ref_id debit debit_id credit credit_id cur n w)
      ((transfer_currency-Shows key reason ref_type ref_id debit debit_id credit credit_id cur n
          f).at
        w (record { holds = record { at = λ a o c. refl } }))
