-- ===== src/Store/Manage/Final.antt =====
-- internal/store/manage.go, `SetStatus`: the last status of a grant.
use clearinghouse_batteries.Base.{
  String, ◌≡◌, refl, ap, ◌∙◌, sym, subst, Bool, true, false, not, ◌&&◌, ◌==◌, if◌then◌else◌, Option,
  none, some, List, Bool-cases, inl, inr, arith, eq_iff,
}
use clearinghouse_batteries.Base.Int.{ℤ}
use clearinghouse_batteries.Base.Lists.{find, changed, changed_row, find-update, find-true}
use clearinghouse_batteries.Base.Exec.{Error, no_rows, pure, raise, raise_if, or_raise, ◌>>=◌}
use clearinghouse_batteries.Base.Exec.Keeps.{
  Keeps, Ensures, Ensures-bind, Ensures-after, ensures-Keeps,
}
use clearinghouse_batteries.Db.{Db, World, Grant, Allocation}
use clearinghouse_batteries.Db.Tx.{query, write}
use clearinghouse_batteries.Db.Tx.Rules.{
  OfDb, tx_rules, write-keeps, Ensures-execute, Ensures-query,
}
use clearinghouse_batteries.Store.Summary.{change_inventory}
use clearinghouse_batteries.Store.Summary.Frame.{change_inventory-Keeps}
use clearinghouse_batteries.Store.Ledger.{balance_currency, transfer_currency}
use clearinghouse_batteries.Store.Ledger.Others.{transfer_currency-Keeps}
use clearinghouse_batteries.Store.Manage.Grants.{has_id}
use clearinghouse_batteries.Store.Manage.Status.{
  set_grant_status, set_allocation_status, return_unused, store_status, change_allocation_status,
  revoke_key, revoke_session, set_status,
}

abbrev is_closed : Option Grant → Bool
is_closed none = false
is_closed (some g) = g.status == "closed"

-- The grant is stored, and closed.
abbrev pub Closed : String → Db → Type 0
Closed id d = is_closed (find (has_id id) d.grants) ≡ true

Ensures-passed :
    {P : Db → Type 0} (c : Bool) (e : Error)
    → Ensures (OfDb P) (raise_if c e) (λ _. OfDb (λ d. P d × (c ≡ false)))
unfolding raise_if raise pure
Ensures-passed true e = record { at = λ w h. tt }
Ensures-passed false e = record { at = λ w h. record { holds = (h.holds, refl) } }

Ensures-present :
    {A : Type 0} {P : Db → Type 0} {f : Db → Option A} (o : Option A) (e : Error)
    → Ensures (OfDb (λ d. P d × (f d ≡ o))) (or_raise o e) (λ a. OfDb (λ d. P d × (f d ≡ some a)))
unfolding or_raise raise pure
Ensures-present none e = record { at = λ w h. tt }
Ensures-present (some a) e = record { at = λ w h. h }

Ensures-found :
    {A : Type 0} {P : Db → Type 0} (f : Db → Option A) (e : Error)
    → Ensures (OfDb P) (query f >>= λ o. or_raise o e) (λ a. OfDb (λ d. P d × (f d ≡ some a)))
Ensures-found {P = P} f e =
    Ensures-bind _ _ (Ensures-query {Q = λ o d. P d × (f d ≡ o)} f (λ d h. (h, refl)))
      (λ o. Ensures-present o e)

abbrev with_status : String → Grant → Grant
with_status status r = record r { status = status }

-- The guard of the grant's case, where it lets a status pass.
abbrev Passes : String → Grant → Type 0
Passes status g = g.status == "closed" && not (status == g.status) ≡ false

own_status :
    (b : Bool) (status : String) (g : Grant)
    → Passes status g
    → g.status == "closed" ≡ true
    → (if b then with_status status g else g).status == "closed" ≡ true
own_status true status g guard h =
    ground (arith, eq_iff g.status "closed", eq_iff status g.status, eq_iff status "closed")
own_status false status g guard h = h

some_inj : {x : Grant} (r : Grant) → some r ≡ some x → r ≡ x
some_inj r h = ap (λ (o : Option Grant). elim o [ none ↦ r | some z ↦ z ]) h

module _ (id target status : String) (grants : List Grant) (g : Grant)
    (guard : Passes status g) where
  closed_row :
      (r : Grant)
      → find (has_id target) grants ≡ some g
      → find (has_id id) grants ≡ some r
      → r.status == "closed" ≡ true
      → (changed (has_id target) (with_status status) r).status == "closed" ≡ true
  closed_row r found kept h = elim (Bool-cases (has_id target r)) [
    | inl hit ↦
        let same_id =
          sym ((eq_iff r.id id).0 (find-true (has_id id) grants r kept))
          ∙ (eq_iff r.id target).0 hit in
        let same =
          some_inj r
            (sym kept ∙ subst (λ t. find (has_id t) grants ≡ some g) (sym same_id) found) in
        own_status (has_id target r) status r (subst (Passes status) (sym same) guard) h
    | inr miss ↦ rw (miss, h)
  ]

  closed_found :
      (o : Option Grant)
      → find (has_id target) grants ≡ some g
      → find (has_id id) grants ≡ o
      → is_closed o ≡ true
      → is_closed (changed_row (has_id target) (with_status status) o) ≡ true
  closed_found none found kept h = h
  closed_found (some r) found kept h = closed_row r found kept h

changed-has_id :
    (id target status : String) (r : Grant)
    → has_id id (changed (has_id target) (with_status status) r) ≡ has_id id r
changed-has_id id target status r =
    elim (has_id target r)
      as (λ b. has_id id (if b then with_status status r else r) ≡ has_id id r) [
        | true ↦ refl
        | false ↦ refl
      ]

module _ (id : String) where
  set_grant_status-Closed :
      (target status : String) → Keeps (OfDb (Closed id)) (set_grant_status target status)
  unfolding set_grant_status
  set_grant_status-Closed target status = ensures-Keeps (
      Ensures-after _ _ (search tx_rules) λ u.
        Ensures-bind _ _
          (Ensures-found {P = Closed id} (λ db. find (has_id target) db.grants) no_rows)
          λ g. Ensures-bind _ _ (Ensures-passed _ _) λ v.
            Ensures-after _ _ (change_inventory-Keeps (λ f d h. h) _ _ _ _) λ x.
              Ensures-execute _ (λ d h.
                subst (λ o. is_closed o ≡ true)
                  (sym (
                    find-update (has_id id) (has_id target) (with_status status) d.grants
                      (changed-has_id id target status)))
                  (closed_found id target status d.grants g h.1 _ h.0.1 refl h.0.0)))

  balance-Closed : (a o c : String) → Keeps (OfDb (Closed id)) (balance_currency a o c)
  unfolding balance_currency
  balance-Closed a o c = search tx_rules

  inventory-Closed :
      (kind c old next : String) → Keeps (OfDb (Closed id)) (change_inventory kind c old next)
  inventory-Closed = change_inventory-Keeps (λ f d h. h)

  transfer-Closed :
      (key reason ref_type ref_id debit debit_id credit credit_id cur : String) (n : ℤ)
      → Keeps
          (OfDb (Closed id))
          (transfer_currency key reason ref_type ref_id debit debit_id credit credit_id cur n)
  transfer-Closed = transfer_currency-Keeps (λ f d h. h) (λ f d h. h)

  return_unused-Closed : (a : Allocation) (bal : ℤ) → Keeps (OfDb (Closed id)) (return_unused a bal)
  unfolding return_unused
  return_unused-Closed a bal = search (tx_rules, transfer-Closed)

  store_status-Closed :
      (target status : String) (n : ℤ) → Keeps (OfDb (Closed id)) (store_status target status n)
  unfolding store_status
  store_status-Closed target status n = search tx_rules

  set_allocation_status-Closed :
      (target status : String) → Keeps (OfDb (Closed id)) (set_allocation_status target status)
  unfolding set_allocation_status change_allocation_status
  set_allocation_status-Closed target status =
      search (tx_rules, balance-Closed, inventory-Closed, return_unused-Closed, store_status-Closed)
        depth 30 fits 3000

  revoke_key-Closed : (target : String) → Keeps (OfDb (Closed id)) (revoke_key target)
  unfolding revoke_key
  revoke_key-Closed target = search tx_rules depth 20 fits 2000

  revoke_session-Closed : (target : String) → Keeps (OfDb (Closed id)) (revoke_session target)
  unfolding revoke_session
  revoke_session-Closed target = search tx_rules depth 20 fits 2000

  set_status-Closed :
      (kind target status : String) → Keeps (OfDb (Closed id)) (set_status kind target status)
  unfolding set_status
  set_status-Closed kind target status =
      search
        (
          tx_rules, set_grant_status-Closed, set_allocation_status-Closed, revoke_key-Closed,
          revoke_session-Closed,
        )
        depth 20 fits 2000

-- A closed grant stays closed: no call of `SetStatus`, on any resource and to any status, whether
-- it returns or fails, changes the status of a grant that is closed.
pub write-set_status-Closed :
    (id kind target status : String) (w : World)
    → Closed id w.db
    → Closed id (write (set_status kind target status) w).1.db
write-set_status-Closed id kind target status w h =
    write-keeps (Closed id) (set_status kind target status)
      (set_status-Closed id kind target status) w h
