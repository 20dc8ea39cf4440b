-- ===== src/Store/Ingest/Effect.antt =====
-- internal/store/ingest.go, `Ingest`: its effect on the balances.
use clearinghouse_batteries.Base.{
  String, ◌≡◌, refl, ap, Bool, true, false, not, ◌==◌, if◌then◌else◌, Option, none, some,
}
use clearinghouse_batteries.Base.Int.{ℤ, pos, ◌-ℤ◌, is_positive, ltb_ℤ}
use clearinghouse_batteries.Base.Exec.{
  Result, ok, err, pure, when, raise, raise_if, Error, ◌>>=◌, ◌>>◌,
}
use clearinghouse_batteries.Base.Exec.Keeps.{
  Keeps, Ensures, Returns, Ensures-if, Ensures-pure, Ensures-raise, Keeps-when, Ensures-bind,
  Ensures-after, Keeps-ensures,
}
use clearinghouse_batteries.Db.{World}
use clearinghouse_batteries.Db.Tx.{Tx, finish, write}
use clearinghouse_batteries.Db.Tx.Rules.{
  OfDb, tx_rules, Keeps-fresh_id, Keeps-now, Keeps-execute, Keeps-query,
}
use clearinghouse_batteries.Store.Ledger.Transfer.{
  View, view, Shows, Showing, plus, transfer_currency-Shows,
}
use clearinghouse_batteries.Store.Ingest.{ingest_next, ingest_offset, ingest}
use clearinghouse_batteries.Store.Ledger.{balance_currency}
use clearinghouse_batteries.Store.Rematch.{rematch}
use clearinghouse_batteries.Store.Ingest.Classify.{Codec, Draft, classify}
use clearinghouse_batteries.Store.Ingest.Charge.{
  charge_of, charge, exhaust, record_usage, usage_row, quarantine_reason,
}
use clearinghouse_batteries.Store.Ingest.Frame.{
  balance_currency-Frame, exhaust-Frame, rematch-Frame, insert_usage-Frame, metric_count-Frame,
  set_checkpoint-Frame,
}

-- The balances after a message: the fee moves from what its allocation has to what it has spent.
unfoldable pub charged : Draft → View → View
charged d f =
    if d.status == "applied"
    then plus "allocation_spent" d.allocation d.currency (charge_of d)
        (plus "allocation_available" d.allocation d.currency (pos 0 -ℤ charge_of d) f)
    else f

module _ (f : View) (d : Draft) where
  abbrev after_fee : View
  after_fee =
      plus "allocation_spent" d.allocation d.currency (charge_of d)
        (plus "allocation_available" d.allocation d.currency (pos 0 -ℤ charge_of d) f)

  settle_up :
      (allocation currency pm orch : String)
      → Keeps (OfDb (Showing after_fee)) (do
        balance ← balance_currency "allocation_available" allocation currency
        when (not (is_positive balance)) (exhaust allocation currency)
        rematch pm orch)
  settle_up allocation currency pm orch =
      search
        (
          tx_rules,
          balance_currency-Frame (Shows after_fee),
          exhaust-Frame (Shows after_fee),
          rematch-Frame (Shows after_fee),
        )
        depth 20 fits 2000

  charge-Shows :
      (uid : String) → Ensures (OfDb (Showing f)) (charge uid d) (λ _. OfDb (Showing after_fee))
  unfolding charge
  charge-Shows uid = Ensures-after _ _ Keeps-fresh_id λ aid.
      Ensures-after _ _ (Keeps-execute {P = Showing f} _ (λ db h. h)) λ u.
        Ensures-bind _ _ (transfer_currency-Shows _ _ _ _ _ _ _ _ _ _ f) λ v.
          Keeps-ensures
            (settle_up d.allocation d.currency d.event.pm_session_id d.event.orchestrator)

  pay :
      (uid : String)
      → Ensures
          (OfDb (Showing f))
          (when (d.status == "applied") (charge uid d))
          (λ _. OfDb (Showing (charged d f)))
  unfolding charged when pure
  pay uid =
      elim (d.status == "applied")
        as (λ b.
          Ensures (OfDb (Showing f)) (when b (charge uid d))
            (λ _. OfDb (Showing (if b then after_fee else f)))) [
              | true ↦ charge-Shows uid
              | false ↦ record { at = λ w h. h }
            ]

  record_usage-Shows :
      (topic : String) (partition offset : ℤ) (raw : String)
      → Ensures
          (OfDb (Showing f))
          (record_usage topic partition offset raw d)
          (λ _. OfDb (Showing (charged d f)))
  unfolding record_usage
  record_usage-Shows topic partition offset raw = Ensures-after _ _ Keeps-fresh_id λ uid.
      Ensures-after _ _ Keeps-now λ at.
        Ensures-after _ _
          (insert_usage-Frame (Shows f) (usage_row uid at topic partition offset raw d))
          λ u.
            Ensures-after _ _
              (Keeps-when _ _ (
                metric_count-Frame (Shows f) "quarantines" (quarantine_reason d.reason) "" (pos 1)))
              λ v. pay uid

-- What a call of `Ingest` does to the balances, by its result.
abbrev pub effect_of : Result (Option Draft) → View → View
effect_of (ok none) f = f
effect_of (ok (some d)) f = charged d f
effect_of (err e) f = f

module _ (codec : Codec) (topic : String) (partition offset : ℤ) (raw : String) (f : View) where
  Left : Option Draft → World → Type 0
  Left o = OfDb (Showing (effect_of (ok o) f))

  ingest_next-Shows :
      Ensures (OfDb (Showing f)) (ingest_next codec topic partition offset raw) (λ d. Left (some d))
  unfolding ingest_next Left classify
  ingest_next-Shows = Ensures-after _ _ (Keeps-query _) λ d.
      Ensures-bind _ _ (record_usage-Shows f d topic partition offset raw) λ u.
        Ensures-after _ _ (set_checkpoint-Frame (Shows (charged d f)) _ _ _ _)
          λ v. Ensures-pure d (λ w h. h)

  ingest_offset-Shows :
      Ensures (OfDb (Showing f)) (ingest_offset codec topic partition offset raw) Left
  unfolding ingest_offset Left
  ingest_offset-Shows = Ensures-after _ _ (Keeps-query _) λ next.
      Ensures-if (ltb_ℤ offset next) _ _ (λ h. Ensures-pure none (λ w k. k))
        λ reached.
          Ensures-if (ltb_ℤ next offset) _ _ (λ h. Ensures-raise _)
            λ due. Ensures-bind _ _ ingest_next-Shows λ d. Ensures-pure (some d) (λ w h. h)

committed :
    (f : View) (before : World) (r : Result (Option Draft) × World)
    → view before.db ≡ f
    → Returns (λ o. OfDb (Showing (effect_of (ok o) f))) r
    → (a o c : String)
    → view (finish before.db r).1.db a o c ≡ effect_of (finish before.db r).0 f a o c
committed f before (ok o', w) e h a o c = h.holds.at a o c
committed f before (err x, w) e h a o c = ap (λ (g : View). g a o c) e

record Books (m : Tx (Option Draft)) : Type 0 where
  pub at :
      (w : World) (a o c : String) → view (m w).1.db a o c ≡ effect_of (m w).0 (view w.db) a o c

raise_if-Books :
    (b : Bool) (e : Error) (m : Tx (Option Draft)) → Books m → Books (raise_if b e >> m)
unfolding raise_if ◌>>=◌ raise pure
raise_if-Books true e m h = record { at = λ w a o c. refl }
raise_if-Books false e m h = record { at = h.at }

write-Books :
    (m : Tx (Option Draft))
    → ((f : View) → Ensures (OfDb (Showing f)) m (λ o. OfDb (Showing (effect_of (ok o) f))))
    → Books (write m)
unfolding write
write-Books m h = record {
  at = λ w.
      committed (view w.db) w (m w) refl
        ((h (view w.db)).at w (record { holds = record { at = λ a o c. refl } }));
}

-- For every message, offset, partition and state of the store: a call of `Ingest` that returns an
-- applied message has moved its fee from what its allocation has available to what it has spent;
-- a call that returns any other message, finds the offset committed already, or fails, has left
-- every balance as it was.
pub ingest-balances :
    (codec : Codec) (topic : String) (partition offset : ℤ) (raw : String) (w : World)
    → (a o c : String)
    → view (ingest codec topic partition offset raw w).1.db a o c
      ≡ effect_of (ingest codec topic partition offset raw w).0 (view w.db) a o c
unfolding ingest Left
ingest-balances codec topic partition offset raw w =
    (raise_if-Books _ _ _ (
        raise_if-Books _ _ _
          (write-Books _ (ingest_offset-Shows codec topic partition offset raw)))).at
      w
