-- ===== src/Store/Ingest/Order.antt =====
-- internal/store/ingest.go, `Ingest`: the audit record and the next position.
use clearinghouse_batteries.Base.{
  String, ◌≡◌, refl, ap, Bool, ◌||◌, List, [], ◌∷◌, ◌++◌, arith, eq_refl,
}
use clearinghouse_batteries.Base.Int.{ℤ, pos, ◌+ℤ◌, ltb_ℤ, eqb_ℤ, is_negative}
use clearinghouse_batteries.Base.Exec.Keeps.{
  Keeps, Ensures, Ensures-pure, Ensures-bind, Ensures-after, Keeps-ensures, Keeps-raise_if,
}
use clearinghouse_batteries.Base.Lists.{find-upsert}
use clearinghouse_batteries.Db.{Db, UsageEvent}
use clearinghouse_batteries.Db.Tx.Rules.{
  OfDb, tx_rules, Keeps-fresh_id, Keeps-now, Keeps-query, Ensures-execute, Ensures-strengthen,
}
use clearinghouse_batteries.Store.Summary.{change_metric_count, change_inventory}
use clearinghouse_batteries.Store.Summary.Frame.{change_metric_count-Keeps, change_inventory-Keeps}
use clearinghouse_batteries.Store.Ledger.{balance_currency, transfer_currency}
use clearinghouse_batteries.Store.Ledger.Others.{transfer_currency-Keeps}
use clearinghouse_batteries.Store.Position.{
  set_checkpoint, stored_checkpoint, is_stream, position_of, next_position, kafka_stream,
}
use clearinghouse_batteries.Store.Rematch.{Bucket, move_bucket, rematch}
use clearinghouse_batteries.Store.Ingest.{ingest_next, max_int32, max_int64}
use clearinghouse_batteries.Store.Ingest.Classify.{Codec, Draft, classify}
use clearinghouse_batteries.Store.Ingest.Charge.{
  charge, exhaust, insert_usage, record_usage, usage_row,
}

abbrev pub bad_partition : ℤ → Bool
bad_partition partition = is_negative partition || ltb_ℤ max_int32 partition

abbrev pub bad_offset : ℤ → Bool
bad_offset offset = is_negative offset || eqb_ℤ offset max_int64

-- A property of the audit records alone.
abbrev OfUsage : (List UsageEvent → Type 0) → Db → Type 0
OfUsage P d = P d.usage_events

module _ (P : List UsageEvent → Type 0) where
  count-Keeps : (k a b : String) (n : ℤ) → Keeps (OfDb (OfUsage P)) (change_metric_count k a b n)
  count-Keeps = change_metric_count-Keeps (λ f d h. h)

  inventory-Keeps :
      (kind c old next : String) → Keeps (OfDb (OfUsage P)) (change_inventory kind c old next)
  inventory-Keeps = change_inventory-Keeps (λ f d h. h)

  transfer-Keeps :
      (key reason ref_type ref_id debit debit_id credit credit_id cur : String) (n : ℤ)
      → Keeps
          (OfDb (OfUsage P))
          (transfer_currency key reason ref_type ref_id debit debit_id credit credit_id cur n)
  transfer-Keeps = transfer_currency-Keeps (λ f d h. h) (λ f d h. h)

  balance-Keeps : (a o c : String) → Keeps (OfDb (OfUsage P)) (balance_currency a o c)
  unfolding balance_currency
  balance-Keeps a o c = search tx_rules

  move-Keeps : (status : String) (b : Bucket) → Keeps (OfDb (OfUsage P)) (move_bucket status b)
  unfolding move_bucket
  move-Keeps status b = search (tx_rules, count-Keeps)

  rematch-Keeps : (pm orch : String) → Keeps (OfDb (OfUsage P)) (rematch pm orch)
  unfolding rematch
  rematch-Keeps pm orch = search (tx_rules, move-Keeps) depth 20 fits 2000

  exhaust-Keeps :
      (allocation currency : String) → Keeps (OfDb (OfUsage P)) (exhaust allocation currency)
  unfolding exhaust
  exhaust-Keeps allocation currency = search (tx_rules, inventory-Keeps) depth 20 fits 2000

  charge-Keeps : (uid : String) (d : Draft) → Keeps (OfDb (OfUsage P)) (charge uid d)
  unfolding charge
  charge-Keeps uid d =
      search (tx_rules, transfer-Keeps, balance-Keeps, exhaust-Keeps, rematch-Keeps) depth 20 fits
        2000

module _ (topic : String) (partition offset : ℤ) (raw : String) (before : List UsageEvent) where
  -- The records with one more, which describes the message.
  pub record Recorded (d : Draft) (rows : List UsageEvent) : Type 0 where
    pub uid : String
    pub at : ℤ
    pub appended : rows ≡ before ++ usage_row uid at topic partition offset raw d ∷ []

  abbrev Was : Db → Type 0
  Was d = d.usage_events ≡ before

  insert_usage-Recorded :
      (uid : String) (at : ℤ) (d : Draft)
      → Ensures
          (OfDb Was)
          (insert_usage (usage_row uid at topic partition offset raw d))
          (λ _. OfDb (OfUsage (Recorded d)))
  unfolding insert_usage
  insert_usage-Recorded uid at d = Ensures-after _ _ (Keeps-query _) λ taken.
      Ensures-after _ _ (Keeps-raise_if taken _) λ u. Ensures-execute _ (λ db h. record {
        uid = uid;
        at = at;
        appended = ap (λ rows. rows ++ usage_row uid at topic partition offset raw d ∷ []) h;
      })

  record_usage-Recorded :
      (d : Draft)
      → Ensures
          (OfDb Was)
          (record_usage topic partition offset raw d)
          (λ _. OfDb (OfUsage (Recorded d)))
  unfolding record_usage
  record_usage-Recorded d = Ensures-after _ _ Keeps-fresh_id λ uid.
      Ensures-after _ _ Keeps-now λ at.
        Ensures-bind _ _ (insert_usage-Recorded uid at d) λ u.
          Keeps-ensures (search (tx_rules, count-Keeps (Recorded d), charge-Keeps (Recorded d)))

pub set_checkpoint-position :
    (source stream hash : String) (next : ℤ) (db : Db)
    → next_position source stream (stored_checkpoint source stream next hash db) ≡ next
unfolding next_position
set_checkpoint-position source stream hash next db =
    find-upsert position_of (is_stream source stream)
      (λ r. record r { next_position = next; block_hash = hash })
      (record { source = source; stream = stream; next_position = next; block_hash = hash }) next
      db.checkpoints (ground (arith, eq_refl source, eq_refl stream)) (λ x h. h) (λ x h. refl) refl

module _ (topic : String) (partition offset : ℤ) (raw : String) (before : Db) where
  abbrev position : Db → ℤ
  position = next_position "kafka" (kafka_stream topic partition)

  abbrev WasBefore : Db → Type 0
  WasBefore db = db.usage_events ≡ before.usage_events

  -- What a committed message leaves: its record, and the next position.
  pub record Committed (d : Draft) (db : Db) : Type 0 where
    pub expected : position before ≡ offset
    pub recorded : Recorded topic partition offset raw before.usage_events d db.usage_events
    pub advanced : position db ≡ offset +ℤ pos 1

  abbrev Filed : Draft → Db → Type 0
  Filed d db =
      Recorded topic partition offset raw before.usage_events d db.usage_events
      × (position before ≡ offset)

  advance :
      (d : Draft)
      → Ensures
          (OfDb (Filed d))
          (set_checkpoint "kafka" (kafka_stream topic partition) (offset +ℤ pos 1) "")
          (λ _. OfDb (Committed d))
  unfolding set_checkpoint
  advance d = Ensures-execute _ (λ db h. record {
    expected = h.1;
    recorded = h.0;
    advanced =
        set_checkpoint-position "kafka" (kafka_stream topic partition) "" (offset +ℤ pos 1) db;
  })

  pub ingest_next-Committed :
      (codec : Codec)
      → (position before ≡ offset)
      → Ensures
          (OfDb WasBefore)
          (ingest_next codec topic partition offset raw)
          (λ d. OfDb (Committed d))
  unfolding ingest_next classify
  ingest_next-Committed codec due = Ensures-after _ _ (Keeps-query _) λ d.
      Ensures-bind _ _
        (Ensures-strengthen {R = Filed d} _ (λ db h. (h, due))
          (record_usage-Recorded topic partition offset raw before.usage_events d))
        λ u. Ensures-bind _ _ (advance d) λ v. Ensures-pure d (λ w h. h)
