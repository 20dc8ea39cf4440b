-- ===== src/Kafka/Reader/Order.antt =====
-- internal/kafka/listener.go, `readPartition`: which messages a reader files, and in which order.
use clearinghouse_batteries.Base.{
  String, ◌≡◌, refl, sym, ap, ◌∙◌, subst, Option, none, some, true, false, inl, inr, List, [], ◌∷◌,
  arith, suc, Bool-cases,
}
use clearinghouse_batteries.Base.Int.{
  ℤ, pos, pos_part, neg_part, ◌+ℤ◌, ltb_ℤ, eqb_ℤ, eqb_ℤ_iff, eq_of_parts, +ℤ_parts,
}
use clearinghouse_batteries.Base.Lists.{length}
use clearinghouse_batteries.Base.Exec.{Result, ok, err, failure, lift, pure, raise, raise_if, ◌>>=◌}
use clearinghouse_batteries.Base.Exec.Inversion.{>>=-Chained}
use clearinghouse_batteries.Db.{Db, World}
use clearinghouse_batteries.Db.Tx.{Tx}
use clearinghouse_batteries.Store.Position.{kafka_stream, next_position}
use clearinghouse_batteries.Store.Ingest.{ingest, offset_gap}
use clearinghouse_batteries.Store.Ingest.Classify.{Codec, Draft}
use clearinghouse_batteries.Store.Ingest.Order.{Committed}
use clearinghouse_batteries.Store.Ingest.Once.{ingest-Committed, ingest-Behind}
use clearinghouse_batteries.Kafka.Broker.{explain}
use clearinghouse_batteries.Kafka.Reader.{
  Message, at_partition, explained, read_message, read_partition,
}

not_below : (a b : ℤ) → b ≡ a → ltb_ℤ a b ≡ true → ⊥
not_below a b e h = ground (arith, ap pos_part e, ap neg_part e)

some_returned : {A : Type 0} (o : Option A) → (o ≡ none → ⊥) → (a : A) × (o ≡ some a)
some_returned none h = absurd (h refl)
some_returned (some a) h = (a, refl)

explained_ok :
    {A : Type 0} (text : String) (m : Tx A) (w : World) (a : A)
    → (explained text m w).0 ≡ ok a
    → (m w).0 ≡ ok a
unfolding explained
explained_ok {A} text m w a h = back (m w).0 h
  where
    back : (r : Result A) → explain text r ≡ ok a → r ≡ ok a
    back (ok b) e = e
    back (err e) k = cc

module _ (codec : Codec) (topic : String) (partition : ℤ) where
  abbrev position : Db → ℤ
  position = next_position "kafka" (kafka_stream topic partition)

  -- One delivery, filed at the offset that was expected.
  pub record Filed (next : ℤ) (before : Db) (delivery : Result Message) (after : Db) : Type 0 where
    pub message : Message
    pub draft : Draft
    pub delivered : delivery ≡ ok message
    pub in_order : message.offset ≡ next
    pub committed : Committed topic partition next message.value before draft after

  -- All deliveries, each filed in the database that the one before it left.
  abbrev pub FiledAll : ℤ → Db → List (Result Message) → Db → Type 0
  FiledAll next before [] after = after ≡ before
  FiledAll next before (delivery ∷ deliveries) after =
      (mid : Db) × Filed next before delivery mid × FiledAll (next +ℤ pos 1) mid deliveries after

  ingested :
      (next : ℤ) (value : String) (w : World) (o : Option Draft)
      → position w.db ≡ next
      → (ingest codec topic partition next value w).0 ≡ ok o
      → (d : Draft) × Committed topic partition next value w.db d
          (ingest codec topic partition next value w).1.db
  ingested next value w o due e =
      let (d, found) = some_returned o (λ h.
        not_below next (position w.db) due
          (ingest-Behind codec topic partition next value w (e ∙ ap ok h))) in
      (d, ingest-Committed codec topic partition next value w d (e ∙ ap ok found))

  read_message-next :
      (next : ℤ) (m : Message) (w : World)
      → eqb_ℤ m.offset next ≡ true
      → read_message codec topic partition next (ok m) w
        ≡ explained (at_partition topic partition) (ingest codec topic partition m.offset m.value) w
  unfolding read_message lift raise_if raise pure ◌>>=◌
  read_message-next next m w same = rw same

  read_message-gap :
      (next : ℤ) (m : Message) (w : World)
      → eqb_ℤ m.offset next ≡ false
      → (read_message codec topic partition next (ok m) w).0
        ≡ err (failure (offset_gap topic partition next m.offset))
  unfolding read_message lift raise_if raise pure ◌>>=◌
  read_message-gap next m w other = rw other

  explained_Filed :
      (next : ℤ) (m : Message) (w : World) (o : Option Draft)
      → position w.db ≡ next
      → m.offset ≡ next
      → (explained
          (at_partition topic partition)
          (ingest codec topic partition m.offset m.value)
          w).0
        ≡ ok o
      → Filed next w.db
          (ok m)
          (explained
            (at_partition topic partition)
            (ingest codec topic partition m.offset m.value)
            w).1.db
  unfolding explained
  explained_Filed next m w o due same h =
      let (d, c) = ingested m.offset m.value w o (due ∙ sym same) (
        explained_ok (at_partition topic partition) (ingest codec topic partition m.offset m.value)
          w o h) in
      record {
        message = m;
        draft = d;
        delivered = refl;
        in_order = same;
        committed =
            subst
              (λ n.
                Committed topic partition n m.value w.db d
                  (ingest codec topic partition m.offset m.value w).1.db)
              same c;
      }

  read_message-Filed :
      (next : ℤ) (delivery : Result Message) (w : World) (o : Option Draft)
      → position w.db ≡ next
      → (read_message codec topic partition next delivery w).0 ≡ ok o
      → Filed next w.db delivery (read_message codec topic partition next delivery w).1.db
  unfolding read_message lift ◌>>=◌
  read_message-Filed next (err e) w o due h = cc
  read_message-Filed next (ok m) w o due h = elim (Bool-cases (eqb_ℤ m.offset next)) [
    | inl same ↦
        let e = read_message-next next m w same in
        subst (λ (r : Result (Option Draft) × World). Filed next w.db (ok m) r.1.db) (sym e)
          (explained_Filed next m w o due ((eqb_ℤ_iff m.offset next).0 same)
            (sym (ap (λ (r : Result (Option Draft) × World). r.0) e) ∙ h))
    | inr other ↦ absurd (let gap = read_message-gap next m w other in cc)
  ]

  read_partition-Filed :
      (deliveries : List (Result Message)) (next : ℤ) (w : World)
      → position w.db ≡ next
      → (read_partition codec topic partition next deliveries w).0 ≡ ok tt
      → FiledAll next w.db deliveries (read_partition codec topic partition next deliveries w).1.db
  unfolding read_partition pure
  read_partition-Filed [] next w due h = refl
  read_partition-Filed (d ∷ ds) next w due h =
      let first = read_message codec topic partition next d in
      let rest = read_partition codec topic partition (next +ℤ pos 1) ds in
      let ran = >>=-Chained first (λ _. rest) w tt h in
      let filed = read_message-Filed next d w ran.value due ran.returned in
      let after = (first w).1 in
      let done =
        read_partition-Filed ds (next +ℤ pos 1) after filed.committed.advanced
          (sym (ap (λ (r : Result (Unit {0}) × World). r.0) (ran.rest)) ∙ h) in
      (
        after.db,
        filed,
        subst (λ (r : Result (Unit {0}) × World). FiledAll (next +ℤ pos 1) after.db ds r.1.db)
            (sym (ran.rest)) done,
      )

  -- The expected position after n messages.
  position-FiledAll :
      (deliveries : List (Result Message)) (next : ℤ) (before after : Db)
      → position before ≡ next
      → FiledAll next before deliveries after
      → position after ≡ next +ℤ pos (length deliveries)
  position-FiledAll [] next before after due h =
      ap position h ∙ due ∙ eq_of_parts next _ (omega (arith, +ℤ_parts next (pos 0)))
  position-FiledAll (d ∷ ds) next before after due (mid, filed, rest) =
      position-FiledAll ds (next +ℤ pos 1) mid after filed.committed.advanced rest
      ∙ eq_of_parts _ _ (
          omega (
            arith,
            +ℤ_parts next (pos 1),
            +ℤ_parts (next +ℤ pos 1) (pos (length ds)),
            +ℤ_parts next (pos (suc (length ds))),
          ))

  -- A reader that starts at the checkpoint of its partition, and whose loop ends without an error
  -- after any deliveries: each delivery was a message at the next offset, and was committed, with
  -- its audit record, in the state that the one before it left; and the checkpoint has moved by
  -- the number of deliveries.
  pub read_partition-in_order :
      (next : ℤ) (deliveries : List (Result Message)) (w : World)
      → position w.db ≡ next
      → (read_partition codec topic partition next deliveries w).0 ≡ ok tt
      → FiledAll next w.db deliveries (read_partition codec topic partition next deliveries w).1.db
        × (position (read_partition codec topic partition next deliveries w).1.db
            ≡ next +ℤ pos (length deliveries))
  read_partition-in_order next deliveries w due h =
      let filed = read_partition-Filed deliveries next w due h in
      (filed, position-FiledAll deliveries next w.db _ due filed)
