-- ===== src/Store/Ingest/Once.antt =====
-- internal/store/ingest.go, `Ingest`: the offsets of one partition.
use clearinghouse_batteries.Base.{
  String, ◌≡◌, refl, ap, ◌∙◌, sym, Bool, true, false, if◌then◌else◌, Option, none, some, arith,
  subst, Bool-cases, inl, inr,
}
use clearinghouse_batteries.Base.Int.{ℤ, pos, ◌+ℤ◌, ltb_ℤ, eqb_ℤ, eq_of_parts, +ℤ_parts}
use clearinghouse_batteries.Base.Exec.{
  Error, Result, ok, err, pure, raise_if, failure, raise, ◌>>=◌, ◌>>◌,
}
use clearinghouse_batteries.Base.Exec.Keeps.{
  Ensures, Returns, Ensures-if, Ensures-pure, Ensures-raise, Ensures-bind,
}
use clearinghouse_batteries.Db.{Db, World}
use clearinghouse_batteries.Db.Tx.{Tx, query, write, finish}
use clearinghouse_batteries.Db.Tx.Rules.{OfDb, Ensures-query}
use clearinghouse_batteries.Store.Position.{next_position, kafka_stream}
use clearinghouse_batteries.Store.Ingest.{ingest_next, ingest_offset, ingest, offset_gap}
use clearinghouse_batteries.Store.Ingest.Classify.{Codec, Draft}
use clearinghouse_batteries.Store.Ingest.Order.{
  bad_partition, bad_offset, Committed, ingest_next-Committed,
}

between : (a b : ℤ) → ltb_ℤ a b ≡ false → ltb_ℤ b a ≡ false → b ≡ a
between a b h k = eq_of_parts b a (ground arith)

apart : (a b : ℤ) → ltb_ℤ a b ≡ false → eqb_ℤ a b ≡ false → ltb_ℤ b a ≡ true
apart a b h k = ground arith

passed :
    {A : Type 0} (b : Bool) (e : Error) (m : Tx A) (w : World) (a : A)
    → ((raise_if b e >> m) w).0 ≡ ok a
    → (b ≡ false) × ((m w).0 ≡ ok a)
unfolding raise_if ◌>>=◌ raise pure
passed true e m w a h = cc
passed false e m w a h = (refl, h)

below_next : (a b : ℤ) → b ≡ a +ℤ pos 1 → (ltb_ℤ a b ≡ true) × (eqb_ℤ a b ≡ false)
below_next a b h = rw h (ground (arith, +ℤ_parts a (pos 1)), ground (arith, +ℤ_parts a (pos 1)))

some_of : (d : Option Draft) → Result (Option Draft) → Option Draft
some_of d (ok o) = o
some_of d (err e) = d

ok_inj : {a b : Option Draft} → ok a ≡ ok b → a ≡ b
unfolding some_of
ok_inj {a = a} h = ap (some_of a) h

module _ (codec : Codec) (topic : String) (partition offset : ℤ) (raw : String) where
  abbrev expected : Db → ℤ
  expected = next_position "kafka" (kafka_stream topic partition)

  -- What the result of a call promises of the database before it and after it.
  abbrev Promised : Db → Option Draft → Db → Type 0
  Promised before none db = Unit
  Promised before (some d) db = Committed topic partition offset raw before d db

  At : Db → ℤ → Db → Type 0
  At before next db = (db.usage_events ≡ before.usage_events) × (next ≡ expected before)

  next_step :
      (before : Db) (next : ℤ)
      → next ≡ offset
      → Ensures
          (OfDb (At before next))
          (ingest_next codec topic partition offset raw)
          (λ d. OfDb (Promised before (some d)))
  unfolding At
  next_step before next e = record {
    at = λ w h.
        (ingest_next-Committed topic partition offset raw before codec (sym h.holds.1 ∙ e)).at w
          (record { holds = h.holds.0 });
  }

  ingest_offset-Promised :
      (before : Db)
      → Ensures
          (OfDb (λ db. db ≡ before))
          (ingest_offset codec topic partition offset raw)
          (λ o. OfDb (Promised before o))
  unfolding ingest_offset At
  ingest_offset-Promised before =
      Ensures-bind _ _
        (Ensures-query {Q = At before} _
          (λ db h. (ap (λ (d : Db). d.usage_events) h, ap expected h)))
        λ next.
          Ensures-if (ltb_ℤ offset next) _ _ (λ h. Ensures-pure none (λ w k. record { holds = tt }))
            λ reached.
              Ensures-if (ltb_ℤ next offset) _ _ (λ h. Ensures-raise _)
                λ due.
                  Ensures-bind _ _ (next_step before next (between offset next reached due))
                    λ d. Ensures-pure (some d) (λ w h. h)

  committed :
      (before : World) (r : Result (Option Draft) × World) (d : Draft)
      → Returns (λ o. OfDb (Promised before.db o)) r
      → (finish before.db r).0 ≡ ok (some d)
      → Committed topic partition offset raw before.db d (finish before.db r).1.db
  committed before (ok none, w) d h e = cc
  committed before (ok (some d'), w) d h e =
      subst (λ (o : Option Draft). Promised before.db o w.db) (ok_inj e) h.holds
  committed before (err x, w) d h e = cc

  record Files (m : Tx (Option Draft)) : Type 0 where
    pub at :
        (w : World) (d : Draft)
        → (m w).0 ≡ ok (some d)
        → Committed topic partition offset raw w.db d (m w).1.db

  raise_if-Files :
      (b : Bool) (e : Error) (m : Tx (Option Draft)) → Files m → Files (raise_if b e >> m)
  unfolding raise_if ◌>>=◌ raise pure
  raise_if-Files true e m h = record { at = λ w d k. cc }
  raise_if-Files false e m h = record { at = h.at }

  ingest_offset-Files : Files (write (ingest_offset codec topic partition offset raw))
  unfolding write
  ingest_offset-Files = record {
    at = λ w d e.
        committed w (ingest_offset codec topic partition offset raw w) d
          ((ingest_offset-Promised w.db).at w (record { holds = refl })) e;
  }

  -- A call of `Ingest` that returns a message has met it at the position that the partition
  -- expected, has appended one audit record, which describes it, and has moved the position on by
  -- one.
  pub ingest-Committed :
      (w : World) (d : Draft)
      → (ingest codec topic partition offset raw w).0 ≡ ok (some d)
      → Committed topic partition offset raw w.db d (ingest codec topic partition offset raw w).1.db
  unfolding ingest
  ingest-Committed w d e =
      (raise_if-Files _ _ _ (raise_if-Files _ _ _ ingest_offset-Files)).at w d e

  -- A call for any offset but the next one, with a partition and an offset in range, changes
  -- nothing: it returns no message if the offset is behind, and fails if it is ahead.
  pub ingest-out_of_order :
      (w : World)
      → bad_partition partition ≡ false
      → bad_offset offset ≡ false
      → eqb_ℤ offset (expected w.db) ≡ false
      → ingest codec topic partition offset raw w ≡ (
        if ltb_ℤ offset (expected w.db)
            then ok none
            else err (failure (offset_gap topic partition (expected w.db) offset)),
        w,
      )
  unfolding ingest ingest_offset write raise_if ◌>>=◌ raise pure query
  ingest-out_of_order w hp ho off = elim (Bool-cases (ltb_ℤ offset (expected w.db))) [
    | inl behind ↦ rw (hp, ho, behind)
    | inr reached ↦ rw (hp, ho, reached, apart offset (expected w.db) reached off)
  ]

  -- A call that returns no message has found the offset committed already.
  abbrev Behind : Db → Option Draft → Type 0
  Behind before none = ltb_ℤ offset (expected before) ≡ true
  Behind before (some d) = Unit

  ingest_offset-Behind :
      (before : Db)
      → Ensures
          (OfDb (λ db. db ≡ before))
          (ingest_offset codec topic partition offset raw)
          (λ o. OfDb (λ _. Behind before o))
  unfolding ingest_offset
  ingest_offset-Behind before =
      Ensures-bind _ _
        (Ensures-query {Q = λ next _. next ≡ expected before} _ (λ db h. ap expected h))
        λ next.
          Ensures-if (ltb_ℤ offset next) _ _
            (λ h.
              Ensures-pure none
                (λ w k. record { holds = subst (λ n. ltb_ℤ offset n ≡ true) k.holds h }))
            λ reached.
              Ensures-if (ltb_ℤ next offset) _ _ (λ h. Ensures-raise _)
                λ due.
                  Ensures-bind {Q = λ _. OfDb (λ _. Unit)} _ _
                    (record {
                      at = λ w k. anything (ingest_next codec topic partition offset raw w);
                    })
                    λ d. Ensures-pure (some d) (λ w h. record { holds = tt })
    where
      anything : (r : Result Draft × World) → Returns (λ _. OfDb (λ _. Unit)) r
      anything (ok d, w) = record { holds = tt }
      anything (err e, w) = tt

  finish-Behind :
      (before : World) (r : Result (Option Draft) × World)
      → Returns (λ o. OfDb (λ _. Behind before.db o)) r
      → (finish before.db r).0 ≡ ok none
      → ltb_ℤ offset (expected before.db) ≡ true
  finish-Behind before (ok none, w) h e = h.holds
  finish-Behind before (ok (some d), w) h e = cc
  finish-Behind before (err x, w) h e = cc

  pub ingest-Behind :
      (w : World)
      → (ingest codec topic partition offset raw w).0 ≡ ok none
      → ltb_ℤ offset (expected w.db) ≡ true
  unfolding ingest write
  ingest-Behind w e =
      let (_, rest) = passed _ _ _ w none e in
      let (_, last) = passed _ _ _ w none rest in
      finish-Behind w (ingest_offset codec topic partition offset raw w)
        ((ingest_offset-Behind w.db).at w (record { holds = refl })) last

  in_range :
      (w : World) (d : Draft)
      → (ingest codec topic partition offset raw w).0 ≡ ok (some d)
      → (bad_partition partition ≡ false) × (bad_offset offset ≡ false)
  unfolding ingest
  in_range w d e =
      let (good, rest) = passed _ _ _ w (some d) e in (good, (passed _ _ _ w (some d) rest).0)

-- A message is charged once: after a call of `Ingest` that returned a message, a further call for
-- the same topic, partition and offset returns none and leaves the store as it is, whatever
-- payload the second delivery carries.
pub ingest-once :
    (codec : Codec) (topic : String) (partition offset : ℤ) (raw again : String) (w : World)
    (d : Draft)
    → (ingest codec topic partition offset raw w).0 ≡ ok (some d)
    → ingest codec topic partition offset again (ingest codec topic partition offset raw w).1
      ≡ (ok none, (ingest codec topic partition offset raw w).1)
ingest-once codec topic partition offset raw again w d e =
    let after = (ingest codec topic partition offset raw w).1 in
    let (good_partition, good_offset) = in_range codec topic partition offset raw w d e in
    let filed = ingest-Committed codec topic partition offset raw w d e in
    let (behind, off) =
      below_next offset (next_position "kafka" (kafka_stream topic partition) after.db)
        filed.advanced in
    subst
      (λ b. ingest codec topic partition offset again after ≡ (
        if b
            then ok none
            else err (
                failure (
                  offset_gap topic partition
                    (next_position "kafka" (kafka_stream topic partition) after.db) offset)),
        after,
      ))
      behind
      (ingest-out_of_order codec topic partition offset again after good_partition good_offset off)
