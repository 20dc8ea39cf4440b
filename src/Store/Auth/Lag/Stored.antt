-- ===== src/Store/Auth/Lag/Stored.antt =====
-- internal/store/auth.go, `SetKafkaLag`: what is read back of a lag that was recorded.
use clearinghouse_batteries.Base.{
  String, not, ◌&&◌, ◌≡◌, subst, sym, refl, ap, Bool, false, ◌||◌, ◌==◌, if◌then◌else◌, arith,
  eq_iff, eq_refl, Bool-cases, inl, inr, List,
}
use clearinghouse_batteries.Base.Int.{pos, ltb_ℤ}
use clearinghouse_batteries.Base.Lists.{find, upsert, find-upsert, find-upsert-other}
use clearinghouse_batteries.Base.Exec.{ok, err, constraint, raise, raise_if, pure, ◌>>=◌}
use clearinghouse_batteries.Db.{World, LagRow}
use clearinghouse_batteries.Db.Tx.{write, execute}
use clearinghouse_batteries.Store.Auth.Lag.{KafkaLag, set_kafka_lag, stored_lag, lag_of, is_topic}

abbrev lag_row : String → KafkaLag → LagRow
lag_row topic h = record {
  topic = topic;
  checked_at_ms = h.checked_at;
  covered_through_ms = h.covered_through;
  available = h.available;
}

-- `stored_lag` reads what `SetKafkaLag` wrote.
pub upserted_lag :
    (topic : String) (h : KafkaLag) (rows : List LagRow)
    → lag_of (
        find (is_topic topic) (
          upsert
            (is_topic topic)
            (λ r. record r {
              checked_at_ms = h.checked_at;
              covered_through_ms = h.covered_through;
              available = h.available;
            })
            (lag_row topic h)
            rows))
      ≡ h
upserted_lag topic h rows =
    find-upsert lag_of (is_topic topic) _ _ h rows (eq_refl topic) (λ x e. e) (λ x e. refl) refl

module _ (topic : String) (h : KafkaLag) where
  abbrev stored_row : LagRow → LagRow
  stored_row r = record r {
    checked_at_ms = h.checked_at;
    covered_through_ms = h.covered_through;
    available = h.available;
  }

  other_lag :
      (name : String) (rows : List LagRow)
      → (name == topic) ≡ false
      → lag_of (find (is_topic name) (upsert (is_topic topic) stored_row (lag_row topic h) rows))
        ≡ lag_of (find (is_topic name) rows)
  other_lag name rows e = ap lag_of (
      find-upsert-other (is_topic name) (is_topic topic) stored_row (lag_row topic h) rows
        (ground (arith, eq_iff topic name, eq_iff name topic))
        (λ x k. (
          ground (arith, eq_iff x.topic name, eq_iff x.topic topic, eq_iff name topic),
          ground (arith, eq_iff x.topic name, eq_iff x.topic topic, eq_iff name topic),
        )))

  abbrev is_negative_lag : Bool
  is_negative_lag = ltb_ℤ h.checked_at (pos 0) || ltb_ℤ h.covered_through (pos 0)

  -- A lag whose times are not negative is recorded, and read back as it is, for its topic; the lag
  -- of every other topic is as before. A lag with a negative time is refused, and every lag is as
  -- before.
  pub set_kafka_lag-stored_lag :
      (w : World) (name : String)
      → ((set_kafka_lag topic h w).0
          ≡ (if is_negative_lag then err (constraint "kafka_lag") else ok tt))
        × (stored_lag name (set_kafka_lag topic h w).1.db
            ≡ (if not is_negative_lag && (name == topic) then h else stored_lag name w.db))
  unfolding set_kafka_lag write raise_if execute pure raise ◌>>=◌ stored_lag
  set_kafka_lag-stored_lag w name = elim (Bool-cases is_negative_lag) [
    | inl negative ↦ rw negative (refl, refl)
    | inr valid ↦ elim (Bool-cases (name == topic)) [
      | inl same ↦
          rw (valid, same)
            (
              refl,
              subst
                  (λ n.
                    lag_of (
                      find (is_topic n)
                        (upsert (is_topic topic) stored_row (lag_row topic h) w.db.kafka_lag))
                    ≡ h)
                  (sym ((eq_iff name topic).0 same)) (upserted_lag topic h w.db.kafka_lag),
            )
      | inr differs ↦ rw (valid, differs) (refl, other_lag name w.db.kafka_lag differs)
    ]
  ]
