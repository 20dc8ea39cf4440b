-- ===== src/Store/Auth/Fresh.antt =====
-- internal/store/auth.go, `KafkaLag.reason`: when the consumer's lag is within bounds.
use clearinghouse_batteries.Base.{
  String, ◌≡◌, refl, Bool, true, false, not, ◌||◌, ◌==◌, if◌then◌else◌, arith,
}
use clearinghouse_batteries.Base.Int.{ℤ, pos, ◌-ℤ◌, ltb_ℤ, leb_ℤ}
use clearinghouse_batteries.Store.Auth.Lag.{KafkaLag, lag_reason, nanoseconds, min_kafka_lag}

-- The consumer was checked less than `max_age` before `now`, and had then covered all but the last
-- `max_age`.
pub record Fresh (h : KafkaLag) (now max_age : ℤ) : Type 0 where
  pub sensible : leb_ℤ min_kafka_lag max_age ≡ true
  pub available : h.available ≡ true
  pub covered : ltb_ℤ (pos 0) h.covered_through ≡ true
  pub in_order : leb_ℤ h.covered_through h.checked_at ≡ true
  pub past : leb_ℤ h.checked_at now ≡ true
  pub recent : ltb_ℤ (nanoseconds (now -ℤ h.checked_at)) max_age ≡ true
  pub up_to_date : ltb_ℤ (nanoseconds (now -ℤ h.covered_through)) max_age ≡ true

pub or_false : (a b : Bool) → a || b ≡ false → (a ≡ false) × (b ≡ false)
or_false false b h = (refl, h)
or_false true b h = cc

pub not_below : (a b : ℤ) → ltb_ℤ a b ≡ false → leb_ℤ b a ≡ true
not_below a b h = ground arith

not_at_most : (a b : ℤ) → leb_ℤ a b ≡ false → ltb_ℤ b a ≡ true
not_at_most a b h = ground arith

pub not-is_false : (b : Bool) → not b ≡ false → b ≡ true
not-is_false true h = refl
not-is_false false h = cc

-- Three tests in a row.
abbrev verdict : Bool → Bool → Bool → String
verdict a b c =
    if a
    then "kafka lag unavailable"
    else if b
    then "kafka lag unavailable"
    else if c
    then "kafka lag exceeded"
    else ""

verdict-passed :
    (a b c : Bool) → (verdict a b c == "") ≡ true → (a ≡ false) × (b ≡ false) × (c ≡ false)
verdict-passed true b c h = cc
verdict-passed false true c h = cc
verdict-passed false false true h = cc
verdict-passed false false false h = (refl, refl, refl)

module _ (h : KafkaLag) (now max_age : ℤ) where
  abbrev is_unusable : Bool
  is_unusable =
      ltb_ℤ max_age min_kafka_lag
      || not h.available
      || leb_ℤ h.checked_at (pos 0)
      || leb_ℤ h.covered_through (pos 0)
      || ltb_ℤ now h.checked_at
      || ltb_ℤ h.checked_at h.covered_through

  usable-Fresh :
      is_unusable ≡ false
      → leb_ℤ max_age (nanoseconds (now -ℤ h.checked_at)) ≡ false
      → leb_ℤ max_age (nanoseconds (now -ℤ h.covered_through)) ≡ false
      → Fresh h now max_age
  usable-Fresh ok_lag recent up_to_date =
      let (r4, f) = or_false _ (ltb_ℤ h.checked_at h.covered_through) ok_lag in
      let (r3, e) = or_false _ (ltb_ℤ now h.checked_at) r4 in
      let (r2, d) = or_false _ (leb_ℤ h.covered_through (pos 0)) r3 in
      let (r1, c) = or_false _ (leb_ℤ h.checked_at (pos 0)) r2 in
      let (a, b) = or_false (ltb_ℤ max_age min_kafka_lag) (not h.available) r1 in
      record {
        sensible = not_below max_age min_kafka_lag a;
        available = not-is_false h.available b;
        covered = not_at_most h.covered_through (pos 0) d;
        in_order = not_below h.checked_at h.covered_through f;
        past = not_below now h.checked_at e;
        recent = not_at_most max_age _ recent;
        up_to_date = not_at_most max_age _ up_to_date;
      }

  pub lag_reason-Fresh : (lag_reason h now max_age == "") ≡ true → Fresh h now max_age
  unfolding lag_reason
  lag_reason-Fresh e =
      let (a, b, c) =
        verdict-passed is_unusable (leb_ℤ max_age (nanoseconds (now -ℤ h.checked_at)))
          (leb_ℤ max_age (nanoseconds (now -ℤ h.covered_through))) e in
      usable-Fresh a b c
