-- ===== src/Chain/Redemptions/Correlated.antt =====
-- internal/chain/listener.go, `correlateRedemptions`: the sequences of events that are accepted.
use clearinghouse_batteries.Base.{
  String, ◌≡◌, refl, sym, ap, subst, Option, none, some, Bool, true, false, not, ◌||◌, List, [],
  ◌∷◌, inl, inr, arith, ◌↔◌, ◌==◌, eq_iff,
}
use clearinghouse_batteries.Base.Int.{ℤ, pos, ltb_ℤ, ◌≤ℤ◌}
use clearinghouse_batteries.Base.Exec.{Result, ok, map_result}
use clearinghouse_batteries.Base.Exec.Inversion.{
  ok_inj, bind_result_ok, map_result_ok, if_ok, if_cases,
}
use clearinghouse_batteries.Store.Settlements.Events.{
  EscrowEvent, Settlement, reserve_claimed, winning_ticket_transfer, winning_ticket_redeemed,
}
use clearinghouse_batteries.Chain.Redemptions.{
  big_int, same_payment, is_claim, is_transfer, is_redemption, with_payment, settle_payment,
  bounded_payment, redeem_settled, redeem_with, correlate_event, correlate, correlate_redemptions,
  after_claim, after_transfer, between, amount_or, Pending,
}

-- A redemption and its record of what was paid, of which `reserve` came out of the reserve.
pub record Settled (event : EscrowEvent) (paid reserve : ℤ) (redeemed : EscrowEvent) : Type 0 where
  pub settlement : Settlement
  pub face : ℤ
  pub decoded : event.settlement ≡ some settlement
  pub face_value : big_int settlement.face_value ≡ some face
  pub covered : reserve ≤ℤ paid
  pub bounded : paid ≤ℤ face
  pub recorded : redeemed ≡ with_payment event settlement paid reserve

-- The batches of events that a TicketBroker can have emitted, and what becomes of them: a
-- redemption stands alone, behind its transfer, or behind a reserve claim and its transfer.
pub data Correlated : List EscrowEvent → List EscrowEvent → Type 0 where
  done : Correlated [] []
  other :
      {e : EscrowEvent} {es out : List EscrowEvent}
      → is_claim e ≡ false
      → is_transfer e ≡ false
      → is_redemption e ≡ false
      → Correlated es out
      → Correlated (e ∷ es) (e ∷ out)
  unpaid :
      {e e' : EscrowEvent} {es out : List EscrowEvent}
      → is_redemption e ≡ true
      → Settled e (pos 0) (pos 0) e'
      → Correlated es out
      → Correlated (e ∷ es) (e' ∷ out)
  from_deposit :
      {t e e' : EscrowEvent} {es out : List EscrowEvent} {paid : ℤ}
      → is_transfer t ≡ true
      → is_redemption e ≡ true
      → same_payment t e ≡ true
      → big_int t.amount ≡ some paid
      → Settled e paid (pos 0) e'
      → Correlated es out
      → Correlated (t ∷ e ∷ es) (t ∷ e' ∷ out)
  from_reserve :
      {c t e e' : EscrowEvent} {es out : List EscrowEvent} {paid reserve : ℤ}
      → is_claim c ≡ true
      → is_transfer t ≡ true
      → is_redemption e ≡ true
      → same_payment c t ≡ true
      → same_payment t e ≡ true
      → same_payment c e ≡ true
      → big_int t.amount ≡ some paid
      → big_int c.amount ≡ some reserve
      → Settled e paid reserve e'
      → Correlated es out
      → Correlated (c ∷ t ∷ e ∷ es) (c ∷ t ∷ e' ∷ out)

-- A pending claim or transfer was such an event.
abbrev Held : Option EscrowEvent → Option EscrowEvent → Type 0
Held none none = Unit
Held none (some t) = is_transfer t ≡ true
Held (some c) none = is_claim c ≡ true
Held (some c) (some t) = (is_claim c ≡ true) × (is_transfer t ≡ true) × (same_payment c t ≡ true)

abbrev prefix : Option EscrowEvent → Option EscrowEvent → List EscrowEvent → List EscrowEvent
prefix none none es = es
prefix none (some t) es = t ∷ es
prefix (some c) none es = c ∷ es
prefix (some c) (some t) es = c ∷ t ∷ es

settle_payment-Settled :
    (event : EscrowEvent) (s : Settlement) (paid reserve : ℤ) (redeemed : EscrowEvent)
    → event.settlement ≡ some s
    → settle_payment event s paid reserve ≡ ok redeemed
    → Settled event paid reserve redeemed
unfolding settle_payment
settle_payment-Settled event s paid reserve redeemed decoded h =
    by_face (big_int s.face_value) refl h
  where
    by_face :
        (o : Option ℤ)
        → big_int s.face_value ≡ o
        → bounded_payment event s paid reserve o ≡ ok redeemed
        → Settled event paid reserve redeemed
    by_face none e k = cc
    by_face (some face) e k =
        let (ok_bounds, same) = if_ok (ltb_ℤ paid reserve || ltb_ℤ face paid) _ _ redeemed k in
        record {
          settlement = s;
          face = face;
          decoded = decoded;
          face_value = e;
          covered = ground arith;
          bounded = ground arith;
          recorded = sym (ok_inj same);
        }

-- What a redemption behind the pending events has met.
abbrev Redeems : Option EscrowEvent → Option EscrowEvent → EscrowEvent → EscrowEvent → Type 0
Redeems none none e e' = Settled e (pos 0) (pos 0) e'
Redeems none (some t) e e' =
    (paid : ℤ) × (same_payment t e ≡ true)
    × (big_int t.amount ≡ some paid)
    × Settled e paid (pos 0) e'
Redeems (some c) none e e' = ⊥
Redeems (some c) (some t) e e' =
    (paid : ℤ) × (reserve : ℤ) × (same_payment t e ≡ true)
    × (same_payment c e ≡ true)
    × (big_int t.amount ≡ some paid)
    × (big_int c.amount ≡ some reserve)
    × Settled e paid reserve e'

amount_or_ok : (o : Option ℤ) (text : String) (n : ℤ) → amount_or o text ≡ ok n → o ≡ some n
amount_or_ok none text n h = cc
amount_or_ok (some m) text n h = ap some (ok_inj h)

negated : (b : Bool) → not b ≡ false → b ≡ true
negated true h = refl
negated false h = cc

both_negated : (a b : Bool) → (not a || not b) ≡ false → (a ≡ true) × (b ≡ true)
both_negated true true h = (refl, refl)
both_negated true false h = cc
both_negated false b h = cc

redeem_settled-Redeems :
    (claim transfer : Option EscrowEvent) (e e' : EscrowEvent) (s : Settlement)
    → e.settlement ≡ some s
    → redeem_settled claim transfer e s ≡ ok e'
    → Redeems claim transfer e e'
unfolding redeem_settled
redeem_settled-Redeems none none e e' s d h = settle_payment-Settled e s (pos 0) (pos 0) e' d h
redeem_settled-Redeems (some c) none e e' s d h = cc
redeem_settled-Redeems none (some t) e e' s d h =
    let (same, k) = if_ok (not (same_payment t e)) _ _ e' h in
    let (paid, pe, k') = bind_result_ok (amount_or (big_int t.amount) _) _ e' k in
    (
      paid,
      negated _ same,
      amount_or_ok _ _ paid pe,
      settle_payment-Settled e s paid (pos 0) e' d k',
    )
redeem_settled-Redeems (some c) (some t) e e' s d h =
    let (differ, k) = if_ok (not (same_payment t e) || not (same_payment c e)) _ _ e' h in
    let (st, sc) = both_negated _ _ differ in
    let (paid, pe, k') = bind_result_ok (amount_or (big_int t.amount) _) _ e' k in
    let (reserve, re, k'') = bind_result_ok (amount_or (big_int c.amount) _) _ e' k' in
    (
      paid,
      reserve,
      st,
      sc,
      amount_or_ok _ _ paid pe,
      amount_or_ok _ _ reserve re,
      settle_payment-Settled e s paid reserve e' d k'',
    )

redeem_with-Redeems :
    (claim transfer : Option EscrowEvent) (e e' : EscrowEvent) (o : Option Settlement)
    → e.settlement ≡ o
    → redeem_with claim transfer e o ≡ ok e'
    → Redeems claim transfer e e'
redeem_with-Redeems claim transfer e e' none d h = cc
redeem_with-Redeems claim transfer e e' (some s) d h =
    redeem_settled-Redeems claim transfer e e' s d h

-- The pending events before a redemption complete its group.
grouped :
    (claim transfer : Option EscrowEvent) (e e' : EscrowEvent) {es out : List EscrowEvent}
    → Held claim transfer
    → is_redemption e ≡ true
    → Redeems claim transfer e e'
    → Correlated es out
    → Correlated (prefix claim transfer (e ∷ es)) (prefix claim transfer (e' ∷ out))
grouped none none e e' held k r rest = unpaid k r rest
grouped none (some t) e e' held k (paid, same, amount, settled) rest =
    from_deposit held k same amount settled rest
grouped (some c) none e e' held k r rest = absurd r
grouped (some c) (some t) e e' (kc, kt, sct) k (paid, reserve, st, sc, pa, ra, settled) rest =
    from_reserve kc kt k sct st sc pa ra settled rest

-- An event that leaves new pending ones, and the groups that it completes.
record Advances (claim transfer : Option EscrowEvent) (e : EscrowEvent) (p : Pending) : Type 0 where
  pub held : Held (p.0) (p.1)
  pub onward :
      (es out : List EscrowEvent)
      → Correlated (prefix (p.0) (p.1) es) (prefix (p.0) (p.1) out)
      → Correlated (prefix claim transfer (e ∷ es)) (prefix claim transfer (p.2 ∷ out))

after_claim-Advances :
    (claim transfer : Option EscrowEvent) (e : EscrowEvent) (p : Pending)
    → is_claim e ≡ true
    → after_claim claim transfer e ≡ ok p
    → Advances claim transfer e p
after_claim-Advances none none e p k h =
    subst (Advances none none e) (ok_inj h) (record { held = k; onward = λ es out c. c })
after_claim-Advances none (some t) e p k h = cc
after_claim-Advances (some c) transfer e p k h = cc

after_transfer-Advances :
    (claim transfer : Option EscrowEvent) (e : EscrowEvent) (p : Pending)
    → Held claim transfer
    → is_transfer e ≡ true
    → after_transfer claim transfer e ≡ ok p
    → Advances claim transfer e p
after_transfer-Advances none none e p held k h =
    subst (Advances none none e) (ok_inj h) (record { held = k; onward = λ es out c. c })
after_transfer-Advances (some c) none e p held k h =
    elim (if_cases (same_payment c e) (ok (some c, some e, e)) _ (ok p) h) [
      | inl (same, met) ↦
          subst (Advances (some c) none e) (ok_inj met)
            (record { held = (held, k, same); onward = λ es out d. d })
      | inr (differs, met) ↦ cc
    ]
after_transfer-Advances none (some t) e p held k h = cc
after_transfer-Advances (some c) (some t) e p held k h = cc

between-Advances :
    (claim transfer : Option EscrowEvent) (e : EscrowEvent) (p : Pending)
    → is_claim e ≡ false
    → is_transfer e ≡ false
    → is_redemption e ≡ false
    → between claim transfer e ≡ ok p
    → Advances claim transfer e p
between-Advances none none e p kc kt kr h =
    subst (Advances none none e) (ok_inj h)
      (record { held = tt; onward = λ es out c. other kc kt kr c })
between-Advances none (some t) e p kc kt kr h = cc
between-Advances (some c) transfer e p kc kt kr h = cc

redeemed-Advances :
    (claim transfer : Option EscrowEvent) (e : EscrowEvent) (p : Pending)
    → Held claim transfer
    → is_redemption e ≡ true
    → map_result (λ e'. (none, none, e')) (redeem_with claim transfer e e.settlement) ≡ ok p
    → Advances claim transfer e p
redeemed-Advances claim transfer e p held k h =
    let (e', ok_e, same) =
      map_result_ok (λ (e' : EscrowEvent). let q : Pending = (none, none, e') in q)
        (redeem_with claim transfer e e.settlement) p h in
    subst (Advances claim transfer e) same (record {
      held = tt;
      onward = λ es out c.
          grouped claim transfer e e' held k
            (redeem_with-Redeems claim transfer e e' e.settlement refl ok_e) c;
    })

correlate_event-Advances :
    (claim transfer : Option EscrowEvent) (e : EscrowEvent) (p : Pending)
    → Held claim transfer
    → correlate_event claim transfer e ≡ ok p
    → Advances claim transfer e p
unfolding correlate_event
correlate_event-Advances claim transfer e p held h = elim (if_cases (is_claim e) _ _ _ h) [
  | inl (kc, met) ↦ after_claim-Advances claim transfer e p kc met
  | inr (nc, rest) ↦ elim (if_cases (is_transfer e) _ _ _ rest) [
    | inl (kt, met) ↦ after_transfer-Advances claim transfer e p held kt met
    | inr (nt, last) ↦ elim (if_cases (is_redemption e) _ _ _ last) [
      | inl (kr, met) ↦ redeemed-Advances claim transfer e p held kr met
      | inr (nr, met) ↦ between-Advances claim transfer e p nc nt nr met
    ]
  ]
]

correlate-Correlated :
    (events : List EscrowEvent) (claim transfer : Option EscrowEvent) (out : List EscrowEvent)
    → Held claim transfer
    → correlate claim transfer events ≡ ok out
    → Correlated (prefix claim transfer events) (prefix claim transfer out)
unfolding correlate
correlate-Correlated [] none none out held h = subst (Correlated []) (ok_inj h) done
correlate-Correlated [] none (some t) out held h = cc
correlate-Correlated [] (some c) transfer out held h = cc
correlate-Correlated (e ∷ es) claim transfer out held h =
    let (p, stepped, more) = bind_result_ok (correlate_event claim transfer e) _ out h in
    let (rest, ran, same) = map_result_ok _ (correlate (p.0) (p.1) es) out more in
    let a = correlate_event-Advances claim transfer e p held stepped in
    subst (λ o. Correlated (prefix claim transfer (e ∷ es)) (prefix claim transfer o)) same
      (a.onward es rest (correlate-Correlated es (p.0) (p.1) rest a.held ran))

-- The three types of payment events are different.
kind_false : (k a b : String) → (k == a) ≡ true → (a == b) ≡ false → (k == b) ≡ false
kind_false k a b h d = subst (λ x. (x == b) ≡ false) (sym ((eq_iff k a).0 h)) d

within :
    (paid reserve face : ℤ)
    → reserve ≤ℤ paid
    → paid ≤ℤ face
    → (ltb_ℤ paid reserve || ltb_ℤ face paid) ≡ false
within paid reserve face h k = ground arith

module _ (e : EscrowEvent) where
  settle_payment_complete :
      (paid reserve : ℤ) (e' : EscrowEvent) (s : Settled e paid reserve e')
      → settle_payment e s.settlement paid reserve ≡ ok e'
  unfolding settle_payment
  settle_payment_complete paid reserve e' s =
      rw (s.face_value, within paid reserve s.face s.covered s.bounded) (ap ok (sym s.recorded))

  correlate_event-redeems :
      (claim transfer : Option EscrowEvent) (e' : EscrowEvent)
      → is_redemption e ≡ true
      → redeem_with claim transfer e e.settlement ≡ ok e'
      → correlate_event claim transfer e ≡ ok (none, none, e')
  unfolding correlate_event
  correlate_event-redeems claim transfer e' kr h = rw (
    kind_false e.kind winning_ticket_redeemed reserve_claimed kr refl,
    kind_false e.kind winning_ticket_redeemed winning_ticket_transfer kr refl,
    kr,
    h,
  )

  correlate_event-holds :
      (claim : Option EscrowEvent) (p : Pending)
      → is_transfer e ≡ true
      → after_transfer claim none e ≡ ok p
      → correlate_event claim none e ≡ ok p
  unfolding correlate_event
  correlate_event-holds claim p kt h =
      rw (kind_false e.kind winning_ticket_transfer reserve_claimed kt refl, kt) h

redeem_with-some :
    (claim transfer : Option EscrowEvent) (e : EscrowEvent) (s : Settlement) (o : Option Settlement)
    (r : Result EscrowEvent)
    → o ≡ some s
    → redeem_settled claim transfer e s ≡ r
    → redeem_with claim transfer e o ≡ r
redeem_with-some claim transfer e s o r d h =
    subst (λ x. redeem_with claim transfer e x ≡ r) (sym d) h

-- Every such sequence is accepted.
Correlated-correlate :
    {events out : List EscrowEvent} → Correlated events out → correlate none none events ≡ ok out
unfolding correlate correlate_event redeem_settled
Correlated-correlate done = refl
Correlated-correlate (other {e = e} kc kt kr rest) = rw (kc, kt, kr, Correlated-correlate rest)
Correlated-correlate (unpaid {e} {e'} kr s rest) = rw (
  correlate_event-redeems e none none e' kr (
      redeem_with-some none none e s.settlement _ _ s.decoded
        (settle_payment_complete e (pos 0) (pos 0) e' s)),
  Correlated-correlate rest,
)
Correlated-correlate (from_deposit {t} {e} {e'} {paid = paid} kt kr same pa s rest) = rw (
  correlate_event-holds t none (none, some t, t) kt refl,
  correlate_event-redeems e none (some t) e' kr (
      redeem_with-some none (some t) e s.settlement _ _ s.decoded
        (rw (same, pa) (settle_payment_complete e paid (pos 0) e' s))),
  Correlated-correlate rest,
)
Correlated-correlate
      (from_reserve {c} {t} {e} {e'} {paid = paid} {reserve = reserve} kc kt kr sct st sc pa ra s
        rest) =
    rw (
      kc,
      correlate_event-holds t (some c) (some c, some t, t) kt (rw sct),
      correlate_event-redeems e (some c) (some t) e' kr (
          redeem_with-some (some c) (some t) e s.settlement _ _ s.decoded
            (rw (st, sc, pa, ra) (settle_payment_complete e paid reserve e' s))),
      Correlated-correlate rest,
    )

-- A batch of events is accepted, with an output, exactly if it is a sequence of other events and
-- of groups, each of them a redemption alone, a transfer and a redemption, or a reserve claim, a
-- transfer and a redemption, of one payment; in the output each redemption records the amount
-- paid, the part of it out of the reserve, and the rest out of the deposit, the amount paid being
-- at most its face value, and all other events are as before.
pub correlate_redemptions_iff :
    (events out : List EscrowEvent)
    → (correlate_redemptions events ≡ ok out) ↔ Correlated events out
unfolding correlate_redemptions
correlate_redemptions_iff events out =
    (correlate-Correlated events none none out tt, Correlated-correlate)
