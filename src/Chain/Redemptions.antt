-- ===== src/Chain/Redemptions.antt =====
-- internal/chain/listener.go: `correlateRedemptions`, which joins a redemption with the payment
-- events before it.
pub mod Correlated
use clearinghouse_batteries.Base.{
  ℕ, String, Option, none, some, Bool, true, false, not, ◌&&◌, ◌||◌, ◌==◌, if◌then◌else◌, List, [],
  ◌∷◌, nat_eq,
}
use clearinghouse_batteries.Base.Int.{ℤ, pos, neg, ◌-ℤ◌, ltb_ℤ}
use clearinghouse_batteries.Base.Text.{bytes, is_digit, all_bytes, decimal_value, sprint}
use clearinghouse_batteries.Base.Exec.{Result, ok, err, failure, bind_result, map_result}
use clearinghouse_batteries.Store.Settlements.Events.{
  EscrowEvent, Settlement, reserve_claimed, winning_ticket_transfer, winning_ticket_redeemed,
}

unfoldable pub digits_value : List ℕ → Option ℕ
digits_value [] = none
digits_value (c ∷ s) = if all_bytes is_digit (c ∷ s) then some (decimal_value (c ∷ s)) else none

abbrev signed : (ℕ → ℤ) → Option ℕ → Option ℤ
signed f none = none
signed f (some n) = some (f n)

-- `new(big.Int).SetString(value, 10)`: an optional sign, then at least one digit.
unfoldable pub big_int_of : List ℕ → Option ℤ
unfolding digits_value
big_int_of [] = none
big_int_of (c ∷ s) =
    if nat_eq c b'-'
    then signed (λ n. neg (pos n)) (digits_value s)
    else if nat_eq c b'+'
    then signed pos (digits_value s)
    else signed pos (digits_value (c ∷ s))

unfoldable pub big_int : String → Option ℤ
unfolding big_int_of
big_int value = big_int_of (bytes value)

unfoldable pub same_payment : EscrowEvent → EscrowEvent → Bool
same_payment left right =
    left.tx_hash == right.tx_hash
    && left.sender == right.sender
    && left.recipient == right.recipient

abbrev pub is_claim : EscrowEvent → Bool
is_claim e = e.kind == reserve_claimed

abbrev pub is_transfer : EscrowEvent → Bool
is_transfer e = e.kind == winning_ticket_transfer

abbrev pub is_redemption : EscrowEvent → Bool
is_redemption e = e.kind == winning_ticket_redeemed

-- The redemption with what was paid, and the part of it that came out of the reserve.
abbrev pub with_payment : EscrowEvent → Settlement → ℤ → ℤ → EscrowEvent
with_payment event s paid reserve = record event {
  deposit_amount = sprint (paid -ℤ reserve);
  reserve_amount = sprint reserve;
  settlement = some (record s {
    paid_amount = sprint paid;
    deposit_paid = sprint (paid -ℤ reserve);
    reserve_paid = sprint reserve;
  });
}

abbrev pub bounded_payment : EscrowEvent → Settlement → ℤ → ℤ → Option ℤ → Result EscrowEvent
bounded_payment event s paid reserve none = err (failure "invalid winning ticket payment amounts")
bounded_payment event s paid reserve (some face) =
    if ltb_ℤ paid reserve || ltb_ℤ face paid
    then err (failure "invalid winning ticket payment amounts")
    else ok (with_payment event s paid reserve)

unfoldable pub settle_payment : EscrowEvent → Settlement → ℤ → ℤ → Result EscrowEvent
settle_payment event s paid reserve = bounded_payment event s paid reserve (big_int s.face_value)

abbrev pub amount_or : Option ℤ → String → Result ℤ
amount_or none text = err (failure text)
amount_or (some n) text = ok n

unfoldable pub redeem_settled :
    Option EscrowEvent → Option EscrowEvent → EscrowEvent → Settlement → Result EscrowEvent
unfolding settle_payment
redeem_settled (some claim) none event s =
    err (failure "ReserveClaimed is missing WinningTicketTransfer")
redeem_settled none none event s = settle_payment event s (pos 0) (pos 0)
redeem_settled none (some transfer) event s =
    if not (same_payment transfer event)
    then err (failure "redemption does not match preceding payment events")
    else bind_result (amount_or (big_int transfer.amount) "invalid ticket transfer amount")
        λ paid. settle_payment event s paid (pos 0)
redeem_settled (some claim) (some transfer) event s =
    if not (same_payment transfer event) || not (same_payment claim event)
    then err (failure "redemption does not match preceding payment events")
    else bind_result (amount_or (big_int transfer.amount) "invalid ticket transfer amount") λ paid.
      bind_result (amount_or (big_int claim.amount) "invalid reserve claim amount")
        λ reserve. settle_payment event s paid reserve

abbrev pub redeem_with :
    Option EscrowEvent → Option EscrowEvent → EscrowEvent → Option Settlement → Result EscrowEvent
redeem_with claim transfer event none = err (failure "redemption is missing decoded settlement")
redeem_with claim transfer event (some s) = redeem_settled claim transfer event s

-- The pending claim and transfer after an event, and the event itself.
abbrev pub Pending : Type 0
Pending = Option EscrowEvent × Option EscrowEvent × EscrowEvent

abbrev pub after_claim : Option EscrowEvent → Option EscrowEvent → EscrowEvent → Result Pending
after_claim none none event = ok (some event, none, event)
after_claim none (some transfer) event = err (failure "out-of-order ReserveClaimed event")
after_claim (some claim) transfer event = err (failure "out-of-order ReserveClaimed event")

abbrev pub after_transfer : Option EscrowEvent → Option EscrowEvent → EscrowEvent → Result Pending
after_transfer none none event = ok (none, some event, event)
after_transfer (some claim) none event =
    if same_payment claim event
    then ok (some claim, some event, event)
    else err (failure "WinningTicketTransfer does not match reserve claim")
after_transfer claim (some transfer) event =
    err (failure "WinningTicketTransfer does not match reserve claim")

abbrev pub between : Option EscrowEvent → Option EscrowEvent → EscrowEvent → Result Pending
between none none event = ok (none, none, event)
between none (some transfer) event = err (failure "payment events are not contiguous")
between (some claim) transfer event = err (failure "payment events are not contiguous")

unfoldable pub correlate_event :
    Option EscrowEvent → Option EscrowEvent → EscrowEvent → Result Pending
unfolding redeem_settled
correlate_event claim transfer event =
    if is_claim event
    then after_claim claim transfer event
    else if is_transfer event
    then after_transfer claim transfer event
    else if is_redemption event
    then map_result (λ redeemed. (none, none, redeemed))
        (redeem_with claim transfer event event.settlement)
    else between claim transfer event

abbrev pub correlated_end : Option EscrowEvent → Option EscrowEvent → Result (List EscrowEvent)
correlated_end none none = ok []
correlated_end none (some transfer) = err (failure "incomplete redemption event sequence")
correlated_end (some claim) transfer = err (failure "incomplete redemption event sequence")

unfoldable pub correlate :
    Option EscrowEvent → Option EscrowEvent → List EscrowEvent → Result (List EscrowEvent)
unfolding correlate_event
correlate claim transfer [] = correlated_end claim transfer
correlate claim transfer (event ∷ events) =
    bind_result (correlate_event claim transfer event)
      λ p. map_result (λ rest. p.2 ∷ rest) (correlate (p.0) (p.1) events)

unfoldable pub correlate_redemptions : List EscrowEvent → Result (List EscrowEvent)
unfolding correlate
correlate_redemptions events = correlate none none events
