-- ===== src/Store/Amount.antt =====
-- internal/store/store.go: `Amount` and `Address`, on the bytes of a text.
use clearinghouse_batteries.Base.{
  ℕ, ◌^◌, String, Bool, false, not, ◌&&◌, ◌||◌, List, [], ◌∷◌, if◌then◌else◌, ltb, nat_eq, leb,
}
use clearinghouse_batteries.Base.Int.{ℤ, pos, is_negative, ltb_ℤ}
use clearinghouse_batteries.Base.Lists.{length}
use clearinghouse_batteries.Base.Exec.{Result, ok, err, failure}
use clearinghouse_batteries.Base.Text.{bytes, is_digit, all_bytes, decimal_value, lower, to_lower}

-- More than one byte, of which the first is `0`.
abbrev pub leads_with_zero : List ℕ → Bool
leads_with_zero (c ∷ d ∷ s) = nat_eq c b'0'
leads_with_zero s = false

unfoldable pub amount_of : List ℕ → Result ℤ
amount_of value =
    if nat_eq (length value) 0 || ltb 256 (length value) || leads_with_zero value
    then err (failure "amount must be a canonical unsigned decimal integer (at most 256 digits)")
    else if not (all_bytes is_digit value)
    then err (failure "amount must be an unsigned integer")
    else ok (pos (decimal_value value))

unfoldable pub amount : String → Result ℤ
unfolding amount_of
amount value = amount_of (bytes value)

-- A stored amount is the number that its column prints; the source reads it back by `Amount`,
-- which takes no sign and no more than 256 digits.
unfoldable pub amount_limit : ℤ
amount_limit = pos (10 ^ 256)

unfoldable pub stored_amount : ℤ → Result ℤ
unfolding amount_limit
stored_amount n =
    if is_negative n
    then err (failure "amount must be an unsigned integer")
    else if ltb_ℤ n amount_limit
    then ok n
    else err (failure "amount must be a canonical unsigned decimal integer (at most 256 digits)")

abbrev pub is_hex : ℕ → Bool
is_hex c = is_digit c || leb b'a' c && leb c b'f'

abbrev pub has_0x : List ℕ → Bool
has_0x (a ∷ b ∷ s) = nat_eq a b'0' && nat_eq b b'x'
has_0x s = false

abbrev pub without_0x : List ℕ → List ℕ
without_0x (a ∷ b ∷ s) = s
without_0x s = []

abbrev all_hex : List ℕ → Bool
all_hex s = all_bytes (λ c. is_hex (lower c)) (without_0x s)

unfoldable pub address : String → Result String
address v =
    if not (nat_eq (length (bytes v)) 42 && has_0x (bytes v))
    then err (failure "expected a 0x-prefixed 20-byte address")
    else if not (all_hex (bytes v))
    then err (failure "invalid address")
    else ok (to_lower v)

-- internal/store/ingest.go.
unfoldable pub valid_hash : String → Bool
valid_hash s = nat_eq (length (bytes s)) 66 && has_0x (bytes s) && all_hex (bytes s)
