-- ===== src/Units.antt =====
-- internal/units/eth.go: conversion between user-facing decimals and exact 10^18-scale integers,
-- on the bytes of a text.
use clearinghouse_batteries.Base.{
  ℕ, suc, ◌-◌, ◌/◌, ◌%◌, ◌^◌, String, concat, ◌≡◌, refl, Bool, true, false, not, ◌&&◌, ◌||◌, List,
  [], ◌∷◌, ◌++◌, if◌then◌else◌, nat_eq, ltb,
}
use clearinghouse_batteries.Base.Lists.{length}
use clearinghouse_batteries.Base.Exec.{Result, ok, err, failure}
use clearinghouse_batteries.Base.Text.{is_digit, all_bytes, decimal_value, decimal, bytes}

abbrev pub decimals : ℕ
decimals = 18

unfoldable pub units_per_currency : ℕ
units_per_currency = 10 ^ decimals

unfoldable pub repeat_zero : ℕ → List ℕ
repeat_zero ℕ.zero = []
repeat_zero (suc n) = b'0' ∷ repeat_zero n

-- `strings.TrimLeft(s, "0")`
unfoldable pub trim_left : List ℕ → List ℕ
trim_left [] = []
trim_left (c ∷ s) = let rest = trim_left s in if nat_eq c b'0' then rest else c ∷ s

-- `strings.TrimRight(s, "0")`
abbrev trim_right_step : ℕ → List ℕ → List ℕ
trim_right_step c [] = if nat_eq c b'0' then [] else c ∷ []
trim_right_step c (d ∷ s) = c ∷ d ∷ s

unfoldable pub trim_right : List ℕ → List ℕ
trim_right [] = []
trim_right (c ∷ s) = trim_right_step c (trim_right s)

-- `strings.Split(s, ".")`: the part before the first point, and the parts after it.
abbrev split_step : ℕ → List ℕ × List (List ℕ) → List ℕ × List (List ℕ)
split_step c (part, parts) = if nat_eq c b'.' then ([], part ∷ parts) else (c ∷ part, parts)

unfoldable pub split : List ℕ → List ℕ × List (List ℕ)
split [] = ([], [])
split (c ∷ s) = split_step c (split s)

abbrev is_empty : List ℕ → Bool
is_empty [] = true
is_empty (c ∷ s) = false

-- `digits`
unfoldable pub digits : List ℕ → Bool
digits value = all_bytes is_digit value && not (is_empty value)

abbrev or_zero : List ℕ → List ℕ
or_zero [] = b'0' ∷ []
or_zero (c ∷ s) = c ∷ s

-- The digits of the amount, from a whole part and a fraction of at most 18 digits.
unfoldable pub join_units : List ℕ → List ℕ → List ℕ
join_units whole fraction = or_zero (
    trim_left (or_zero (trim_left whole) ++ (fraction ++ repeat_zero (decimals - length fraction))))

unfoldable pub checked_units : List ℕ → List ℕ → Result (List ℕ)
unfolding join_units
checked_units whole fraction =
    if ltb decimals (length fraction)
    then err (failure "amount has more than 18 decimal places")
    else if ltb 256 (length (join_units whole fraction))
    then err (failure "amount exceeds the 256-digit unit limit")
    else ok (join_units whole fraction)

abbrev unsigned_error : String → Result (List ℕ)
unsigned_error currency =
    err (failure (concat (concat "amount must be an unsigned decimal " currency) " value"))

abbrev from_parts : String → List ℕ × List (List ℕ) → Result (List ℕ)
from_parts currency (whole, []) =
    if digits whole then checked_units whole [] else unsigned_error currency
from_parts currency (whole, fraction ∷ []) =
    if digits whole && digits fraction
    then checked_units whole fraction
    else unsigned_error currency
from_parts currency (whole, a ∷ b ∷ parts) = unsigned_error currency

unfoldable pub decimal_to_units : List ℕ → String → Result (List ℕ)
unfolding checked_units split digits
decimal_to_units value currency =
    if is_empty value
    then err (failure (concat (concat "amount in " currency) " is required"))
    else from_parts currency (split value)

unfoldable pub eth_to_wei : List ℕ → Result (List ℕ)
unfolding decimal_to_units
eth_to_wei value = decimal_to_units value "ETH"

abbrev leads_with_zero : List ℕ → Bool
leads_with_zero (c ∷ d ∷ s) = nat_eq c b'0'
leads_with_zero s = false

-- The fraction of the remainder, behind its point, if there is one.
unfoldable pub fraction_text : ℕ → List ℕ
fraction_text remainder =
    if nat_eq remainder 0
    then []
    else b'.'
      ∷ trim_right (repeat_zero (decimals - length (decimal remainder)) ++ decimal remainder)

unfoldable pub unsigned_to_decimal : ℕ → List ℕ
unfolding fraction_text units_per_currency
unsigned_to_decimal n = decimal (n / units_per_currency) ++ fraction_text (n % units_per_currency)

abbrev checked_decimal : Bool → List ℕ → Result (List ℕ)
checked_decimal negative value =
    if not (digits value) || leads_with_zero value
    then err (failure "invalid amount units")
    else if negative && not (nat_eq (decimal_value value) 0)
    then ok (b'-' ∷ unsigned_to_decimal (decimal_value value))
    else ok (unsigned_to_decimal (decimal_value value))

unfoldable pub units_to_decimal : List ℕ → Result (List ℕ)
unfolding unsigned_to_decimal digits
units_to_decimal [] = err (failure "invalid amount units")
units_to_decimal (c ∷ s) =
    if nat_eq c b'-' then checked_decimal true s else checked_decimal false (c ∷ s)

unfoldable pub wei_to_eth : List ℕ → Result (List ℕ)
unfolding units_to_decimal
wei_to_eth value = units_to_decimal value

eth_example : eth_to_wei (bytes "1.50") ≡ ok (bytes "1500000000000000000")
unfolding eth_to_wei bytes all_bytes repeat_zero trim_left
eth_example = refl

wei_example : wei_to_eth (bytes "-1500000000000000000") ≡ ok (bytes "-1.5")
unfolding wei_to_eth bytes all_bytes repeat_zero trim_right decimal decimal_value
wei_example = refl
