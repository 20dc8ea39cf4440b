-- ===== src/Base/Text.antt =====
-- Go strings as bytes, and decimal digits. A text that is only compared stays a `String`; one
-- that the code walks is its list of UTF-8 bytes.
use Prim.Native.Nat.{ℕ, zero, suc, ◌+◌, ◌-◌, ◌*◌, ◌/◌, ◌%◌}
use Prim.Native.Char.{Char, code}
use Prim.Native.String.{String, ◌++◌ as concat}
use mathlib.Core.Path.{◌≡◌, refl}
use mathlib.Core.Bool.{Bool, true, false, ◌&&◌, ◌||◌}
use mathlib.Core.List.{List, [], ◌∷◌}
use text.Mathlib.Text.{◌==◌}
use clearinghouse_batteries.Base.Tests.{leb, ltb, nat_eq, if◌then◌else◌}
use clearinghouse_batteries.Base.Int.{ℤ, pos, negsuc}

utf8_char : ℕ → List ℕ → List ℕ
utf8_char c rest =
    if ltb c 0x80
    then c ∷ rest
    else if ltb c 0x800
    then (0xc0 + c / 64) ∷ (0x80 + c % 64) ∷ rest
    else if ltb c 0x10000
    then (0xe0 + c / 4096) ∷ (0x80 + c / 64 % 64) ∷ (0x80 + c % 64) ∷ rest
    else (0xf0 + c / 262144)
      ∷ (0x80 + c / 4096 % 64)
      ∷ (0x80 + c / 64 % 64)
      ∷ (0x80 + c % 64)
      ∷ rest

unfoldable pub bytes : String → List ℕ
unfolding utf8_char
bytes String.[] = []
bytes (String.◌∷◌ c s) = utf8_char (code c) (bytes s)

abbrev pub is_digit : ℕ → Bool
is_digit c = leb b'0' c && leb c b'9'

unfoldable pub all_bytes : (ℕ → Bool) → List ℕ → Bool
all_bytes p [] = true
all_bytes p (c ∷ s) = p c && all_bytes p s

-- `new(big.Int).SetString(value, 10)` on digits, from the left.
unfoldable pub decimal_from : ℕ → List ℕ → ℕ
decimal_from acc [] = acc
decimal_from acc (c ∷ s) = decimal_from (acc * 10 + (c - b'0')) s

unfoldable pub decimal_value : List ℕ → ℕ
unfolding decimal_from
decimal_value s = decimal_from 0 s

-- `n.String()`, the digits of `n` before `rest`; `n + 1` rounds are always enough.
unfoldable pub decimal_before : ℕ → ℕ → List ℕ → List ℕ
decimal_before zero n rest = rest
decimal_before (suc f) n rest =
    let digit = b'0' + n % 10 in
    let more = decimal_before f (n / 10) (digit ∷ rest) in if ltb n 10 then digit ∷ rest else more

unfoldable pub decimal : ℕ → List ℕ
unfolding decimal_before
decimal n = decimal_before (suc n) n []

abbrev digit_text : ℕ → String
digit_text c =
    if nat_eq c 0
    then "0"
    else if nat_eq c 1
    then "1"
    else if nat_eq c 2
    then "2"
    else if nat_eq c 3
    then "3"
    else if nat_eq c 4
    then "4"
    else if nat_eq c 5
    then "5"
    else if nat_eq c 6
    then "6"
    else if nat_eq c 7
    then "7"
    else if nat_eq c 8
    then "8"
    else "9"

decimal_text_before : ℕ → ℕ → String → String
decimal_text_before zero n rest = rest
decimal_text_before (suc f) n rest =
    let digit = concat (digit_text (n % 10)) rest in
    let more = decimal_text_before f (n / 10) digit in if ltb n 10 then digit else more

-- `fmt.Sprint` and `%d`.
unfoldable pub sprint : ℤ → String
unfolding decimal_text_before
sprint (pos n) = decimal_text_before (suc n) n ""
sprint (negsuc n) = concat "-" (decimal_text_before (suc (suc n)) (suc n) "")

-- `strings.ToLower` on an ASCII byte.
abbrev pub lower : ℕ → ℕ
lower c = if leb b'A' c && leb c b'Z' then c + 32 else c

lower_table : List (ℕ × Char)
lower_table =
    (b'A', "a")
    ∷ (b'B', "b")
    ∷ (b'C', "c")
    ∷ (b'D', "d")
    ∷ (b'E', "e")
    ∷ (b'F', "f")
    ∷ (b'G', "g")
    ∷ (b'H', "h")
    ∷ (b'I', "i")
    ∷ (b'J', "j")
    ∷ (b'K', "k")
    ∷ (b'L', "l")
    ∷ (b'M', "m")
    ∷ (b'N', "n")
    ∷ (b'O', "o")
    ∷ (b'P', "p")
    ∷ (b'Q', "q")
    ∷ (b'R', "r")
    ∷ (b'S', "s")
    ∷ (b'T', "t")
    ∷ (b'U', "u")
    ∷ (b'V', "v")
    ∷ (b'W', "w")
    ∷ (b'X', "x")
    ∷ (b'Y', "y")
    ∷ (b'Z', "z")
    ∷ []

lower_char : List (ℕ × Char) → Char → Char
lower_char [] c = c
lower_char ((upper, small) ∷ table) c = if nat_eq (code c) upper then small else lower_char table c

-- `strings.ToLower` on ASCII letters.
unfoldable pub to_lower : String → String
unfolding lower_char lower_table
to_lower String.[] = String.[]
to_lower (String.◌∷◌ c s) = String.◌∷◌ (lower_char lower_table c) (to_lower s)

sprint_example : sprint (pos 1207) ≡ "1207"
unfolding sprint
sprint_example = refl

to_lower_example : to_lower "0xAbC9" ≡ "0xabc9"
unfolding to_lower
to_lower_example = refl

-- `unicode.IsSpace`
abbrev pub is_space : ℕ → Bool
is_space c =
    leb 9 c && leb c 13
    || nat_eq c 0x20
    || nat_eq c 0x85
    || nat_eq c 0xa0
    || nat_eq c 0x1680
    || leb 0x2000 c && leb c 0x200a
    || nat_eq c 0x2028
    || nat_eq c 0x2029
    || nat_eq c 0x202f
    || nat_eq c 0x205f
    || nat_eq c 0x3000

-- `strings.TrimSpace(s) == ""`
unfoldable pub is_blank : String → Bool
is_blank String.[] = true
is_blank (String.◌∷◌ c s) = is_space (code c) && is_blank s

unfoldable pub one_of : String → List String → Bool
one_of s [] = false
one_of s (v ∷ values) = v == s || one_of s values
