-- ===== src/Store/Auth/Bearer.antt =====
-- internal/store/auth.go: the API key of a request, and the id that it names.
use Prim.Native.Char.{Char, code}
use Prim.Native.String.{len, slice}
use text.Mathlib.Text.{starts_with}
use clearinghouse_batteries.Base.{
  ℕ, ◌+◌, ◌-◌, ◌*◌, ◌/◌, ◌%◌, String, Option, none, some, Bool, false, not, ◌&&◌, ◌||◌, ◌==◌,
  if◌then◌else◌, List, [], ◌∷◌, leb, nat_eq, ◌≡◌, refl,
}
use clearinghouse_batteries.Base.Lists.{length}
use clearinghouse_batteries.Base.Text.{bytes, to_lower, is_space}

-- `strings.EqualFold` with an ASCII word that has no `k` and no `s`.
abbrev pub equal_fold : String → String → Bool
equal_fold a word = to_lower a == to_lower word

-- `strings.Fields`: the word that the text begins with, and the words behind it.
abbrev push_word : String → List String → List String
push_word word words = if word == "" then words else word ∷ words

abbrev field_step : Char → String × List String → String × List String
field_step c (word, words) =
    if is_space (code c) then ("", push_word word words) else (String.◌∷◌ c word, words)

unfoldable pub split_fields : String → String × List String
split_fields String.[] = ("", [])
split_fields (String.◌∷◌ c s) = field_step c (split_fields s)

unfoldable pub fields : String → List String
unfolding split_fields
fields s = let (word, words) = split_fields s in push_word word words

-- `http.Header`, in the order in which the range over the map meets it.
abbrev pub Headers : Type 0
Headers = List (String × List String)

-- The loop over the headers; `none` is the early `return denied`.
unfoldable pub find_bearer : String → Headers → Option String
find_bearer bearer [] = some bearer
find_bearer bearer ((k, []) ∷ rest) =
    let other = find_bearer bearer rest in if equal_fold k "Authorization" then none else other
find_bearer bearer ((k, v ∷ []) ∷ rest) =
    let other = find_bearer bearer rest in
    let found = find_bearer v rest in
    if equal_fold k "Authorization" then (if bearer == "" then found else none) else other
find_bearer bearer ((k, v ∷ w ∷ vs) ∷ rest) =
    let other = find_bearer bearer rest in if equal_fold k "Authorization" then none else other

-- The second of two fields, behind `Bearer`.
abbrev bearer_token : List String → Option String
bearer_token (scheme ∷ token ∷ []) = if equal_fold scheme "Bearer" then some token else none
bearer_token _ = none

unfoldable pub request_key : Headers → Option String
unfolding find_bearer fields
request_key headers = elim (find_bearer "" headers) [
  | none ↦ none
  | some bearer ↦ bearer_token (fields bearer)
]

-- The six bits of a character of `base64.RawURLEncoding`.
abbrev sextet : ℕ → Option ℕ
sextet c =
    if leb b'A' c && leb c b'Z'
    then some (c - b'A')
    else if leb b'a' c && leb c b'z'
    then some (c - b'a' + 26)
    else if leb b'0' c && leb c b'9'
    then some (c - b'0' + 52)
    else if nat_eq c b'-'
    then some 62
    else if nat_eq c b'_'
    then some 63
    else none

unfoldable pub sextets : List ℕ → Option (List ℕ)
sextets [] = some []
sextets (c ∷ s) = elim (sextet c) [
  | none ↦ none
  | some n ↦ elim (sextets s) [ none ↦ none | some ns ↦ some (n ∷ ns) ]
]

-- Groups of four sextets make three bytes; the spare bits of a last group are not checked.
unfoldable pub pack : List ℕ → Option (List ℕ)
pack (a ∷ b ∷ c ∷ d ∷ s) = elim (pack s) [
  | none ↦ none
  | some rest ↦ some ((a * 4 + b / 16) ∷ (b % 16 * 16 + c / 4) ∷ (c % 4 * 64 + d) ∷ rest)
]
pack (a ∷ b ∷ c ∷ []) = some ((a * 4 + b / 16) ∷ (b % 16 * 16 + c / 4) ∷ [])
pack (a ∷ b ∷ []) = some ((a * 4 + b / 16) ∷ [])
pack (a ∷ []) = none
pack [] = some []

abbrev byte_at : ℕ → List ℕ → ℕ
byte_at i [] = 0
byte_at ℕ.zero (c ∷ s) = c
byte_at (ℕ.suc i) (c ∷ s) = byte_at i s

-- A UUIDv7: 16 bytes, version 7, variant 2.
abbrev is_uuid_v7 : Option (List ℕ) → Bool
is_uuid_v7 none = false
is_uuid_v7 (some s) =
    nat_eq (length s) 16 && nat_eq (byte_at 6 s / 16) 7 && nat_eq (byte_at 8 s / 64) 2

abbrev decode_id : List ℕ → Option (List ℕ)
decode_id s = elim (sextets s) [ none ↦ none | some ns ↦ pack ns ]

-- A line break, which the decoder skips, leaves fewer than 16 bytes, so it may count as an error.
unfoldable pub api_key_id : String → Option String
unfolding sextets pack
api_key_id key =
    if not (starts_with key "lpg_")
    then none
    else let payload = slice key 4 (len key) in
      let id = slice payload 0 22 in
      if leb (len payload) 23 || not (slice payload 22 23 == "_")
      then none
      else if is_uuid_v7 (decode_id (bytes id))
      then some id
      else none

bearer_example :
    request_key (("X-Other", "1" ∷ []) ∷ ("authorization", "bearer  lpg_abc" ∷ []) ∷ [])
    ≡ some "lpg_abc"
unfolding request_key to_lower
bearer_example = refl

id_example : api_key_id "lpg_AAAAAAAAcACAAAAAAAAAAA_s3cret" ≡ some "AAAAAAAAcACAAAAAAAAAAA"
unfolding api_key_id bytes
id_example = refl
