-- ===== src/Chain/Config.antt =====
-- internal/chain/listener.go: the configuration of the listener, and the name of its stream.
use clearinghouse_batteries.Base.{
  String, concat, Option, none, some, Bool, true, false, ◌||◌, ◌==◌, if◌then◌else◌, List, [], ◌∷◌,
  map, ltb,
}
use Prim.Native.Char.{code}
use clearinghouse_batteries.Base.Int.{ℤ, pos, leb_ℤ, ltb_ℤ, eqb_ℤ, is_negative, is_positive}
use clearinghouse_batteries.Base.Sort.{sort_by, compact_by}
use clearinghouse_batteries.Base.Text.{to_lower}
use clearinghouse_batteries.Base.Exec.{Result, ok, err, failure, bind_result, map_result}
use clearinghouse_batteries.Store.Amount.{amount, address}
use clearinghouse_batteries.Store.Ingest.{max_int64}
use clearinghouse_batteries.Kafka.Broker.{explain}

-- `poll` is a duration in nanoseconds.
pub record Config : Type 0 where
  pub chain_id : String
  pub contract : String
  pub senders : List String
  pub start : Option ℤ
  pub confirmations : ℤ
  pub batch_size : ℤ
  pub lookback : ℤ
  pub poll : ℤ

abbrev positive_amount : Result ℤ → Bool
positive_amount (ok n) = is_positive n
positive_amount (err e) = false

abbrev pub check_chain_id : String → Result (Unit {0})
check_chain_id chain_id =
    if chain_id == "" || positive_amount (amount chain_id)
    then ok tt
    else err (failure "chain ID must be a positive integer")

abbrev pub check_contract : String → Result (Unit {0})
check_contract contract =
    if contract == ""
    then ok tt
    else map_result (λ a. tt) (explain "contract address" (address contract))

abbrev pub check_each : List String → Result (Unit {0})
check_each [] = ok tt
check_each (s ∷ senders) = bind_result (address s) λ a. check_each senders

abbrev pub check_senders : List String → Result (Unit {0})
check_senders [] = err (failure "at least one signer address required")
check_senders (s ∷ senders) = check_each (s ∷ senders)

abbrev pub check_start : Option ℤ → Result (Unit {0})
check_start none = ok tt
check_start (some n) =
    if is_negative n || eqb_ℤ n max_int64 then err (failure "invalid start block") else ok tt

abbrev pub check_bounds : Config → Result (Unit {0})
check_bounds c =
    if is_negative c.confirmations
      || leb_ℤ c.batch_size (pos 0)
      || ltb_ℤ c.lookback (pos 1)
      || leb_ℤ c.poll (pos 0)
    then err (failure "invalid chain polling bounds")
    else ok tt

unfoldable pub validate : Config → Result (Unit {0})
validate c = bind_result (check_chain_id c.chain_id) λ u.
    bind_result (check_contract c.contract) λ u.
      bind_result (check_senders c.senders)
        λ u. bind_result (check_start c.start) λ u. check_bounds c

-- Go's `<` on strings: the order of UTF-8 bytes is the order of code points.
unfoldable pub text_before : String → String → Bool
text_before String.[] String.[] = false
text_before String.[] (String.◌∷◌ c s) = true
text_before (String.◌∷◌ c s) String.[] = false
text_before (String.◌∷◌ c s) (String.◌∷◌ d t) =
    let rest = text_before s t in
    if ltb (code c) (code d) then true else if ltb (code d) (code c) then false else rest

abbrev pub same_text : String → String → Bool
same_text a b = a == b

-- `strings.Join(values, ",")`
unfoldable pub join : List String → String
join [] = ""
join (s ∷ []) = s
join (s ∷ t ∷ rest) = concat s (concat "," (join (t ∷ rest)))

unfoldable pub sender_set : List String → List String
sender_set senders = compact_by same_text (sort_by text_before (map to_lower senders))

unfoldable pub stream : Config → String
unfolding join sender_set
stream c =
    concat c.chain_id
      (concat ":" (concat (to_lower c.contract) (concat ":" (join (sender_set c.senders)))))
