-- ===== src/Store/Idempotency.antt =====
-- internal/store/idempotency.go: replayable management requests.
pub mod Sound
pub mod Replay
pub mod Tests
use clearinghouse_batteries.Base.{
  ℕ, String, concat, Option, none, some, Bool, true, false, not, ◌&&◌, ◌||◌, ◌==◌, if◌then◌else◌,
  List, [], ◌∷◌, ◌++◌, leb, ltb, nat_eq,
}
use clearinghouse_batteries.Base.Int.{ℤ, pos}
use clearinghouse_batteries.Base.Lists.{find, length}
use clearinghouse_batteries.Base.Text.{bytes, all_bytes, is_digit, is_blank, one_of}
use clearinghouse_batteries.Base.Exec.{
  Result, ok, err, failure, invalid_input, state_conflict, pure, raise, lift, raise_if, ◌>>=◌, ◌>>◌,
}
use clearinghouse_batteries.Db.{Db, IdempotencyRow}
use clearinghouse_batteries.Db.Tx.{Tx, now, query, execute, write}
use clearinghouse_batteries.Store.Manage.Grants.{Create, prepare_create}
use clearinghouse_batteries.Store.Manage.Allocations.{
  find_allocation, create_allocation, fund_currency,
}
use clearinghouse_batteries.Store.Manage.Keys.{create_key, create_key_for_grant}

pub record Idempotency : Type 0 where
  pub key : String
  pub fingerprint : String

pub record ManagementResponse : Type 0 where
  pub status : ℤ
  pub body : String

abbrev is_key_byte : ℕ → Bool
is_key_byte c =
    leb b'A' c && leb c b'Z'
    || leb b'a' c && leb c b'z'
    || is_digit c
    || nat_eq c b'_'
    || nat_eq c b'-'
    || nat_eq c b'='

unfoldable pub validate_idempotency_key : String → Result (Unit {0})
validate_idempotency_key key =
    if nat_eq (length (bytes key)) 0
      || ltb 256 (length (bytes key))
      || not (all_bytes is_key_byte (bytes key))
    then err (
        invalid_input
          "Idempotency-Key must be 1-256 characters using only A-Z, a-z, 0-9, '_', '-' or '='")
    else ok tt

-- What a mutation returns before it is encoded: the fields of a JSON object.
abbrev pub Fields : Type 0
Fields = List (String × String)

abbrev pub is_request : String → String → IdempotencyRow → Bool
is_request grant key row = row.grant_id == grant && row.idempotency_key == key

-- The grant in whose namespace the key stands.
unfoldable pub scope_grant : String → String → Tx String
scope_grant kind id =
    if kind == "allocation" then (do a ← find_allocation id; pure a.grant_id) else pure id

-- `encode` is `json.Marshal` with the newline that follows it.
unfoldable pub execute_request : (Fields → String) → ℤ → Tx Fields → Tx ManagementResponse
execute_request encode status mutate = do
  result ← mutate
  pure (record { status = status; body = encode result })

unfoldable pub replay : Idempotency → IdempotencyRow → Tx ManagementResponse
replay request row =
    if row.fingerprint == request.fingerprint
    then pure (record { status = row.response_status; body = row.response_json })
    else raise
        (state_conflict "idempotency key was already used with different parameters or operation")

unfoldable pub store_response : String → Idempotency → ManagementResponse → Tx (Unit {0})
store_response grant request response = do
  at ← now
  execute λ db. record db {
    idempotency =
        db.idempotency
        ++ record {
          grant_id = grant;
          idempotency_key = request.key;
          fingerprint = request.fingerprint;
          response_status = response.status;
          response_json = response.body;
          created_at_ms = at;
        }
          ∷ [];
  }

abbrev pub run_or_replay :
    (Fields → String)
    → ℤ
    → String
    → Idempotency
    → Tx Fields
    → Option IdempotencyRow
    → Tx ManagementResponse
run_or_replay encode status grant request mutate none = do
  response ← execute_request encode status mutate
  store_response grant request response
  pure response
run_or_replay encode status grant request mutate (some row) = replay request row

unfoldable pub keyed_body :
    (Fields → String) → String → String → ℤ → Idempotency → Tx Fields → Tx ManagementResponse
unfolding scope_grant execute_request replay store_response
keyed_body encode scope_kind scope_id status request mutate = do
  grant ← scope_grant scope_kind scope_id
  stored ← query (λ db. find (is_request grant request.key) db.idempotency)
  run_or_replay encode status grant request mutate stored

unfoldable pub write_idempotent :
    (Fields → String) → String → String → ℤ → Idempotency → Tx Fields → Tx ManagementResponse
unfolding keyed_body execute_request
write_idempotent encode scope_kind scope_id status request mutate =
    if request.key == "" then write (execute_request encode status mutate) else do
      lift (validate_idempotency_key request.key)
      write (keyed_body encode scope_kind scope_id status request mutate)

unfoldable pub create_allocation_idempotent :
    (Fields → String) → Create → Idempotency → Tx ManagementResponse
unfolding write_idempotent
create_allocation_idempotent encode p request = do
  lift (prepare_create p)
  write_idempotent encode "grant" p.grant_id (pos 201) request
      do id ← create_allocation p; pure (("id", id) ∷ [])

unfoldable pub fund_currency_idempotent :
    (Fields → String) → String → String → String → String → Idempotency → Tx ManagementResponse
unfolding write_idempotent
fund_currency_idempotent encode kind id value currency request = do
  raise_if (not (one_of kind ("grant" ∷ "allocation" ∷ []))) (failure "unknown resource")
  write_idempotent encode kind id (pos 200) request
      do fund_currency kind id value currency; pure (("id", id) ∷ [])

unfoldable pub create_key_idempotent :
    (Fields → String) → String → String → Idempotency → Tx ManagementResponse
unfolding write_idempotent
create_key_idempotent encode allocation name request = do
  raise_if (is_blank name) (invalid_input "name is required")
  write_idempotent encode "allocation" allocation (pos 201) request do
    made ← create_key allocation name
    pure (("allocation_id", allocation) ∷ ("id", made.0) ∷ ("api_key", made.1) ∷ [])

unfoldable pub create_key_for_grant_idempotent :
    (Fields → String) → String → String → String → String → Idempotency → Tx ManagementResponse
unfolding write_idempotent
create_key_for_grant_idempotent encode grant name value currency request =
    let p : Create = record {
      name = name;
      sponsor = "";
      beneficiary = "";
      grant_id = grant;
      amount = value;
      currency = currency;
      status = "";
      metadata = "";
      starts = none;
      ends = none;
    } in
    do
      lift (prepare_create p)
      write_idempotent encode "grant" grant (pos 201) request do
        made ← create_key_for_grant p
        pure (("allocation_id", made.0) ∷ ("id", made.1) ∷ ("api_key", made.2) ∷ [])
