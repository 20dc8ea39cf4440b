-- ===== src/Store/Manage/Grants.antt =====
-- internal/store/manage.go: the input of a creation, `createGrant` and `fundGrant`.
use clearinghouse_batteries.Base.{
  String, concat, Option, none, some, Bool, false, not, ◌&&◌, ◌==◌, if◌then◌else◌, [], ◌∷◌, ◌++◌,
}
use clearinghouse_batteries.Base.Int.{ℤ, ◌+ℤ◌, leb_ℤ}
use clearinghouse_batteries.Base.Lists.{find, update}
use clearinghouse_batteries.Base.Text.{is_blank, one_of}
use clearinghouse_batteries.Base.Exec.{
  Result, ok, err, no_rows, invalid_input, state_conflict, pure, lift, or_raise, raise_if, ◌>>=◌,
  ◌>>◌,
}
use clearinghouse_batteries.Db.{Grant}
use clearinghouse_batteries.Db.Tx.{Tx, fresh_id, now, query, execute}
use clearinghouse_batteries.Store.Amount.{amount, stored_amount}
use clearinghouse_batteries.Store.Summary.{change_inventory}
use clearinghouse_batteries.Store.Ledger.{transfer_currency}

pub record Create : Type 0 where
  pub name : String
  pub sponsor : String
  pub beneficiary : String
  pub grant_id : String
  pub amount : String
  pub currency : String
  pub status : String
  pub metadata : String
  pub starts : Option ℤ
  pub ends : Option ℤ

-- `p.Starts != nil && p.Ends != nil && *p.Ends <= *p.Starts`
abbrev pub ends_early : Option ℤ → Option ℤ → Bool
ends_early none ends = false
ends_early (some s) none = false
ends_early (some s) (some e) = leb_ℤ e s

unfoldable pub prepare_create : Create → Result (Unit {0})
prepare_create p =
    if is_blank p.name
    then err (invalid_input "name is required")
    else if ends_early p.starts p.ends
    then err (invalid_input "ends must follow starts")
    else ok tt

-- The default of an empty text.
abbrev pub or_default : String → String → String
or_default value default = if value == "" then default else value

abbrev pub has_id : String → Grant → Bool
has_id id g = g.id == id

abbrev pub find_grant : String → Tx Grant
find_grant id = query (λ db. find (has_id id) db.grants) >>= λ found. or_raise found no_rows

unfoldable pub create_grant : Create → Tx String
create_grant p = do
  let currency = or_default p.currency "usd"
  raise_if (not (one_of currency ("usd" ∷ "eth" ∷ [])))
      (invalid_input "currency must be usd or eth")
  n ← lift (amount p.amount)
  id ← fresh_id
  let status = or_default p.status "draft"
  raise_if (not (one_of status ("draft" ∷ "active" ∷ "paused" ∷ [])))
      (invalid_input "initial grant status must be draft, active, or paused")
  at ← now
  execute λ db. record db {
    grants =
        db.grants
        ++ record {
          id = id;
          name = p.name;
          sponsor = p.sponsor;
          total_units = n;
          currency = currency;
          starts_at_ms = p.starts;
          ends_at_ms = p.ends;
          status = status;
          metadata = p.metadata;
          created_at_ms = at;
        }
          ∷ [];
  }
  change_inventory "grants" currency "" status
  transfer_currency (concat "create:" id) "grant funding" "grant" id "grant_funding_source" id
      "grant_unallocated" id currency n
  pure id

unfoldable pub fund_grant : String → ℤ → String → Tx (Unit {0})
fund_grant id n currency = do
  g ← find_grant id
  raise_if (not (currency == "") && not (currency == g.currency))
      (invalid_input "funding currency must match grant currency")
  raise_if (g.status == "closed") (state_conflict "grant is closed")
  old ← lift (stored_amount g.total_units)
  execute λ db. record db {
    grants = update (has_id id) (λ r. record r { total_units = old +ℤ n }) db.grants;
  }
  fund ← fresh_id
  transfer_currency (concat "fund:" fund) "grant funding" "grant" id "grant_funding_source" id
      "grant_unallocated" id g.currency n
