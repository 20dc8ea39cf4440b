-- ===== src/Store/Manage/Sound.antt =====
-- internal/store/manage.go: rules for the management calls and the soundness of the ledger.
use clearinghouse_batteries.Base.{String}
use clearinghouse_batteries.Base.Int.{ℤ}
use clearinghouse_batteries.Base.Exec.Keeps.{Keeps}
use clearinghouse_batteries.Db.{Allocation}
use clearinghouse_batteries.Db.Tx.Rules.{OfDb, tx_rules}
use clearinghouse_batteries.Store.Summary.Frame.{change_inventory-Keeps}
use clearinghouse_batteries.Store.Summary.{change_inventory}
use clearinghouse_batteries.Store.Ledger.{balance_currency}
use clearinghouse_batteries.Store.Ledger.Sound.{IsSound, transfer_currency-Sound}
use clearinghouse_batteries.Store.Manage.Grants.{Create, create_grant, fund_grant}
use clearinghouse_batteries.Store.Manage.Allocations.{
  create_allocation, fund_allocation, fund_currency,
}
use clearinghouse_batteries.Store.Manage.Keys.{
  KeyRecord, sha256, new_key_record, insert_key, create_key, create_key_for_grant,
}
use clearinghouse_batteries.Store.Manage.Status.{
  set_grant_status, return_unused, store_status, change_allocation_status, set_allocation_status,
  revoke_key, revoke_session, set_status,
}

pub inventory-Sound :
    (kind c old next : String) → Keeps (OfDb IsSound) (change_inventory kind c old next)
inventory-Sound = change_inventory-Keeps (λ f d h. h)

pub balance_currency-Sound : (a o c : String) → Keeps (OfDb IsSound) (balance_currency a o c)
unfolding balance_currency
balance_currency-Sound a o c = search tx_rules

pub ruleset sound_rules =
    (tx_rules, inventory-Sound, balance_currency-Sound, transfer_currency-Sound)

pub create_grant-Sound : (p : Create) → Keeps (OfDb IsSound) (create_grant p)
unfolding create_grant
create_grant-Sound p = search sound_rules depth 40 fits 4000

pub fund_grant-Sound : (id : String) (n : ℤ) (c : String) → Keeps (OfDb IsSound) (fund_grant id n c)
unfolding fund_grant
fund_grant-Sound id n c = search sound_rules depth 40 fits 4000

pub create_allocation-Sound : (p : Create) → Keeps (OfDb IsSound) (create_allocation p)
unfolding create_allocation
create_allocation-Sound p = search sound_rules depth 40 fits 4000

pub fund_allocation-Sound :
    (id value c : String) → Keeps (OfDb IsSound) (fund_allocation id value c)
unfolding fund_allocation
fund_allocation-Sound id value c = search sound_rules depth 60 fits 8000

pub fund_currency-Sound :
    (kind id value c : String) → Keeps (OfDb IsSound) (fund_currency kind id value c)
unfolding fund_currency
fund_currency-Sound kind id value c =
    search (sound_rules, fund_grant-Sound, fund_allocation-Sound) depth 20 fits 2000

insert_key-Sound : (a : String) (k : KeyRecord) → Keeps (OfDb IsSound) (insert_key a k)
unfolding insert_key
insert_key-Sound a k = search sound_rules depth 20 fits 2000

sha256-Sound : (text : String) → Keeps (OfDb IsSound) (sha256 text)
sha256-Sound text = record { at = λ w h. h }

new_key_record-Sound : (name : String) → Keeps (OfDb IsSound) (new_key_record name)
unfolding new_key_record
new_key_record-Sound name = search (sound_rules, sha256-Sound) depth 20 fits 2000

pub create_key-Sound : (a name : String) → Keeps (OfDb IsSound) (create_key a name)
unfolding create_key
create_key-Sound a name = search (sound_rules, new_key_record-Sound, insert_key-Sound)

pub create_key_for_grant-Sound : (p : Create) → Keeps (OfDb IsSound) (create_key_for_grant p)
unfolding create_key_for_grant
create_key_for_grant-Sound p = search (sound_rules, create_allocation-Sound, create_key-Sound)

set_grant_status-Sound : (id status : String) → Keeps (OfDb IsSound) (set_grant_status id status)
unfolding set_grant_status
set_grant_status-Sound id status = search sound_rules depth 20 fits 2000

return_unused-Sound : (a : Allocation) (bal : ℤ) → Keeps (OfDb IsSound) (return_unused a bal)
unfolding return_unused
return_unused-Sound a bal = search sound_rules

store_status-Sound : (id status : String) (n : ℤ) → Keeps (OfDb IsSound) (store_status id status n)
unfolding store_status
store_status-Sound id status n = search sound_rules

change_allocation_status-Sound :
    (a : Allocation) (status : String) → Keeps (OfDb IsSound) (change_allocation_status a status)
unfolding change_allocation_status
change_allocation_status-Sound a status =
    search (sound_rules, return_unused-Sound, store_status-Sound) depth 20 fits 2000

set_allocation_status-Sound :
    (id status : String) → Keeps (OfDb IsSound) (set_allocation_status id status)
unfolding set_allocation_status
set_allocation_status-Sound id status =
    search (sound_rules, change_allocation_status-Sound) depth 20 fits 2000

revoke_key-Sound : (id : String) → Keeps (OfDb IsSound) (revoke_key id)
unfolding revoke_key
revoke_key-Sound id = search sound_rules depth 20 fits 2000

revoke_session-Sound : (id : String) → Keeps (OfDb IsSound) (revoke_session id)
unfolding revoke_session
revoke_session-Sound id = search sound_rules depth 20 fits 2000

pub set_status-Sound : (kind id status : String) → Keeps (OfDb IsSound) (set_status kind id status)
unfolding set_status
set_status-Sound kind id status =
    search
      (
        sound_rules, set_grant_status-Sound, set_allocation_status-Sound, revoke_key-Sound,
        revoke_session-Sound,
      )
      depth 20 fits 2000
