-- ===== src/Store/Manage/Keys.antt =====
-- internal/store/manage.go: API keys.
use clearinghouse_batteries.Base.{String, concat, none, ◌==◌, [], ◌∷◌, ◌++◌}
use clearinghouse_batteries.Base.Exec.{ok, state_conflict, pure, raise_if, ◌>>=◌, ◌>>◌}
use clearinghouse_batteries.Db.Tx.{Tx, fresh_id, now, random, execute}
use clearinghouse_batteries.Store.Manage.Grants.{Create}
use clearinghouse_batteries.Store.Manage.Allocations.{find_allocation, create_allocation}

pub record KeyRecord : Type 0 where
  pub id : String
  pub name : String
  pub prefix : String
  pub key : String
  pub hash : String

abbrev pub sha256 : String → Tx String
sha256 text w = (ok (w.env.sha256 text), w)

unfoldable pub new_key_record : String → Tx KeyRecord
new_key_record name = do
  id ← fresh_id
  secret ← random
  let prefix = concat "lpg_" id
  let key = concat (concat prefix "_") secret
  hash ← sha256 key
  pure (record { id = id; name = name; prefix = prefix; key = key; hash = hash })

unfoldable pub insert_key : String → KeyRecord → Tx (Unit {0})
insert_key allocation key_record = do
  a ← find_allocation allocation
  raise_if (a.status == "revoked") (state_conflict "allocation is revoked")
  at ← now
  execute λ db. record db {
    api_keys =
        db.api_keys
        ++ record {
          id = key_record.id;
          allocation_id = allocation;
          name = key_record.name;
          prefix = key_record.prefix;
          secret_hash = key_record.hash;
          created_at_ms = at;
          last_used_at_ms = none;
          revoked_at_ms = none;
        }
          ∷ [];
  }

unfoldable pub create_key : String → String → Tx (String × String)
unfolding new_key_record insert_key
create_key allocation name = do
  key_record ← new_key_record name
  insert_key allocation key_record
  pure (key_record.id, key_record.key)

unfoldable pub create_key_for_grant : Create → Tx (String × String × String)
unfolding create_key
create_key_for_grant p = do
  allocation ← create_allocation p
  made ← create_key allocation p.name
  pure (allocation, made.0, made.1)
