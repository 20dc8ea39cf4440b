-- ===== src/Store/Calls/Tests.antt =====
-- Tests for internal/store: a grant, an allocation of it, and funds for the allocation.
use clearinghouse_batteries.Base.{refl, List, [], ◌∷◌}
use clearinghouse_batteries.Fixtures.{test_encode, test_codec, grant_form, fresh_world}
use clearinghouse_batteries.Store.Ledger.{balance_of}
use clearinghouse_batteries.Store.Ledger.Sound.{Sound}
use clearinghouse_batteries.Store.Manage.Grants.{Create}
use clearinghouse_batteries.Store.Calls.{Call, creating, funding, after_calls}
use clearinghouse_batteries.Store.Calls.Sound.{after_calls-Sound}

abbrev allocation_form : Create
allocation_form = record grant_form { grant_id = "id-0"; amount = "400"; status = "" }

-- The last call names no allocation, and fails.
abbrev calls : List Call
calls =
    creating "grant" grant_form
    ∷ creating "allocation" allocation_form
    ∷ funding "allocation" "id-6" "100" "eth"
    ∷ funding "allocation" "id-1" "100" "eth"
    ∷ []

after_calls-Sound_example : Sound (after_calls test_encode test_codec calls fresh_world).db.ledger
unfolding balance_of
after_calls-Sound_example =
    after_calls-Sound test_encode test_codec calls fresh_world
      (record { projected = λ a o c. refl; by_transaction = λ t c. refl; totals = λ c. refl })
