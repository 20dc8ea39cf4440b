-- ===== src/Fixtures.antt =====
-- Data for the tests of internal/store: an environment with readable draws, and a fresh store.
use clearinghouse_batteries.Base.{String, concat, none, some, [], ◌∷◌, false}
use clearinghouse_batteries.Base.Int.{pos}
use clearinghouse_batteries.Base.Text.{sprint}
use clearinghouse_batteries.Db.{Env, World, Db}
use clearinghouse_batteries.Db.Fresh.{fresh_db}
use clearinghouse_batteries.Store.Manage.Grants.{Create}
use clearinghouse_batteries.Store.Idempotency.{Fields}
use clearinghouse_batteries.Store.Ingest.Classify.{Codec, no_ticket}

abbrev pub test_env : Env
test_env = record {
  uuid = λ n. concat "id-" (sprint (pos n));
  clock = λ n. pos n;
  secret = λ n. some (concat "secret-" (sprint (pos n)));
  sha256 = λ text. concat "hash of " text;
}

abbrev pub world_of : Db → World
world_of db = record { env = test_env; draws = 0; db = db }

abbrev pub fresh_world : World
fresh_world = world_of fresh_db

abbrev pub test_codec : Codec
test_codec = record { envelope = λ raw. none; ticket = λ payload. (no_ticket, false) }

abbrev pub test_encode : Fields → String
test_encode [] = ""
test_encode ((name, value) ∷ fields) = concat name (concat value (test_encode fields))

abbrev pub grant_form : Create
grant_form = record {
  name = "research";
  sponsor = "";
  beneficiary = "";
  grant_id = "";
  amount = "1000";
  currency = "eth";
  status = "active";
  metadata = "";
  starts = none;
  ends = none;
}
