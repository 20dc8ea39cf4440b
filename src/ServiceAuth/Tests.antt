-- ===== src/ServiceAuth/Tests.antt =====
-- Tests for internal/serviceauth/registry.go: a manager of grants, and the accounting consumer.
use clearinghouse_batteries.Base.{
  String, concat, ◌≡◌, refl, Option, none, some, true, false, List, [], ◌∷◌,
}
use clearinghouse_batteries.Base.Exec.{Result, ok, err}
use clearinghouse_batteries.ServiceAuth.{Entry, Registry, Libraries, check, count, KafkaCredential}
use clearinghouse_batteries.ServiceAuth.Checked.{Authorized, check-Authorized}

abbrev hash : String → String
hash text = concat "hash of " text

abbrev libraries : Libraries
libraries = record { validate = λ e. ok tt; prepare = λ s. some s; sha256 = hash }

abbrev manager : Entry
manager = record {
  id = "manager";
  secret = "open sesame";
  management = some ("grants.*" ∷ "usage.read" ∷ []);
  webhook = none;
  kafka = none;
}

abbrev consumer : Entry
consumer = record {
  id = "consumer";
  secret = "kafka secret";
  management = none;
  webhook = none;
  kafka = some (record { username = "accounting"; allow = "read" ∷ []; accounting = true });
}

abbrev registry : Registry
registry = record {
  principals =
      ("hash of kafka secret", record { integration = "kafka"; allow = "read" ∷ [] })
      ∷ (
        "hash of open sesame",
        record { integration = "management"; allow = "grants.*" ∷ "usage.read" ∷ [] },
      )
      ∷ [];
  kafka =
      record {
        username = "accounting";
        password = "kafka secret";
        read = true;
        write = false;
        accounting = true;
      }
      ∷ [];
  counts = ("management", 1) ∷ ("kafka", 1) ∷ [];
}

passes :
    check hash (some registry) ("open sesame" ∷ []) "management" ("grants.fund" ∷ "usage.read" ∷ [])
    ≡ 200
unfolding check clearinghouse_batteries.Base.Text.one_of
passes = refl

refused : check hash (some registry) ("open sesame" ∷ []) "management" ("escrow.read" ∷ []) ≡ 403
unfolding check clearinghouse_batteries.Base.Text.one_of
refused = refl

check-Authorized_example :
    (r : Registry) × (some registry ≡ some r)
    × Authorized hash r ("open sesame" ∷ []) "management" ("grants.fund" ∷ "usage.read" ∷ [])
check-Authorized_example =
    check-Authorized hash "management" ("grants.fund" ∷ "usage.read" ∷ []) (some registry)
      ("open sesame" ∷ []) passes
