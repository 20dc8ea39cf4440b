-- ===== src/ServiceAuth.antt =====
-- internal/serviceauth/registry.go: the credentials of services, and the check of their
-- permissions. The loading of the file and its declared bounds (boa), SASLprep and SHA-256 are
-- parameters.
pub mod Checked
pub mod Tests
use Prim.Native.Char.{code}
use clearinghouse_batteries.Base.{
  ℕ, suc, ◌+◌, String, concat, Option, none, some, Bool, true, false, not, ◌&&◌, ◌||◌, ◌==◌,
  if◌then◌else◌, List, [], ◌∷◌, ◌++◌, nat_eq, ltb,
}
use clearinghouse_batteries.Base.Lists.{find, any, upsert}
use clearinghouse_batteries.Base.Text.{bytes, one_of}
use clearinghouse_batteries.Base.Exec.{
  Error, Result, ok, err, failure, Exec, pure, raise, raise_if, lift, gets, modify, for_each, ◌>>=◌,
  ◌>>◌,
}

pub record KafkaCredential : Type 0 where
  pub username : String
  pub password : String
  pub read : Bool
  pub write : Bool
  pub accounting : Bool

-- The `Kafka` part of an entry.
pub record KafkaAccess : Type 0 where
  pub username : String
  pub allow : List String
  pub accounting : Bool

-- `management` is its `Allow`, `webhook` its `Authorize`.
pub record Entry : Type 0 where
  pub id : String
  pub secret : String
  pub management : Option (List String)
  pub webhook : Option Bool
  pub kafka : Option KafkaAccess

pub record Principal : Type 0 where
  pub integration : String
  pub allow : List String

-- Maps are lists with one row for each key.
pub record Registry : Type 0 where
  pub principals : List (String × Principal)
  pub kafka : List KafkaCredential
  pub counts : List (String × ℕ)

abbrev pub empty_registry : Registry
empty_registry = record { principals = []; kafka = []; counts = [] }

-- The local variables of `add`, and the registry that it fills.
pub record Loading : Type 0 where
  pub ids : List String
  pub usernames : List String
  pub registry : Registry

pub record Libraries : Type 0 where
  pub validate : Entry → Result (Unit {0})
  pub prepare : String → Option String
  pub sha256 : String → String

abbrev pub is_control : ℕ → Bool
is_control c = ltb c b' ' && not (nat_eq c 9) || nat_eq c 127

abbrev pub is_blank_byte : ℕ → Bool
is_blank_byte c = nat_eq c b' ' || nat_eq c 9

unfoldable pub ends_blank : List ℕ → Bool
ends_blank [] = false
ends_blank (c ∷ []) = is_blank_byte c
ends_blank (c ∷ d ∷ s) = ends_blank (d ∷ s)

abbrev pub starts_blank : List ℕ → Bool
starts_blank [] = false
starts_blank (c ∷ s) = is_blank_byte c

-- `strings.Trim(s, " \t") != s`, or a control character other than a tab.
unfoldable pub unfit_header : String → Bool
unfolding ends_blank
unfit_header secret =
    starts_blank (bytes secret) || ends_blank (bytes secret) || any is_control (bytes secret)

abbrev pub no_kafka : Option KafkaAccess → Bool
no_kafka none = true
no_kafka (some k) = false

abbrev pub has_hash : String → String × Principal → Bool
has_hash hash row = row.0 == hash

abbrev pub Load : Type 0 → Type 0
Load A = Exec Loading A

abbrev pub usable : Option String → List String → Bool
usable none usernames = false
usable (some name) usernames = not (name == "") && not (name == "*") && not (one_of name usernames)

abbrev pub prepared : Option String → String
prepared none = ""
prepared (some name) = name

abbrev pub is_prepared : Option String → Bool
is_prepared none = false
is_prepared (some name) = true

abbrev pub credential_of : Entry → KafkaAccess → KafkaCredential
credential_of item access = record {
  username = access.username;
  password = item.secret;
  read = one_of "read" access.allow;
  write = one_of "write" access.allow;
  accounting = access.accounting;
}

-- `r.principals[hash] = p; r.counts[p.integration]++`
abbrev pub registered : String → Principal → Registry → Registry
registered hash p r = record r {
  principals = (hash, p) ∷ r.principals;
  counts =
      upsert (λ row. row.0 == p.integration) (λ row. (row.0, row.1 + 1)) (p.integration, 1)
        r.counts;
}

abbrev pub loaded : Result (Unit {0}) × Loading → Result Registry
loaded (ok u, s) = ok s.registry
loaded (err e, s) = err e

module _ (lib : Libraries) where
  -- The identity is compared as SCRAM normalizes it, and kept as it is written.
  unfoldable pub add_kafka : Entry → KafkaAccess → Load Principal
  add_kafka item access = do
    usernames ← gets (λ s. s.usernames)
    let username = lib.prepare access.username
    raise_if (not (usable username usernames))
        (failure (concat "invalid or duplicate Kafka username for " item.id))
    raise_if (not (is_prepared (lib.prepare item.secret)))
        (failure (concat "invalid Kafka secret for " item.id))
    modify (λ s. record s { usernames = prepared username ∷ s.usernames })
    raise_if (access.accounting && not (one_of "read" access.allow))
        (failure (concat "kafka accounting credential requires read: " item.id))
    modify λ s. record s {
      registry = record (s.registry) { kafka = s.registry.kafka ++ credential_of item access ∷ [] };
    }
    pure (record { integration = "kafka"; allow = access.allow })

  abbrev pub integration_of :
      Entry → Option (List String) → Option Bool → Option KafkaAccess → Load Principal
  integration_of item (some allow) none none =
      pure (record { integration = "management"; allow = allow })
  integration_of item none (some authorize) none =
      pure (record { integration = "webhook"; allow = "authorize" ∷ [] })
  integration_of item none none (some access) = add_kafka item access
  integration_of item management webhook kafka =
      raise (failure (concat "auth credential must configure exactly one integration: " item.id))

  unfoldable pub add_entry : Entry → Load (Unit {0})
  unfolding add_kafka
  add_entry item = do
    lift (lib.validate item)
    raise_if (no_kafka item.kafka && unfit_header item.secret)
        (failure "invalid auth credential secret")
    ids ← gets (λ s. s.ids)
    raise_if (one_of item.id ids) (failure (concat "duplicate auth credential id " item.id))
    modify (λ s. record s { ids = item.id ∷ s.ids })
    let hash = lib.sha256 item.secret
    taken ← gets (λ s. any (has_hash hash) s.registry.principals)
    raise_if taken (failure "duplicate auth credential secret")
    p ← integration_of item item.management item.webhook item.kafka
    modify (λ s. record s { registry = registered hash p s.registry })

  -- `add` on the empty registry that `InitCtx` makes.
  unfoldable pub add : List Entry → Load (Unit {0})
  unfolding add_entry
  add entries = for_each entries add_entry

  unfoldable pub load : List Entry → Result Registry
  unfolding add
  load entries =
      loaded (add entries (record { ids = []; usernames = []; registry = empty_registry }))

abbrev count_of : Option (String × ℕ) → ℕ
count_of none = 0
count_of (some row) = row.1

-- A nil registry counts none.
unfoldable pub count : Option Registry → String → ℕ
count none integration = 0
count (some r) integration = count_of (find (λ row. row.0 == integration) r.counts)

unfoldable pub kafka_credentials : Option Registry → List KafkaCredential
kafka_credentials none = []
kafka_credentials (some r) = r.kafka

-- `strings.Cut(permission, ".")`, the part before the first point if there is one.
abbrev pub cut_step : ℕ → String → Option String → Option String
cut_step c text none = none
cut_step c text (some resource) = some (concat text resource)

unfoldable pub cut_resource : String → Option String
cut_resource String.[] = none
cut_resource (String.◌∷◌ c s) =
    let rest = cut_step (code c) (String.◌∷◌ c String.[]) (cut_resource s) in
    if nat_eq (code c) b'.' then some String.[] else rest

abbrev pub wildcard : List String → Option String → Bool
wildcard allow none = false
wildcard allow (some resource) = one_of (concat resource ".*") allow

unfoldable pub permits : List String → String → Bool
unfolding cut_resource
permits allow permission = one_of permission allow || wildcard allow (cut_resource permission)

unfoldable pub permits_all : List String → List String → Bool
unfolding permits
permits_all allow [] = true
permits_all allow (permission ∷ permissions) =
    permits allow permission && permits_all allow permissions

abbrev pub ok_status : ℕ
ok_status = 200

abbrev pub unauthorized : ℕ
unauthorized = 401

abbrev pub forbidden : ℕ
forbidden = 403

abbrev pub principal_of : Option (String × Principal) → Option Principal
principal_of none = none
principal_of (some row) = some (row.1)

abbrev pub check_principal : Option Principal → String → List String → ℕ
check_principal none integration permissions = unauthorized
check_principal (some p) integration permissions =
    if not (p.integration == integration)
    then unauthorized
    else if permits_all p.allow permissions
    then ok_status
    else forbidden

-- The values of the header are those of the request; there must be exactly one.
unfoldable pub check_values : (String → String) → Registry → List String → String → List String → ℕ
unfolding permits_all
check_values sha256 r (value ∷ []) integration permissions =
    check_principal (principal_of (find (has_hash (sha256 value)) r.principals)) integration
      permissions
check_values sha256 r values integration permissions = unauthorized

unfoldable pub check : (String → String) → Option Registry → List String → String → List String → ℕ
unfolding check_values
check sha256 none values integration permissions = unauthorized
check sha256 (some r) values integration permissions =
    check_values sha256 r values integration permissions

-- `Require` writes the status of a refusal.
unfoldable pub require :
    (String → String) → Option Registry → List String → String → List String → Bool
unfolding check
require sha256 r values integration permissions =
    nat_eq (check sha256 r values integration permissions) ok_status
