-- ===== src/Kafka/Security.antt =====
-- internal/kafka/security.go: what the credentials allow at the broker, and the consumer's own.
-- The mechanisms of SASL and the connection are calls of other packages.
use clearinghouse_batteries.Base.{
  String, Option, none, some, Bool, ◌||◌, ◌==◌, if◌then◌else◌, List, [], ◌∷◌, ◌++◌,
}
use clearinghouse_batteries.Base.Lists.{upsert}
use clearinghouse_batteries.ServiceAuth.{KafkaCredential}
use clearinghouse_batteries.Base.Exec.{Result, ok, err, failure}

pub data TopicAction : Type 0 where
  topic_read : TopicAction
  topic_write : TopicAction

pub record TopicGrant : Type 0 where
  pub user : String
  pub topic : String
  pub action : TopicAction

-- `users[user.Username] = user.Password`
unfoldable pub set_user : String → String → List (String × String) → List (String × String)
set_user name password = upsert (λ row. row.0 == name) (λ row. (row.0, password)) (name, password)

unfoldable pub grants_of : String → KafkaCredential → List TopicGrant
grants_of topic user =
    (if user.read
      then record { user = user.username; topic = topic; action = topic_read } ∷ []
      else [])
    ++ (if user.write
        then record { user = user.username; topic = topic; action = topic_write } ∷ []
        else [])

unfoldable pub broker_users : List KafkaCredential → List (String × String) → List (String × String)
unfolding set_user
broker_users [] users = users
broker_users (user ∷ rest) users = broker_users rest (set_user user.username user.password users)

unfoldable pub broker_grants : String → List KafkaCredential → List TopicGrant
unfolding grants_of
broker_grants topic [] = []
broker_grants topic (user ∷ rest) = grants_of topic user ++ broker_grants topic rest

unfoldable pub broker_config :
    String → List KafkaCredential → List (String × String) × List TopicGrant
unfolding broker_users broker_grants
broker_config topic credentials = (broker_users credentials [], broker_grants topic credentials)

-- The credential of the dialer, if there is one; SCRAM's own check of it is a parameter.
unfoldable pub new_dialer :
    (String → String → Bool) → Option KafkaCredential → Result (Option KafkaCredential)
new_dialer is_valid none = ok none
new_dialer is_valid (some credential) =
    if (credential.username == "") || (credential.password == "")
    then err (failure "kafka accounting username and password are required")
    else if is_valid credential.username credential.password
    then ok (some credential)
    else err (failure "invalid Kafka accounting credentials")
