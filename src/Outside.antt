-- ===== src/Outside.antt =====
-- The code that the operator calls and that is not part of it: the Kubernetes API client and the
-- helper functions of apimachinery and controller-runtime, the Kafka clients kgo and kadm, the
-- clock and the environment. It is a record of functions, the parameter `out` of every definition
-- that uses them. What is called gets the history of the calls before it, and may answer as it
-- likes: so each theorem covers every behaviour of the API server, of the brokers and of other
-- writers.
mod Kafka
pub mod Action
pub mod Calls
pub mod Hoare
pub mod Laws
pub mod Progress
pub use Kafka.*
use bufstream_operator.Prelude.{ℕ, String, ◌≡◌, Bool, true, Option, none, List, ⊤, Result}
use bufstream_operator.Prelude.Int.{ℤ}
use bufstream_operator.Api.Meta.{Time, NamespacedName, Fault, Message, Condition}
use bufstream_operator.Api.Topic.{Topic}
use bufstream_operator.Api.User.{User}
use bufstream_operator.Api.Acl.{Acl}
use bufstream_operator.Api.Cluster.{Cluster}

-- An object that a controller writes back.
pub data Object : Type 0 where
  cluster : Cluster → Object
  topic : Topic → Object
  user : User → Object
  acl : Acl → Object

-- The kind of the object that an event is about.
pub data Kind : Type 0 where
  cluster_kind topic_kind user_kind acl_kind : Kind

-- corev1.Secret, of which the controllers read the field Data, a map.
abbrev pub Secret : Type 0
Secret = List (String × String)

-- One call with its arguments and, where it matters later, its answer.
pub data Call : Type 0 where
  fetched : Kind → NamespacedName → Call
  secret_fetched : NamespacedName → Call
  updated : Object → Result Fault ⊤ → Call
  status_updated : Object → Result Fault ⊤ → Call
  event : Kind → NamespacedName → String → String → Message → Call
  clock_read : Call
  environment_read : String → Call
  client_created : List Opt → Result Fault Handle → Call
  pinged : Handle → ℕ → Result Fault ⊤ → Call
  kgo_closed : Handle → Call
  admin_closed : Handle → Call
  topics_listed : Handle → List String → Result Fault (List (String × TopicDetail)) → Call
  topics_created :
      Handle → ℤ → ℤ → List (String × String) → String → Result Fault (List Response) → Call
  partitions_created : Handle → ℤ → String → Result Fault (List Response) → Call
  configs_altered : Handle → List (String × String) → String → Result Fault (List Response) → Call
  topics_deleted : Handle → String → Result Fault (List Response) → Call
  scrams_altered :
      Handle → List DeleteScram → List UpsertScram → Result Fault (List Response) → Call
  scrams_described : Handle → String → Call
  acls_created : Handle → List AclStep → Result Fault (List (Option Fault)) → Call
  acls_deleted : Handle → List AclStep → Result Fault (List (Option Fault)) → Call
  acls_described : Handle → List AclStep → Call

-- The calls made so far, the latest first.
abbrev pub Trace : Type 0
Trace = List Call

pub record Outside : Type 0 where
  -- apimachinery and controller-runtime: functions of their arguments
  pub is_not_found : Fault → Bool
  pub is_zero : Option Time → Bool
  pub contains_finalizer : List String → String → Bool
  pub add_finalizer : List String → String → List String
  pub remove_finalizer : List String → String → List String
  pub find_status_condition : List Condition → String → Option Condition
  pub set_status_condition : List Condition → Condition → List Condition
  -- the API server
  pub get_cluster : Trace → NamespacedName → Result Fault Cluster
  pub get_topic : Trace → NamespacedName → Result Fault Topic
  pub get_user : Trace → NamespacedName → Result Fault User
  pub get_acl : Trace → NamespacedName → Result Fault Acl
  pub get_secret : Trace → NamespacedName → Result Fault Secret
  pub update : Trace → Object → Result Fault ⊤
  pub update_status : Trace → Object → Result Fault ⊤
  -- the process
  pub now : Trace → Time
  pub getenv : Trace → String → String
  -- kgo and kadm; what is a map there is listed in the order in which a loop meets it
  pub new_kgo_client : Trace → List Opt → Result Fault Handle
  pub ping : Trace → Handle → ℕ → Result Fault ⊤
  pub list_topics : Trace → Handle → List String → Result Fault (List (String × TopicDetail))
  pub create_topics :
      Trace → Handle → ℤ → ℤ → List (String × String) → String → Result Fault (List Response)
  pub create_partitions : Trace → Handle → ℤ → String → Result Fault (List Response)
  pub alter_topic_configs :
      Trace → Handle → List (String × String) → String → Result Fault (List Response)
  pub delete_topics : Trace → Handle → String → Result Fault (List Response)
  pub alter_user_scrams :
      Trace → Handle → List DeleteScram → List UpsertScram → Result Fault (List Response)
  pub describe_user_scrams : Trace → Handle → String → Result Fault (List ScramDescription)
  pub create_acls : Trace → Handle → List AclStep → Result Fault (List (Option Fault))
  pub delete_acls : Trace → Handle → List AclStep → Result Fault (List (Option Fault))
  pub describe_acls : Trace → Handle → List AclStep → Result Fault (List AclDescription)
