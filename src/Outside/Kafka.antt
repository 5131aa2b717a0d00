-- ===== src/Outside/Kafka.antt =====
-- The values that the operator exchanges with the Kafka clients kgo and kadm (franz-go).
use bufstream_operator.Prelude.{ℕ, String, Option, List}
use bufstream_operator.Prelude.Int.{ℤ}
use bufstream_operator.Api.Meta.{Fault}

-- A *kgo.Client; the kadm.Client made from it is known by the same number.
abbrev pub Handle : Type 0
Handle = ℕ

-- kadm.ScramMechanism
pub data KadmMechanism : Type 0 where
  kadm_sha256 kadm_sha512 : KadmMechanism

-- kgo.Opt: the options with which the operator opens a client.
pub data Opt : Type 0 where
  seed_brokers : String → Opt
  request_timeout_overhead : ℕ → Opt
  dev_mode_dialer : Opt
  sasl : KadmMechanism → String → String → Opt

-- One entry of a response that has a name (the topic's, the user's) and an error.
pub record Response : Type 0 where
  pub name : String
  pub fault : Option Fault

-- kadm.TopicDetail: the map of the partitions, from a partition's number to its replicas, as the
-- list of its entries.
pub record TopicDetail : Type 0 where
  pub partitions : List (ℕ × List ℕ)

pub record DeleteScram : Type 0 where
  pub user : String
  pub mechanism : KadmMechanism

pub record UpsertScram : Type 0 where
  pub user : String
  pub password : String
  pub mechanism : KadmMechanism
  pub iterations : ℤ

-- kadm.DescribedUserSCRAM: the user, and the mechanisms for which it has credentials.
pub record ScramDescription : Type 0 where
  pub user : String
  pub cred_infos : List KadmMechanism

-- kadm.ACLOperation; `op_unset` is the zero value of a variable that nothing is assigned to.
pub data KadmOperation : Type 0 where
  op_unset op_all op_read op_write op_create op_delete op_alter op_describe : KadmOperation
  op_cluster_action op_describe_configs op_alter_configs op_idempotent_write : KadmOperation

pub data KadmPattern : Type 0 where
  pattern_literal pattern_prefixed : KadmPattern

-- A kadm.ACLBuilder is the sequence of calls that fill it, the first call first.
pub data AclStep : Type 0 where
  allow : String → AclStep
  allow_hosts : String → AclStep
  deny : String → AclStep
  deny_hosts : String → AclStep
  resource_pattern_type : KadmPattern → AclStep
  topics : String → AclStep
  groups : String → AclStep
  clusters : AclStep
  transactional_ids : String → AclStep
  operations : KadmOperation → AclStep

-- kadm.DescribeACLsResult: the answer to one filter, the number of ACLs that it matched.
pub record AclDescription : Type 0 where
  pub described : ℕ
  pub fault : Option Fault
