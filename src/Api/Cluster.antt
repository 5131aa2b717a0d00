-- ===== src/Api/Cluster.antt =====
-- api/v1alpha1/cluster_types.go
use bufstream_operator.Prelude.{ℕ, String, Option, List}
use bufstream_operator.Api.Meta.{ObjectMeta, Condition}

pub record AdminCredentialsReference : Type 0 where
  pub name : String
  pub namespace : String

pub record ClusterSpec : Type 0 where
  pub bootstrap_servers : String
  pub admin_credentials_ref : Option AdminCredentialsReference

pub record ClusterStatus : Type 0 where
  pub observed_generation : ℕ
  pub conditions : List Condition

pub record Cluster : Type 0 where
  pub metadata : ObjectMeta
  pub spec : ClusterSpec
  pub status : ClusterStatus
