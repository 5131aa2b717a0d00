-- ===== src/Api/Topic.antt =====
-- api/v1alpha1/topic_types.go
use bufstream_operator.Prelude.{ℕ, String, Bool, List}
use bufstream_operator.Prelude.Int.{ℤ}
use bufstream_operator.Api.Meta.{ObjectMeta, Condition}

-- `partitions` and `replication_factor` are int32; `config` is a map, listed in the order in which
-- the loop over it meets its entries.
pub record TopicSpec : Type 0 where
  pub topic_name : String
  pub partitions : ℤ
  pub replication_factor : ℤ
  pub config : List (String × String)
  pub cluster : String
  pub assume_ownership : Bool

pub record TopicStatus : Type 0 where
  pub observed_generation : ℕ
  pub topic_name : String
  pub partitions : ℤ
  pub replication_factor : ℤ
  pub conditions : List Condition

pub record Topic : Type 0 where
  pub metadata : ObjectMeta
  pub spec : TopicSpec
  pub status : TopicStatus
