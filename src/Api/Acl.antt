-- ===== src/Api/Acl.antt =====
-- api/v1alpha1/acl_types.go: the enumerations are strings, of which the validation of the CRD
-- admits the constants that the children list.
pub mod ResourceType
pub mod PatternType
pub mod Permission
pub mod Operation
use bufstream_operator.Prelude.{ℕ, String, List}
use bufstream_operator.Api.Meta.{ObjectMeta, Condition}

-- ACLResource; `kind` is its field Type.
pub record AclResource : Type 0 where
  pub kind : String
  pub name : String
  pub pattern_type : String

pub record AclSpec : Type 0 where
  pub cluster : String
  pub principal : String
  pub resource : AclResource
  pub permission : String
  pub operation : String
  pub host : String

pub record AclStatus : Type 0 where
  pub observed_generation : ℕ
  pub conditions : List Condition

pub record Acl : Type 0 where
  pub metadata : ObjectMeta
  pub spec : AclSpec
  pub status : AclStatus
