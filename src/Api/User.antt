-- ===== src/Api/User.antt =====
-- api/v1alpha1/user_types.go
use bufstream_operator.Prelude.{ℕ, String, List}
use bufstream_operator.Prelude.Int.{ℤ}
use bufstream_operator.Api.Meta.{ObjectMeta, Condition}

abbrev pub ScramMechanism : Type 0
ScramMechanism = String

abbrev pub scram_sha256 : ScramMechanism
scram_sha256 = "SCRAM-SHA-256"

abbrev pub scram_sha512 : ScramMechanism
scram_sha512 = "SCRAM-SHA-512"

pub record SecretReference : Type 0 where
  pub name : String
  pub key : String

pub record UserSpec : Type 0 where
  pub cluster : String
  pub username : String
  pub mechanism : ScramMechanism
  pub secret_ref : SecretReference
  pub iterations : ℤ

pub record UserStatus : Type 0 where
  pub observed_generation : ℕ
  pub username : String
  pub mechanism : ScramMechanism
  pub conditions : List Condition

pub record User : Type 0 where
  pub metadata : ObjectMeta
  pub spec : UserSpec
  pub status : UserStatus
