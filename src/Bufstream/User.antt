-- ===== src/Bufstream/User.antt =====
-- internal/bufstream/user.go: the operations on SCRAM credentials.
pub mod Lookup
use bufstream_operator.Prelude.{
  String, List, [], ◌∷◌, ⊤, Result, ok, err, str_eq, Bool, true, false, ◌==◌, ◌&&◌, if◌then◌else◌,
}
use bufstream_operator.Prelude.Int.{ℤ, pos, ◌==ℤ◌}
use bufstream_operator.Api.Meta.{Fault, Error, foreign, wrapped, lit, shown}
use bufstream_operator.Outside.{
  Outside, Response, KadmMechanism, kadm_sha256, kadm_sha512, ScramDescription,
}
use bufstream_operator.Outside.Action.{Action, pure, ◌>>=◌, on_error}
use bufstream_operator.Outside.Calls.{alter_user_scrams, describe_user_scrams}
use bufstream_operator.Bufstream.Client.{Client, ScramMechanism, scram_sha256, scram_sha512}
use bufstream_operator.Bufstream.Topic.{on_fault, first_fault}

pub record UserCredentials : Type 0 where
  pub username : String
  pub password : String
  pub mechanism : ScramMechanism
  pub iterations : ℤ

-- `if iterations == 0 { iterations = 4096 }`
unfoldable pub default_iterations : ℤ → ℤ
default_iterations n = if n ==ℤ pos 0 then pos 4096 else n

unfoldable pub kadm_mechanism : ScramMechanism → KadmMechanism
kadm_mechanism m =
    if m == scram_sha256
    then kadm_sha256
    else if m == scram_sha512
    then kadm_sha512
    else kadm_sha512

-- The test of `DeleteUserCredentials`, and of `DeleteACL`, on an error's text.
unfoldable pub is_absent : Fault → Bool
is_absent e = str_eq e.text "RESOURCE_NOT_FOUND"

-- The loop of `DeleteUserCredentials`.
unfoldable pub delete_user_fault : List Response → Result Error ⊤
delete_user_fault [] = ok tt
delete_user_fault (r ∷ rs) =
    let rest = delete_user_fault rs in
    on_fault r.fault rest (λ e.
      if is_absent e
      then rest
      else err (
          wrapped (lit "failed to delete credentials for user " ∷ shown r.name ∷ lit ": " ∷ [])
            (foreign e)))

-- The loop of `UserExists`.
unfoldable pub has_credentials : String → List ScramDescription → Bool
has_credentials username [] = false
has_credentials username (r ∷ rs) =
    if str_eq r.user username && (elim r.cred_infos [ [] ↦ false | _ ∷ _ ↦ true ])
    then true
    else has_credentials username rs

module _ (out : Outside) where
  unfoldable pub upsert_user_credentials : Client → UserCredentials → Action (Result Error ⊤)
  upsert_user_credentials c creds = do
    resp ← alter_user_scrams out c.admin_client [] (
        record {
          user = creds.username;
          password = creds.password;
          mechanism = kadm_mechanism creds.mechanism;
          iterations = default_iterations creds.iterations;
        }
        ∷ [])
    on_error resp
        (λ e. pure (err (wrapped (lit "failed to upsert user credentials: " ∷ []) (foreign e))))
        λ rs. pure (first_fault "failed to upsert credentials for user " rs)

  unfoldable pub delete_user_credentials :
      Client → String → ScramMechanism → Action (Result Error ⊤)
  delete_user_credentials c username mechanism = do
    resp ←
        alter_user_scrams out c.admin_client
          (record { user = username; mechanism = kadm_mechanism mechanism } ∷ []) []
    on_error resp
        (λ e. pure (err (wrapped (lit "failed to delete user credentials: " ∷ []) (foreign e))))
        λ rs. pure (delete_user_fault rs)

  unfoldable pub user_exists : Client → String → Action (Result Error Bool)
  user_exists c username = do
    resp ← describe_user_scrams out c.admin_client username
    on_error resp
        (λ e. pure (err (wrapped (lit "failed to describe user credentials: " ∷ []) (foreign e))))
        λ rs. pure (ok (has_credentials username rs))
