-- ===== src/Controller/User/Base.antt =====
-- internal/controller/user_controller.go: the names, the events and the conditions.
use bufstream_operator.Prelude.{
  String, not, none, some, ok, err, [], ◌∷◌, ⊤, Result, str_eq, if◌then◌else◌,
}
use bufstream_operator.Api.Meta.{
  Error, formatted, lit, quoted, Message, plain, about, condition_true, condition_false,
}
use bufstream_operator.Api.User
use bufstream_operator.Api.User.{User}
use bufstream_operator.Outside.{Outside, Object, Kind, Secret}
use bufstream_operator.Outside.Action.{Action, pure, ◌>>=◌, ◌>>◌}
use bufstream_operator.Outside.Calls.{update_status, record_event}
use bufstream_operator.Bufstream.Client.{ScramMechanism, scram_sha256, scram_sha512}
use bufstream_operator.Controller.Common.{
  Outcome, after_error, name_of, new_condition, type_ready, type_degraded, requeue_degraded,
}
use bufstream_operator.Controller.Helpers.{secret_entry}

abbrev pub user_finalizer : String
user_finalizer = "bufstream.buf.build/user-finalizer"

-- getUsername
unfoldable pub username : User → String
username user =
    if not (str_eq user.spec.username "") then user.spec.username else user.metadata.name

-- getMechanism
unfoldable pub mechanism : User → ScramMechanism
mechanism user =
    if str_eq user.spec.mechanism User.scram_sha256
    then scram_sha256
    else if str_eq user.spec.mechanism User.scram_sha512
    then scram_sha512
    else scram_sha512

-- The key of the password in the secret.
unfoldable pub password_key : User → String
password_key user =
    if str_eq user.spec.secret_ref.key "" then "password" else user.spec.secret_ref.key

-- `getPassword` from the secret on.
unfoldable pub password_in : User → Secret → Result Error String
unfolding password_key secret_entry
password_in user secret = elim (secret_entry (password_key user) secret) [
  | none ↦ err (
      formatted (
        lit "secret "
        ∷ quoted user.spec.secret_ref.name
        ∷ lit " does not contain key "
        ∷ quoted (password_key user)
        ∷ []))
  | some password ↦ ok password
]

-- r.Recorder.Event(user, …)
unfoldable pub emit : User → String → String → Message → Action ⊤
emit user severity reason message =
    record_event Kind.user_kind (name_of user.metadata) severity reason message

-- The end of each failing branch of `reconcileDelete`.
unfoldable pub deletion_failed : User → String → Error → Action Outcome
deletion_failed user prefix e = do
  emit user "Warning" "DeletionFailed" (about (lit prefix ∷ []) e)
  pure (after_error requeue_degraded e)

module _ (out : Outside) where
  unfoldable pub set_condition : User → String → String → String → Message → Action User
  set_condition user kind status reason message = do
    condition ← new_condition out user.metadata kind status reason message
    pure (record user {
      status = record (user.status) {
        conditions = out.set_status_condition user.status.conditions condition;
      };
    })

  -- The start of each failing branch of `reconcileUser`: the two conditions and the status, an
  -- error of whose update is only logged.
  unfoldable pub degrade : User → String → Message → String → Action ⊤
  degrade user reason message brief = do
    degraded ← set_condition user type_degraded condition_true reason message
    user' ← set_condition degraded type_ready condition_false reason (plain brief)
    update_status out (Object.user user')
    pure tt
