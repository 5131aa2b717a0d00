-- ===== src/Controller/User/Apply.antt =====
-- internal/controller/user_controller.go: `reconcileUser`, for a resource that is not being
-- deleted. A deferred `bsClient.Close()` is the call of `close` after the rest of the function has
-- its outcome.
use bufstream_operator.Prelude.{
  String, Bool, not, ◌&&◌, err, [], ◌∷◌, Option, Result, str_eq, ◌==◌, if◌then◌else◌,
}
use bufstream_operator.Api.Meta.{
  Error, foreign, wrapped, lit, quoted, shown, plain, text, about, condition_true, condition_false,
}
use bufstream_operator.Api.Cluster.{Cluster}
use bufstream_operator.Api.User
use bufstream_operator.Api.User.{User}
use bufstream_operator.Outside.{Outside, Object}
use bufstream_operator.Outside.Action.{Action, pure, ◌>>=◌, ◌>>◌, on_error}
use bufstream_operator.Outside.Calls.{fetch_secret, update_status}
use bufstream_operator.Bufstream.Client.{Client, SaslConfig, new_client, close}
use bufstream_operator.Bufstream.User.{default_iterations, upsert_user_credentials}
use bufstream_operator.Controller.Common.{
  Outcome, after, after_error, failed, type_ready, type_degraded, type_progressing, requeue_healthy,
  requeue_degraded, cluster_not_ready_requeue,
}
use bufstream_operator.Controller.Helpers.{
  get_cluster, is_cluster_ready, is_true, get_admin_credentials,
}
use bufstream_operator.Controller.User.Base.{
  username, mechanism, password_in, emit, set_condition, degrade,
}

module _ (out : Outside) where
  unfoldable pub get_password : User → Action (Result Error String)
  get_password user = do
    fetched ←
        fetch_secret out
          (record { name = user.spec.secret_ref.name; namespace = user.metadata.namespace })
    on_error fetched
        (λ e. pure (
          err (
            wrapped (lit "failed to get Secret " ∷ quoted user.spec.secret_ref.name ∷ lit ": " ∷ [])
              (foreign e))))
        λ secret. pure (password_in user secret)

  -- From `// Update status` to the end of `reconcileUser`.
  unfoldable pub finish : User → String → Action Outcome
  finish user name = do
    let observed = record user {
      status = record (user.status) {
        observed_generation = user.metadata.generation;
        username = name;
        mechanism =
            if str_eq user.spec.mechanism "" then User.scram_sha512 else user.spec.mechanism;
      };
    }
    healthy ←
        set_condition out observed type_degraded condition_false "Healthy" (plain "User is healthy")
    reconciled ←
        set_condition out healthy type_progressing condition_false "Reconciled"
          (plain "User reconciled successfully")
    ready ← set_condition out reconciled type_ready condition_true "Ready" (plain "User is ready")
    updated ← update_status out (Object.user ready)
    on_error updated (λ e. pure (failed (foreign e))) λ _. pure (after requeue_healthy)

  -- `reconcileUser` over an open client.
  unfoldable pub reconcile_connected : Client → User → String → Action Outcome
  reconcile_connected client user password = do
    upserted ← upsert_user_credentials out client (record {
      username = username user;
      password = password;
      mechanism = mechanism user;
      iterations = default_iterations user.spec.iterations;
    })
    on_error upserted
        (λ e. do
          degrade out user "UpsertFailed" (about (lit "Failed to upsert user: " ∷ []) e)
              "User upsert failed"
          emit user "Warning" "UpsertFailed" (about (lit "Failed to upsert user: " ∷ []) e)
          pure (after_error requeue_degraded e))
        λ _. do
          emit user "Normal" "UserUpserted"
              (text (lit "User " ∷ shown (username user) ∷ lit " upserted" ∷ []))
          finish user (username user)

  -- `reconcileUser` from `// Connect to Bufstream` on.
  unfoldable pub connect_and_upsert : Cluster → User → String → Option SaslConfig → Action Outcome
  connect_and_upsert cluster user password sasl_config = do
    connected ← new_client out cluster.spec.bootstrap_servers sasl_config
    on_error connected
        (λ e. do
          degrade out user "ConnectionFailed" (about (lit "Failed to connect: " ∷ []) e)
              "Cannot connect to Bufstream"
          emit user "Warning" "ConnectionFailed"
              (about (lit "Failed to connect to Bufstream: " ∷ []) e)
          pure (after_error requeue_degraded e))
        λ client. do outcome ← reconcile_connected client user password; close client; pure outcome

  -- `reconcileUser` for a ready cluster: from `// Set progressing condition` on.
  unfoldable pub reconcile_ready : Cluster → User → Action Outcome
  reconcile_ready cluster stored = do
    user ←
        set_condition out stored type_progressing condition_true "Reconciling"
          (plain "Reconciling user")
    credentials ← get_admin_credentials out cluster
    on_error credentials
        (λ e. do
          degrade out user "ConfigurationError"
              (about (lit "Failed to get admin credentials: " ∷ []) e)
              "Cannot get admin credentials"
          emit user "Warning" "ConfigurationError"
              (about (lit "Failed to get admin credentials: " ∷ []) e)
          pure (after_error requeue_degraded e))
        λ sasl_config. do
          secret ← get_password user
          on_error secret
              (λ e. do
                degrade out user "SecretError" (about (lit "Failed to get password: " ∷ []) e)
                    "Cannot get password from secret"
                emit user "Warning" "SecretError" (about (lit "Failed to get password: " ∷ []) e)
                pure (after_error requeue_degraded e))
              λ password. connect_and_upsert cluster user password sasl_config

  -- The test at the start of `reconcileUser`.
  unfoldable pub is_reconciled : User → Bool
  unfolding is_true
  is_reconciled user =
      user.status.observed_generation == user.metadata.generation
      && is_true (out.find_status_condition user.status.conditions type_ready)

  unfoldable pub reconcile_user : User → Action Outcome
  reconcile_user user = if is_reconciled user then pure (after requeue_healthy) else do
    fetched ← get_cluster out user.spec.cluster user.metadata.namespace
    on_error fetched
        (λ e. do
          degrade out user "ClusterError" (about (lit "Failed to get cluster: " ∷ []) e)
              "Cannot get cluster"
          pure (after_error requeue_degraded e))
        λ cluster.
          if not (is_cluster_ready out cluster)
          then pure (after cluster_not_ready_requeue)
          else reconcile_ready cluster user
