-- ===== src/Controller/Acl/Apply.antt =====
-- internal/controller/acl_controller.go: `reconcileACL`, for a resource that is not being deleted.
-- A deferred `bsClient.Close()` is the call of `close` after the rest of the function has its
-- outcome.
use bufstream_operator.Prelude.{◌*◌, Bool, not, ◌&&◌, [], ◌∷◌, ◌==◌, if◌then◌else◌}
use bufstream_operator.Api.Meta.{
  foreign, lit, shown, plain, text, about, condition_true, condition_false,
}
use bufstream_operator.Api.Cluster.{Cluster}
use bufstream_operator.Api.Acl.{Acl}
use bufstream_operator.Outside.{Outside, Object}
use bufstream_operator.Outside.Action.{Action, pure, ◌>>=◌, ◌>>◌, on_error}
use bufstream_operator.Outside.Calls.{update_status}
use bufstream_operator.Bufstream.Client.{Client, new_client, close}
use bufstream_operator.Bufstream.Acl.{create_acl}
use bufstream_operator.Controller.Common.{
  Outcome, after, after_error, failed, type_ready, type_degraded, type_progressing, requeue_healthy,
  minute, requeue_degraded, cluster_not_ready_requeue,
}
use bufstream_operator.Controller.Helpers.{
  get_cluster, is_cluster_ready, is_true, get_admin_credentials,
}
use bufstream_operator.Controller.Acl.Config.{to_acl_config}
use bufstream_operator.Controller.Acl.Base.{emit, set_condition, degrade}

module _ (out : Outside) where
  -- From `// Update status` to the end of `reconcileACL`.
  unfoldable pub finish : Acl → Action Outcome
  finish acl = do
    let observed = record acl {
      status = record (acl.status) { observed_generation = acl.metadata.generation };
    }
    reconciled ←
        set_condition out observed type_progressing condition_false "Reconciled"
          (plain "ACL reconciled successfully")
    healthy ←
        set_condition out reconciled type_degraded condition_false "Healthy"
          (plain "ACL is healthy")
    ready ← set_condition out healthy type_ready condition_true "Ready" (plain "ACL is ready")
    updated ← update_status out (Object.acl ready)
    on_error updated (λ e. pure (failed (foreign e))) λ _. pure (after (5 * minute))

  -- `reconcileACL` over an open client.
  unfoldable pub reconcile_connected : Client → Acl → Action Outcome
  reconcile_connected client acl = do
    created ← create_acl out client (to_acl_config acl)
    on_error created
        (λ e. do
          degrade out acl "CreateFailed" (about (lit "Failed to create ACL: " ∷ []) e)
              "Failed to create ACL"
          emit acl "Warning" "CreateFailed" (about (lit "Failed to create ACL: " ∷ []) e)
          pure (after_error requeue_degraded e))
        λ _. do
          emit acl "Normal" "ACLCreated"
              (text (lit "ACL for " ∷ shown acl.spec.principal ∷ lit " created" ∷ []))
          finish acl

  -- `reconcileACL` for a ready cluster: from `// Set progressing condition` on.
  unfoldable pub reconcile_ready : Cluster → Acl → Action Outcome
  reconcile_ready cluster stored = do
    acl ←
        set_condition out stored type_progressing condition_true "Reconciling"
          (plain "Reconciling ACL")
    credentials ← get_admin_credentials out cluster
    on_error credentials
        (λ e. do
          degrade out acl "CredentialsError" (about (lit "Failed to get credentials: " ∷ []) e)
              "Cannot get admin credentials"
          emit acl "Warning" "CredentialsError"
              (about (lit "Failed to get admin credentials: " ∷ []) e)
          pure (after_error requeue_degraded e))
        λ sasl_config. do
          connected ← new_client out cluster.spec.bootstrap_servers sasl_config
          on_error connected
              (λ e. do
                degrade out acl "ConnectionFailed" (about (lit "Failed to connect: " ∷ []) e)
                    "Cannot connect to Bufstream"
                emit acl "Warning" "ConnectionFailed" (about (lit "Failed to connect: " ∷ []) e)
                pure (after_error requeue_degraded e))
              λ client. do outcome ← reconcile_connected client acl; close client; pure outcome

  -- The test at the start of `reconcileACL`.
  unfoldable pub is_reconciled : Acl → Bool
  unfolding is_true
  is_reconciled acl =
      acl.status.observed_generation == acl.metadata.generation
      && is_true (out.find_status_condition acl.status.conditions type_ready)

  unfoldable pub reconcile_acl : Acl → Action Outcome
  reconcile_acl acl = if is_reconciled acl then pure (after requeue_healthy) else do
    fetched ← get_cluster out acl.spec.cluster acl.metadata.namespace
    on_error fetched
        (λ e. do
          degrade out acl "ClusterError" (about (lit "Failed to get cluster: " ∷ []) e)
              "Cannot get cluster"
          pure (after_error requeue_degraded e))
        λ cluster.
          if not (is_cluster_ready out cluster)
          then pure (after cluster_not_ready_requeue)
          else reconcile_ready cluster acl
