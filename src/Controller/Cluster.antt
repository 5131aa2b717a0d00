-- ===== src/Controller/Cluster.antt =====
-- internal/controller/cluster_controller.go
pub mod Rules
pub mod Health
pub mod Store
pub mod Gate
use bufstream_operator.Prelude.{String, not, [], ◌∷◌, if◌then◌else◌}
use bufstream_operator.Api.Meta.{
  NamespacedName, foreign, lit, Message, plain, about, condition_true, condition_false,
}
use bufstream_operator.Api.Cluster.{Cluster}
use bufstream_operator.Outside.{Outside, Object, Kind}
use bufstream_operator.Outside.Action.{Action, pure, ◌>>=◌, ◌>>◌, on_error}
use bufstream_operator.Outside.Calls.{fetch_cluster, update_status, record_event}
use bufstream_operator.Bufstream.Client.{Client, new_client, check_health, close}
use bufstream_operator.Controller.Common.{
  Outcome, done, after, failed, name_of, new_condition, type_ready, cluster_health_check_interval,
}
use bufstream_operator.Controller.Helpers.{get_admin_credentials}

module _ (out : Outside) where
  unfoldable pub set_condition : Cluster → String → String → Message → Action Cluster
  set_condition cluster status reason message = do
    condition ← new_condition out cluster.metadata type_ready status reason message
    pure (record cluster {
      status = record (cluster.status) {
        conditions = out.set_status_condition cluster.status.conditions condition;
      };
    })

  -- The body of each `if err != nil` of `Reconcile`: the condition, the status, the event. An error
  -- of the status update is only logged.
  unfoldable pub not_ready : Cluster → String → Message → Message → Action Outcome
  not_ready cluster reason message event_message = do
    cluster' ← set_condition cluster condition_false reason message
    update_status out (Object.cluster cluster')
    record_event Kind.cluster_kind (name_of cluster.metadata) "Warning" reason event_message
    pure (after cluster_health_check_interval)

  -- From `// Cluster is healthy` to the end of `Reconcile`.
  unfoldable pub finish : Cluster → Action Outcome
  finish cluster = do
    let observed = record cluster {
      status = record (cluster.status) { observed_generation = cluster.metadata.generation };
    }
    ready ←
        set_condition observed condition_true "Connected" (plain "Cluster is reachable and healthy")
    updated ← update_status out (Object.cluster ready)
    on_error updated (λ e. pure (failed (foreign e)))
        λ _. pure (after cluster_health_check_interval)

  -- `Reconcile` over an open client.
  unfoldable pub reconcile_connected : Client → Cluster → Action Outcome
  reconcile_connected client cluster = do
    health ← check_health out client
    on_error health
        (λ e.
          not_ready cluster "Unhealthy" (about (lit "Health check failed: " ∷ []) e)
            (about (lit "Health check failed: " ∷ []) e))
        λ _. finish cluster

  -- `Reconcile` from the fetched cluster on, where it is not being deleted.
  unfoldable pub reconcile_cluster : Cluster → Action Outcome
  reconcile_cluster cluster = do
    credentials ← get_admin_credentials out cluster
    on_error credentials
        (λ e.
          not_ready cluster "CredentialsError"
            (about (lit "Failed to get admin credentials: " ∷ []) e)
            (about (lit "Failed to get admin credentials: " ∷ []) e))
        λ sasl_config. do
          connected ← new_client out cluster.spec.bootstrap_servers sasl_config
          on_error connected
              (λ e.
                not_ready cluster "ConnectionFailed" (about (lit "Failed to connect: " ∷ []) e)
                  (about (lit "Failed to connect to Bufstream: " ∷ []) e))
              λ client. do outcome ← reconcile_connected client cluster; close client; pure outcome

  unfoldable pub reconcile : NamespacedName → Action Outcome
  reconcile request = do
    fetched ← fetch_cluster out request
    on_error fetched (λ e. if out.is_not_found e then pure done else pure (failed (foreign e)))
        λ cluster.
          if not (out.is_zero cluster.metadata.deletion_timestamp)
          then pure done
          else reconcile_cluster cluster
