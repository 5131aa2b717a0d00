-- ===== src/Controller/User/Remove.antt =====
-- internal/controller/user_controller.go: `reconcileDelete`.
use bufstream_operator.Prelude.{not, [], ◌∷◌, if◌then◌else◌}
use bufstream_operator.Api.Meta.{foreign, lit, shown, text}
use bufstream_operator.Api.Cluster.{Cluster}
use bufstream_operator.Api.User.{User}
use bufstream_operator.Outside.{Outside, Object}
use bufstream_operator.Outside.Action.{Action, pure, ◌>>=◌, ◌>>◌, on_error}
use bufstream_operator.Outside.Calls.{update}
use bufstream_operator.Bufstream.Client.{Client, new_client, close}
use bufstream_operator.Bufstream.User.{delete_user_credentials}
use bufstream_operator.Controller.Common.{Outcome, done, after, failed, cluster_not_ready_requeue}
use bufstream_operator.Controller.Helpers.{get_cluster, is_cluster_ready, get_admin_credentials}
use bufstream_operator.Controller.User.Base.{
  user_finalizer, username, mechanism, emit, deletion_failed,
}

module _ (out : Outside) where
  -- The end of `reconcileDelete`: the finalizer is removed.
  unfoldable pub release : User → Action Outcome
  release user = do
    let released = record user {
      metadata = record (user.metadata) {
        finalizers = out.remove_finalizer user.metadata.finalizers user_finalizer;
      };
    }
    updated ← update out (Object.user released)
    on_error updated (λ e. pure (failed (foreign e))) λ _. pure done

  -- `reconcileDelete` over an open client.
  unfoldable pub delete_connected : Client → User → Action Outcome
  delete_connected client user = do
    deleted ← delete_user_credentials out client (username user) (mechanism user)
    on_error deleted (λ e. deletion_failed user "Failed to delete user: " e)
        λ _. do
          emit user "Normal" "UserDeleted"
              (text (lit "User " ∷ shown (username user) ∷ lit " deleted from Bufstream" ∷ []))
          release user

  -- `reconcileDelete` for a ready cluster.
  unfoldable pub delete_ready : Cluster → User → Action Outcome
  delete_ready cluster user = do
    credentials ← get_admin_credentials out cluster
    on_error credentials (λ e. deletion_failed user "Failed to get admin credentials: " e)
        λ sasl_config. do
          connected ← new_client out cluster.spec.bootstrap_servers sasl_config
          on_error connected (λ e. deletion_failed user "Failed to connect to Bufstream: " e)
              λ client. do outcome ← delete_connected client user; close client; pure outcome

  unfoldable pub reconcile_delete : User → Action Outcome
  reconcile_delete user =
      if not (out.contains_finalizer user.metadata.finalizers user_finalizer) then pure done else do
        fetched ← get_cluster out user.spec.cluster user.metadata.namespace
        on_error fetched (λ e. deletion_failed user "Failed to get cluster: " e)
            λ cluster.
              if not (is_cluster_ready out cluster)
              then pure (after cluster_not_ready_requeue)
              else delete_ready cluster user
