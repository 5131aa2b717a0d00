-- ===== src/Controller/Acl/Remove.antt =====
-- internal/controller/acl_controller.go: `reconcileDelete`.
use bufstream_operator.Prelude.{not, if◌then◌else◌}
use bufstream_operator.Api.Meta.{foreign, plain}
use bufstream_operator.Api.Cluster.{Cluster}
use bufstream_operator.Api.Acl.{Acl}
use bufstream_operator.Outside.{Outside, Object}
use bufstream_operator.Outside.Action.{Action, pure, ◌>>=◌, ◌>>◌, on_error}
use bufstream_operator.Outside.Calls.{update}
use bufstream_operator.Bufstream.Client.{Client, new_client, close}
use bufstream_operator.Bufstream.Acl.{delete_acl}
use bufstream_operator.Controller.Common.{Outcome, done, after, failed, cluster_not_ready_requeue}
use bufstream_operator.Controller.Helpers.{get_cluster, is_cluster_ready, get_admin_credentials}
use bufstream_operator.Controller.Acl.Config.{to_acl_config}
use bufstream_operator.Controller.Acl.Base.{acl_finalizer, emit, deletion_failed}

module _ (out : Outside) where
  -- The end of `reconcileDelete`: the finalizer is removed.
  unfoldable pub release : Acl → Action Outcome
  release acl = do
    let released = record acl {
      metadata = record (acl.metadata) {
        finalizers = out.remove_finalizer acl.metadata.finalizers acl_finalizer;
      };
    }
    updated ← update out (Object.acl released)
    on_error updated (λ e. pure (failed (foreign e))) λ _. pure done

  -- `reconcileDelete` over an open client.
  unfoldable pub delete_connected : Client → Acl → Action Outcome
  delete_connected client acl = do
    deleted ← delete_acl out client (to_acl_config acl)
    on_error deleted (λ e. deletion_failed acl "Failed to delete ACL: " e)
        λ _. do emit acl "Normal" "ACLDeleted" (plain "ACL deleted from Bufstream"); release acl

  -- `reconcileDelete` for a ready cluster.
  unfoldable pub delete_ready : Cluster → Acl → Action Outcome
  delete_ready cluster acl = do
    credentials ← get_admin_credentials out cluster
    on_error credentials (λ e. deletion_failed acl "Failed to get admin credentials: " e)
        λ sasl_config. do
          connected ← new_client out cluster.spec.bootstrap_servers sasl_config
          on_error connected (λ e. deletion_failed acl "Failed to connect: " e)
              λ client. do outcome ← delete_connected client acl; close client; pure outcome

  unfoldable pub reconcile_delete : Acl → Action Outcome
  reconcile_delete acl =
      if not (out.contains_finalizer acl.metadata.finalizers acl_finalizer) then pure done else do
        fetched ← get_cluster out acl.spec.cluster acl.metadata.namespace
        on_error fetched (λ e. deletion_failed acl "Failed to get cluster: " e)
            λ cluster.
              if not (is_cluster_ready out cluster)
              then pure (after cluster_not_ready_requeue)
              else delete_ready cluster acl
