-- ===== src/Controller/Topic/Remove.antt =====
-- internal/controller/topic_controller.go: `reconcileDelete`.
use bufstream_operator.Prelude.{not, [], ◌∷◌, if◌then◌else◌}
use bufstream_operator.Api.Meta.{foreign, lit, shown, text}
use bufstream_operator.Api.Cluster.{Cluster}
use bufstream_operator.Api.Topic.{Topic}
use bufstream_operator.Outside.{Outside, Object}
use bufstream_operator.Outside.Action.{Action, pure, ◌>>=◌, ◌>>◌, on_error}
use bufstream_operator.Outside.Calls.{update}
use bufstream_operator.Bufstream.Client.{Client, new_client, close}
use bufstream_operator.Bufstream.Topic.{delete_topic}
use bufstream_operator.Controller.Common.{Outcome, done, after, failed, cluster_not_ready_requeue}
use bufstream_operator.Controller.Helpers.{get_cluster, is_cluster_ready, get_admin_credentials}
use bufstream_operator.Controller.Topic.Base.{topic_finalizer, topic_name, emit, deletion_failed}

module _ (out : Outside) where
  -- The end of `reconcileDelete`: the finalizer is removed.
  unfoldable pub release : Topic → Action Outcome
  release topic = do
    let released = record topic {
      metadata = record (topic.metadata) {
        finalizers = out.remove_finalizer topic.metadata.finalizers topic_finalizer;
      };
    }
    updated ← update out (Object.topic released)
    on_error updated (λ e. pure (failed (foreign e))) λ _. pure done

  -- `reconcileDelete` over an open client.
  unfoldable pub delete_connected : Client → Topic → Action Outcome
  delete_connected client topic = do
    deleted ← delete_topic out client (topic_name topic)
    on_error deleted (λ e. deletion_failed topic "Failed to delete topic: " e)
        λ _. do
          emit topic "Normal" "TopicDeleted"
              (text (lit "Topic " ∷ shown (topic_name topic) ∷ lit " deleted from Bufstream" ∷ []))
          release topic

  -- `reconcileDelete` for a ready cluster.
  unfoldable pub delete_ready : Cluster → Topic → Action Outcome
  delete_ready cluster topic = do
    credentials ← get_admin_credentials out cluster
    on_error credentials (λ e. deletion_failed topic "Failed to get admin credentials: " e)
        λ sasl_config. do
          connected ← new_client out cluster.spec.bootstrap_servers sasl_config
          on_error connected (λ e. deletion_failed topic "Failed to connect to Bufstream: " e)
              λ client. do outcome ← delete_connected client topic; close client; pure outcome

  unfoldable pub reconcile_delete : Topic → Action Outcome
  reconcile_delete topic =
      if not (out.contains_finalizer topic.metadata.finalizers topic_finalizer)
      then pure done
      else do
        fetched ← get_cluster out topic.spec.cluster topic.metadata.namespace
        on_error fetched (λ e. deletion_failed topic "Failed to get cluster: " e)
            λ cluster.
              if not (is_cluster_ready out cluster)
              then pure (after cluster_not_ready_requeue)
              else delete_ready cluster topic
