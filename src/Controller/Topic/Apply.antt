-- ===== src/Controller/Topic/Apply.antt =====
-- internal/controller/topic_controller.go: `reconcileTopic`, for a resource that is not being
-- deleted. A deferred `bsClient.Close()` is the call of `close` after the rest of the function has
-- its outcome.
use bufstream_operator.Prelude.{String, Bool, not, ◌&&◌, List, [], ◌∷◌, ◌==◌, if◌then◌else◌}
use bufstream_operator.Prelude.Int.{int16}
use bufstream_operator.Api.Meta.{
  foreign, formatted, lit, shown, plain, text, about, condition_true, condition_false,
}
use bufstream_operator.Api.Cluster.{Cluster}
use bufstream_operator.Api.Topic.{Topic}
use bufstream_operator.Outside.{Outside, Object}
use bufstream_operator.Outside.Action.{Action, pure, ◌>>=◌, ◌>>◌, on_error, on_option}
use bufstream_operator.Outside.Calls.{update_status}
use bufstream_operator.Bufstream.Client.{Client, new_client, check_health, close}
use bufstream_operator.Bufstream.Topic.{
  TopicInfo, default_one, topic_exists, create_topic, update_topic,
}
use bufstream_operator.Controller.Common.{
  Outcome, after, after_error, failed, type_ready, type_degraded, type_progressing, requeue_healthy,
  requeue_degraded, cluster_not_ready_requeue,
}
use bufstream_operator.Controller.Helpers.{
  get_cluster, is_cluster_ready, is_true, get_admin_credentials,
}
use bufstream_operator.Controller.Topic.Base.{topic_name, emit, set_condition, degrade}

module _ (out : Outside) where
  -- From `// Update status` to the end of `reconcileTopic`.
  unfoldable pub finish : Topic → String → Action Outcome
  finish topic name = do
    let observed = record topic {
      status = record (topic.status) {
        observed_generation = topic.metadata.generation;
        topic_name = name;
        partitions = topic.spec.partitions;
        replication_factor = topic.spec.replication_factor;
      };
    }
    healthy ←
        set_condition out observed type_degraded condition_false "Healthy"
          (plain "Topic is healthy")
    reconciled ←
        set_condition out healthy type_progressing condition_false "Reconciled"
          (plain "Topic reconciled successfully")
    ready ← set_condition out reconciled type_ready condition_true "Ready" (plain "Topic is ready")
    updated ← update_status out (Object.topic ready)
    on_error updated (λ e. pure (failed (foreign e))) λ _. pure (after requeue_healthy)

  -- The branch `!exists`.
  unfoldable pub create_missing : Client → Topic → String → Action Outcome
  create_missing client topic name = do
    created ← create_topic out client (record {
      name = name;
      partitions = topic.spec.partitions;
      replication_factor = int16 topic.spec.replication_factor;
      config = topic.spec.config;
    })
    on_error created
        (λ e. do
          degrade out topic "CreationFailed" (about (lit "Failed to create topic: " ∷ []) e)
              "Topic creation failed"
          emit topic "Warning" "CreationFailed" (about (lit "Failed to create topic: " ∷ []) e)
          pure (after_error requeue_degraded e))
        λ _. do
          emit topic "Normal" "TopicCreated"
              (text (lit "Topic " ∷ shown name ∷ lit " created" ∷ []))
          finish topic name

  -- The branch in which the topic exists, and ownership is assumed or not.
  unfoldable pub take_over : Client → Topic → String → TopicInfo → Action Outcome
  take_over client topic name current =
      if not topic.spec.assume_ownership
      then (do
        let message : List _ =
            lit "topic " ∷ shown name ∷ lit " already exists and assumeOwnership is false" ∷ []
        degrade out topic "TopicExists" (text message) "Topic exists, cannot assume ownership"
        emit topic "Warning" "TopicExists" (text message)
        pure (failed (formatted message)))
      else do
        updated ←
            update_topic out client name topic.spec.partitions
              (default_one (int16 topic.spec.replication_factor)) current topic.spec.config
        on_error updated
            (λ e. do
              degrade out topic "UpdateFailed" (about (lit "Failed to update topic: " ∷ []) e)
                  "Topic update failed"
              emit topic "Warning" "UpdateFailed" (about (lit "Failed to update topic: " ∷ []) e)
              pure (after_error requeue_degraded e))
            λ _. do
              emit topic "Normal" "TopicUpdated"
                  (text (lit "Topic " ∷ shown name ∷ lit " updated" ∷ []))
              finish topic name

  -- `reconcileTopic` over an open client: from the health check on.
  unfoldable pub reconcile_connected : Client → Topic → Action Outcome
  reconcile_connected client topic = do
    health ← check_health out client
    on_error health
        (λ e. do
          degrade out topic "Unhealthy" (about (lit "Bufstream unhealthy: " ∷ []) e)
              "Bufstream is unhealthy"
          emit topic "Warning" "BufstreamUnhealthy"
              (about (lit "Bufstream health check failed: " ∷ []) e)
          pure (after_error requeue_degraded e))
        λ _. do
          found ← topic_exists out client (topic_name topic)
          on_error found
              (λ e. do
                degrade out topic "CheckFailed" (about (lit "Failed to check topic: " ∷ []) e)
                    "Failed to check topic existence"
                pure (after_error requeue_degraded e))
              λ existing.
                on_option existing (create_missing client topic (topic_name topic))
                  (λ current. take_over client topic (topic_name topic) current)

  -- `reconcileTopic` for a ready cluster: from `// Set progressing condition` on.
  unfoldable pub reconcile_ready : Cluster → Topic → Action Outcome
  reconcile_ready cluster stored = do
    topic ←
        set_condition out stored type_progressing condition_true "Reconciling"
          (plain "Reconciling topic")
    credentials ← get_admin_credentials out cluster
    on_error credentials
        (λ e. do
          degrade out topic "CredentialsError" (about (lit "Failed to get credentials: " ∷ []) e)
              "Cannot get admin credentials"
          emit topic "Warning" "CredentialsError"
              (about (lit "Failed to get admin credentials: " ∷ []) e)
          pure (after_error requeue_degraded e))
        λ sasl_config. do
          connected ← new_client out cluster.spec.bootstrap_servers sasl_config
          on_error connected
              (λ e. do
                degrade out topic "ConnectionFailed" (about (lit "Failed to connect: " ∷ []) e)
                    "Cannot connect to Bufstream"
                emit topic "Warning" "ConnectionFailed"
                    (about (lit "Failed to connect to Bufstream: " ∷ []) e)
                pure (after_error requeue_degraded e))
              λ client. do outcome ← reconcile_connected client topic; close client; pure outcome

  -- The test at the start of `reconcileTopic`.
  unfoldable pub is_reconciled : Topic → Bool
  unfolding is_true
  is_reconciled topic =
      topic.status.observed_generation == topic.metadata.generation
      && is_true (out.find_status_condition topic.status.conditions type_ready)

  unfoldable pub reconcile_topic : Topic → Action Outcome
  reconcile_topic topic = if is_reconciled topic then pure (after requeue_healthy) else do
    fetched ← get_cluster out topic.spec.cluster topic.metadata.namespace
    on_error fetched
        (λ e. do
          degrade out topic "ClusterError" (about (lit "Failed to get cluster: " ∷ []) e)
              "Cannot get cluster"
          pure (after_error requeue_degraded e))
        λ cluster.
          if not (is_cluster_ready out cluster)
          then pure (after cluster_not_ready_requeue)
          else reconcile_ready cluster topic
