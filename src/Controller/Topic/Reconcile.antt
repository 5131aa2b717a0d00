-- ===== src/Controller/Topic/Reconcile.antt =====
-- internal/controller/topic_controller.go: `Reconcile`.
use bufstream_operator.Prelude.{not, if◌then◌else◌}
use bufstream_operator.Api.Meta.{NamespacedName, foreign}
use bufstream_operator.Api.Topic.{Topic}
use bufstream_operator.Outside.{Outside, Object}
use bufstream_operator.Outside.Action.{Action, pure, ◌>>=◌, on_error}
use bufstream_operator.Outside.Calls.{fetch_topic, update}
use bufstream_operator.Controller.Common.{Outcome, done, requeued, failed}
use bufstream_operator.Controller.Topic.Base.{topic_finalizer}
use bufstream_operator.Controller.Topic.Apply.{reconcile_topic}
use bufstream_operator.Controller.Topic.Remove.{reconcile_delete}

module _ (out : Outside) where
  -- The finalizer is added, and the request comes back.
  unfoldable pub adopt : Topic → Action Outcome
  adopt topic = do
    let adopted = record topic {
      metadata = record (topic.metadata) {
        finalizers = out.add_finalizer topic.metadata.finalizers topic_finalizer;
      };
    }
    updated ← update out (Object.topic adopted)
    on_error updated (λ e. pure (failed (foreign e))) λ _. pure requeued

  -- `Reconcile` from the fetched topic on.
  unfoldable pub reconcile_fetched : Topic → Action Outcome
  reconcile_fetched topic =
      if not (out.is_zero topic.metadata.deletion_timestamp)
      then reconcile_delete out topic
      else if not (out.contains_finalizer topic.metadata.finalizers topic_finalizer)
      then adopt topic
      else reconcile_topic out topic

  unfoldable pub reconcile : NamespacedName → Action Outcome
  reconcile request = do
    fetched ← fetch_topic out request
    on_error fetched (λ e. if out.is_not_found e then pure done else pure (failed (foreign e)))
        λ topic. reconcile_fetched topic
