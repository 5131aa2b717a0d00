-- ===== src/Controller/Topic/Base.antt =====
-- internal/controller/topic_controller.go: the names, the events and the conditions.
use bufstream_operator.Prelude.{String, not, [], ◌∷◌, ⊤, str_eq, if◌then◌else◌}
use bufstream_operator.Api.Meta.{Error, lit, Message, plain, about, condition_true, condition_false}
use bufstream_operator.Api.Topic.{Topic}
use bufstream_operator.Outside.{Outside, Object, Kind}
use bufstream_operator.Outside.Action.{Action, pure, ◌>>=◌, ◌>>◌}
use bufstream_operator.Outside.Calls.{update_status, record_event}
use bufstream_operator.Controller.Common.{
  Outcome, after_error, name_of, new_condition, type_ready, type_degraded, requeue_degraded,
}

abbrev pub topic_finalizer : String
topic_finalizer = "bufstream.buf.build/topic-finalizer"

-- getTopicName
unfoldable pub topic_name : Topic → String
topic_name topic =
    if not (str_eq topic.spec.topic_name "") then topic.spec.topic_name else topic.metadata.name

-- r.Recorder.Event(topic, …)
unfoldable pub emit : Topic → String → String → Message → Action ⊤
emit topic severity reason message =
    record_event Kind.topic_kind (name_of topic.metadata) severity reason message

-- The end of each failing branch of `reconcileDelete`.
unfoldable pub deletion_failed : Topic → String → Error → Action Outcome
deletion_failed topic prefix e = do
  emit topic "Warning" "DeletionFailed" (about (lit prefix ∷ []) e)
  pure (after_error requeue_degraded e)

module _ (out : Outside) where
  unfoldable pub set_condition : Topic → String → String → String → Message → Action Topic
  set_condition topic kind status reason message = do
    condition ← new_condition out topic.metadata kind status reason message
    pure (record topic {
      status = record (topic.status) {
        conditions = out.set_status_condition topic.status.conditions condition;
      };
    })

  -- The start of each failing branch of `reconcileTopic`: the two conditions and the status, an
  -- error of whose update is only logged.
  unfoldable pub degrade : Topic → String → Message → String → Action ⊤
  degrade topic reason message brief = do
    degraded ← set_condition topic type_degraded condition_true reason message
    topic' ← set_condition degraded type_ready condition_false reason (plain brief)
    update_status out (Object.topic topic')
    pure tt
