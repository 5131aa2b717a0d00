-- ===== src/Controller/Topic/Converges.antt =====
-- A reconcile of a topic that meets no obstacle, where the brokers have none of its name, ends with
-- the topic created and success stored.
use bufstream_operator.Prelude.{◌≡◌, none, String, List, ⊤, ok}
use bufstream_operator.Prelude.Int.{ℤ}
use bufstream_operator.Api.Cluster.{Cluster}
use bufstream_operator.Api.Topic.{Topic}
use bufstream_operator.Outside.{Outside, Object, Trace, Handle}
use bufstream_operator.Outside.Action.{on_option}
use bufstream_operator.Outside.Laws.{ConditionLaws}
use bufstream_operator.Outside.Progress.{
  Ends, Returns, IsOk, Returns-ask, Returns-pure, Returns-ok, Ends-ok, Ends-then,
}
use bufstream_operator.Bufstream.Client.{Client}
use bufstream_operator.Bufstream.Responses.{AllResponses, NoFault}
use bufstream_operator.Bufstream.Topic.{TopicConfig, create_topic, found_topic}
use bufstream_operator.Controller.Working.{Working}
use bufstream_operator.Controller.Topic.Lifecycle.{IsUnsettled}
use bufstream_operator.Controller.Topic.Names.{IsNameOf, IsNameOf-topic_name}
use bufstream_operator.Controller.Topic.Apply.{create_missing, reconcile_topic}
use bufstream_operator.Controller.Topic.Rules.{with_conditions}
use bufstream_operator.Controller.Topic.Connects.{
  Converged, Untouched, answered-IsOk, finish-Converged, reconcile_topic-Converged,
}

module _ (out : Outside) (laws : ConditionLaws out) (cluster : Cluster) (w : Working out cluster)
    (name : String)
    (lists : (tr : Trace) (h : Handle) (names : List String)
      → Untouched tr
      → IsOk (λ topics. found_topic name topics ≡ none) (out.list_topics tr h names))
    (creates : (tr : Trace) (h : Handle) (p r : ℤ) (config : List (String × String)) (n : String)
      → IsOk (AllResponses NoFault) (out.create_topics tr h p r config n))
    (stores : (tr : Trace) (x : Object) → out.update_status tr x ≡ ok tt) where
  create_topic-Returns :
      (c : Client) (config : TopicConfig) → Returns (create_topic out c config) (λ _. ⊤)
  unfolding create_topic
  create_topic-Returns c config =
      Returns-ok {Good = AllResponses NoFault} _ _ _ (Returns-ask _ _ (λ tr. creates tr _ _ _ _ _))
        (λ rs h. Returns-pure _ (answered-IsOk _ rs h))

  create_missing-Converged :
      (t : Topic) (c : Client) → Ends (create_missing out c t name) (Converged out t name)
  unfolding create_missing
  create_missing-Converged t c =
      Ends-ok {Good = λ _. ⊤} _ _ _ (create_topic-Returns c _)
        (λ _ _. Ends-then _ _ (finish-Converged out laws stores name t))

  -- Where the topic is not settled, its cluster is ready, the credentials can be read, the brokers
  -- accept the connection, do not list the topic while no topic has been touched, and create it,
  -- and the API server accepts the statuses, the reconcile, from a history in which no topic has
  -- been touched, returns without an error, comes back after five minutes, and the last that it
  -- did, but for closing its client, was to store success of the topic's generation; under the laws
  -- of SetStatusCondition.
  pub reconcile_topic-converges :
      (t : Topic)
      → IsNameOf t name
      → IsUnsettled out t
      → (tr : Trace) → Untouched tr
      → Converged out t name (reconcile_topic out t tr).0 (reconcile_topic out t tr).1
  unfolding on_option
  reconcile_topic-converges t named =
      reconcile_topic-Converged out cluster w name none lists t (IsNameOf-topic_name t name named)
        (λ c cs. create_missing-Converged (with_conditions t cs) c)
