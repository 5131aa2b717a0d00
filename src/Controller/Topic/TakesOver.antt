-- ===== src/Controller/Topic/TakesOver.antt =====
-- A reconcile of a topic that meets no obstacle, where the brokers have a topic of its name and
-- ownership is assumed, ends with that topic brought to the spec and success stored.
use bufstream_operator.Prelude.{
  ◌≡◌, false, some, inl, inr, not, [], ◌∷◌, Bool-cases, arith, true, String, List, [], ◌∷◌, ⊤, ok,
  not,
}
use bufstream_operator.Prelude.Int.{ℤ, int16, ltb_ℤ, ◌≤ℤ◌, ◌==ℤ◌}
use bufstream_operator.Api.Cluster.{Cluster}
use bufstream_operator.Api.Topic.{Topic}
use bufstream_operator.Outside.{Outside, Object, Trace, Handle}
use bufstream_operator.Outside.Action.{on_option}
use bufstream_operator.Outside.Laws.{ConditionLaws}
use bufstream_operator.Outside.Progress.{
  Ends, Returns, IsOk, Returns-ask, Returns-pure, Ends-if, Returns-ok, Ends-ok, Ends-then,
}
use bufstream_operator.Bufstream.Client.{Client}
use bufstream_operator.Bufstream.Responses.{AllResponses, NoFault}
use bufstream_operator.Bufstream.Topic.Update.{IsOneByDefault, IsOneByDefault-default_one}
use bufstream_operator.Bufstream.Topic.{
  TopicInfo, update_topic, update_configs, update_partitions, default_one, found_topic,
}
use bufstream_operator.Controller.Working.{Working}
use bufstream_operator.Controller.Topic.Lifecycle.{IsUnsettled}
use bufstream_operator.Controller.Topic.Names.{IsNameOf, IsNameOf-topic_name}
use bufstream_operator.Controller.Topic.Apply.{take_over, reconcile_topic}
use bufstream_operator.Controller.Topic.Rules.{with_conditions}
use bufstream_operator.Controller.Topic.Connects.{
  Converged, Untouched, answered-IsOk, finish-Converged, reconcile_topic-Converged,
}

module _ (out : Outside) (laws : ConditionLaws out) (cluster : Cluster) (w : Working out cluster)
    (name : String) (current : TopicInfo)
    (lists : (tr : Trace) (h : Handle) (names : List String)
      → Untouched tr
      → IsOk (λ topics. found_topic name topics ≡ some current) (out.list_topics tr h names))
    (grows : (tr : Trace) (h : Handle) (n : ℤ) (topic : String)
      → IsOk (AllResponses NoFault) (out.create_partitions tr h n topic))
    (alters : (tr : Trace) (h : Handle) (config : List (String × String)) (topic : String)
      → IsOk (AllResponses NoFault) (out.alter_topic_configs tr h config topic))
    (stores : (tr : Trace) (x : Object) → out.update_status tr x ≡ ok tt) where
  module _ (c : Client) where
    update_configs-Returns :
        (config : List (String × String)) → Returns (update_configs out c name config) (λ _. ⊤)
    unfolding update_configs
    update_configs-Returns [] = Returns-pure _ tt
    update_configs-Returns (kv ∷ config) =
        Returns-ok {Good = AllResponses NoFault} _ _ _ (Returns-ask _ _ (λ tr. alters tr _ _ _))
          (λ rs h. Returns-pure _ (answered-IsOk _ rs h))

    update_partitions-Returns :
        (desired : ℤ)
        → current.partitions ≤ℤ desired
        → Returns (update_partitions out c name desired current) (λ _. ⊤)
    unfolding update_partitions
    update_partitions-Returns desired fits = elim (Bool-cases (ltb_ℤ current.partitions desired)) [
      | inl fewer ↦ rw fewer (
          Returns-ok {Good = AllResponses NoFault} _ _ _ (Returns-ask _ _ (λ tr. grows tr _ _ _))
            (λ rs h. Returns-pure _ (answered-IsOk _ rs h)))
      | inr same ↦
          let no_fewer : ltb_ℤ desired current.partitions ≡ false = ground (arith, fits) in
          rw (same, no_fewer) (Returns-pure _ tt)
    ]

    update_topic-Returns :
        (partitions replicas : ℤ) (config : List (String × String))
        → current.partitions ≤ℤ default_one partitions
        → (current.replication_factor ==ℤ replicas) ≡ true
        → Returns (update_topic out c name partitions replicas current config) (λ _. ⊤)
    unfolding update_topic
    update_topic-Returns partitions replicas config fits same = rw same (
        Returns-ok {Good = λ _. ⊤} _ _ _ (update_partitions-Returns _ fits)
          (λ _ _. update_configs-Returns config))

    take_over-Converged :
        (t : Topic)
        → t.spec.assume_ownership ≡ true
        → current.partitions ≤ℤ default_one t.spec.partitions
        → (current.replication_factor ==ℤ default_one (int16 t.spec.replication_factor)) ≡ true
        → Ends (take_over out c t name current) (Converged out t name)
    unfolding take_over
    take_over-Converged t owned fits same =
        Ends-if (not t.spec.assume_ownership) _ _ (λ e. absurd (ground (arith, e, owned)))
          (λ _.
            Ends-ok {Good = λ _. ⊤} _ _ _ (update_topic-Returns _ _ _ fits same)
              (λ _ _. Ends-then _ _ (finish-Converged out laws stores name t)))

  -- Where the topic is not settled and assumes ownership, its cluster is ready, the credentials can
  -- be read, the brokers accept the connection, list a topic of its name while no topic has been
  -- touched, with no more partitions than the spec asks for and with its replication factor (each 1
  -- where the spec gives none), and accept more partitions and the configuration, and the API
  -- server accepts the statuses, the reconcile, from a history in which no topic has been touched,
  -- returns without an error, comes back after five minutes, and the last that it did, but for
  -- closing its client, was to store success of the topic's generation; under the laws of
  -- SetStatusCondition.
  pub reconcile_topic-takes_over :
      (t : Topic)
      → IsNameOf t name
      → t.spec.assume_ownership ≡ true
      → (desired factor : ℤ) → IsOneByDefault t.spec.partitions desired
      → IsOneByDefault (int16 t.spec.replication_factor) factor
      → current.partitions ≤ℤ desired
      → (current.replication_factor ==ℤ factor) ≡ true
      → IsUnsettled out t
      → (tr : Trace) → Untouched tr
      → Converged out t name (reconcile_topic out t tr).0 (reconcile_topic out t tr).1
  unfolding on_option
  reconcile_topic-takes_over t named owned desired factor d f fits same =
      reconcile_topic-Converged out cluster w name (some current) lists t
        (IsNameOf-topic_name t name named)
        (λ c cs.
          take_over-Converged c (with_conditions t cs) owned
            (rw (IsOneByDefault-default_one _ desired d) fits)
            (rw (IsOneByDefault-default_one _ factor f) same))
