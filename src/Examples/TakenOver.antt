-- ===== src/Examples/TakenOver.antt =====
-- A topic that the brokers have already, in an outside that lists it.
use bufstream_operator.Prelude.{
  inr, inl, String, ◌≡◌, refl, true, ⊤, none, some, List, [], ◌∷◌, ok, arith,
}
use bufstream_operator.Prelude.Int.{pos}
use bufstream_operator.Api.Topic.{Topic}
use bufstream_operator.Outside.{Outside, TopicDetail}
use bufstream_operator.Outside.Action.{on_option, pure}
use bufstream_operator.Outside.Laws.{ConditionLaws}
use bufstream_operator.Outside.Progress.{Returns}
use bufstream_operator.Bufstream.Topic.{
  TopicInfo, found_topic, topic_entry, topic_info, replicas_of,
}
use bufstream_operator.Controller.Helpers.{is_cluster_ready, is_true, get_admin_credentials}
use bufstream_operator.Controller.Working.{Working}
use bufstream_operator.Controller.Topic.Base.{topic_finalizer}
use bufstream_operator.Controller.Topic.Names.{IsNameOf}
use bufstream_operator.Controller.Topic.Lifecycle.{IsUnsettled}
use bufstream_operator.Controller.Topic.Apply.{reconcile_topic}
use bufstream_operator.Controller.Topic.Connects.{Converged}
use bufstream_operator.Controller.Topic.TakesOver.{reconcile_topic-takes_over}
use bufstream_operator.Examples.World.{world, world-conditions, world-Working, a_cluster, a_topic}

abbrev listed : List (String × TopicDetail)
listed = ("orders", record { partitions = (0, 1 ∷ []) ∷ [] }) ∷ []

abbrev busy : Outside
busy = record world { list_topics = λ _ _ _. ok listed }

busy-conditions : ConditionLaws busy
busy-conditions = record {
  find-set_self = world-conditions.find-set_self;
  find-set_ne = world-conditions.find-set_ne;
}

busy-credentials : Returns (get_admin_credentials busy a_cluster) (λ _. ⊤)
unfolding get_admin_credentials on_option pure
busy-credentials = record { at = λ tr. tt }

busy-ready : is_cluster_ready busy a_cluster ≡ true
unfolding is_cluster_ready is_true
busy-ready = refl

busy-Working : Working busy a_cluster
busy-Working = record {
  fetched = world-Working.fetched;
  ready = busy-ready;
  credentials = busy-credentials;
  connects = world-Working.connects;
  answers = world-Working.answers;
}

abbrev owned_topic : Topic
owned_topic =
    let t = a_topic (topic_finalizer ∷ []) none 1 [] in
    record t { spec = record (t.spec) { assume_ownership = true } }

abbrev current : TopicInfo
current = record { name = "orders"; partitions = pos 1; replication_factor = pos 1 }

current-found : found_topic "orders" listed ≡ some current
unfolding found_topic topic_entry topic_info replicas_of
current-found = refl

owned_topic-IsNameOf : IsNameOf owned_topic "orders"
owned_topic-IsNameOf = inr (refl, refl)

owned_topic-IsUnsettled : IsUnsettled busy owned_topic
owned_topic-IsUnsettled = inl (ground arith)

reconcile_topic-takes_over_example :
    Converged busy owned_topic "orders"
      (reconcile_topic busy owned_topic []).0
      (reconcile_topic busy owned_topic []).1
reconcile_topic-takes_over_example =
    reconcile_topic-takes_over busy busy-conditions a_cluster busy-Working "orders" current
      (λ _ _ _ _. current-found) (λ _ _ _ _. (tt, tt)) (λ _ _ _ _. (tt, tt)) (λ _ _. refl)
      owned_topic owned_topic-IsNameOf refl (pos 3) (pos 1) (inr (ground arith, refl))
      (inr (ground arith, refl)) (ground arith) refl owned_topic-IsUnsettled [] tt
