-- ===== src/Examples/Topics.antt =====
-- Topics in the concrete outside.
use bufstream_operator.Prelude.{inr, ◌≡◌, ◌≢◌, ◌↔◌, refl, inl, [], ◌∷◌, none, some, ok, arith}
use bufstream_operator.Prelude.Int.{ℤ, pos}
use bufstream_operator.Api.Topic.{Topic}
use bufstream_operator.Outside.{Call, Kind, Response, TopicDetail, Trace}
use bufstream_operator.Outside.Action.{◌>>=◌, on_error, pure, ask}
use bufstream_operator.Bufstream.Client.{Client}
use bufstream_operator.Bufstream.Responses.{
  AllResponses, NoneOrUnknownTopic, NoFault, delete_fault-NoneOrUnknownTopic, first_fault-NoFault,
}
use bufstream_operator.Bufstream.Topic.{
  TopicInfo, delete_fault, first_fault, found_topic, update_topic, update_partitions,
  update_configs, default_one, topic_entry, topic_info, replicas_of,
}
use bufstream_operator.Bufstream.Topic.Lookup.{Lists, Counts, found_topic-Counts, found_topic-none}
use bufstream_operator.Bufstream.Topic.Update.{
  IsOneByDefault, Grown, Configured, update_topic-refuses, update_topic-Applied,
}
use bufstream_operator.Controller.Common.{name_of, after, requeued, requeue_healthy}
use bufstream_operator.Controller.Connections.{open_clients}
use bufstream_operator.Controller.Topic.Base.{topic_finalizer}
use bufstream_operator.Controller.Topic.Apply.{reconcile_topic}
use bufstream_operator.Controller.Topic.Remove.{reconcile_delete}
use bufstream_operator.Controller.Topic.Reconcile.{reconcile}
use bufstream_operator.Controller.Topic.Readiness.{ReportsInOrder, reconcile_topic-ReportsInOrder}
use bufstream_operator.Controller.Topic.Finalizer.{RemovesInOrder, topic_removal-RemovesInOrder}
use bufstream_operator.Controller.Repeats.{runs, replicate, calls}
use bufstream_operator.Controller.Topic.Rules.{IsSuccess}
use bufstream_operator.Controller.Topic.Store.{stored}
use bufstream_operator.Controller.Topic.Settles.{topic-settles}
use bufstream_operator.Controller.Topic.Closes.{topic_reconcile-closes}
use bufstream_operator.Controller.Topic.Connects.{Converged}
use bufstream_operator.Controller.Topic.Converges.{reconcile_topic-converges}
use bufstream_operator.Controller.Topic.Names.{IsNameOf}
use bufstream_operator.Controller.Topic.Lifecycle.{IsUnsettled, adopted}
use bufstream_operator.Examples.World.{
  world, a_cluster, world-Working, world-conditions, world-finalizers, a_topic, healthy,
}

abbrev new_topic : Topic
new_topic = a_topic [] none 0 []

abbrev live_topic : Topic
live_topic = a_topic (topic_finalizer ∷ []) none 1 []

abbrev settled_topic : Topic
settled_topic = a_topic (topic_finalizer ∷ []) none 2 healthy

abbrev deleted_topic : Topic
deleted_topic = a_topic (topic_finalizer ∷ []) (some 5) 2 healthy

abbrev client : Client
client = record { admin_client = 1; kgo_client = 1 }

abbrev one_partition : TopicInfo
one_partition = record { name = "orders"; partitions = pos 1; replication_factor = pos 1 }

reconcile_topic-ReportsInOrder_example :
    ReportsInOrder world live_topic (reconcile_topic world live_topic []).1
reconcile_topic-ReportsInOrder_example =
    reconcile_topic-ReportsInOrder world live_topic world-conditions

topic_removal-RemovesInOrder_example :
    RemovesInOrder world deleted_topic (reconcile_delete world deleted_topic []).1
topic_removal-RemovesInOrder_example = topic_removal-RemovesInOrder world deleted_topic

live_topic-IsUnsettled : IsUnsettled world live_topic
live_topic-IsUnsettled = inl (ground arith)

live_topic-IsNameOf : IsNameOf live_topic "orders"
live_topic-IsNameOf = inr (refl, refl)

nothing-found : found_topic "orders" [] ≡ none
unfolding found_topic
nothing-found = refl

reconcile_topic-converges_example :
    Converged world live_topic "orders"
      (reconcile_topic world live_topic []).0
      (reconcile_topic world live_topic []).1
reconcile_topic-converges_example =
    reconcile_topic-converges world world-conditions a_cluster world-Working "orders"
      (λ _ _ _ _. nothing-found) (λ _ _ _ _ _ _. (tt, tt)) (λ _ _. refl) live_topic
      live_topic-IsNameOf live_topic-IsUnsettled [] tt

new_topic-IsUnsettled : IsUnsettled world new_topic
new_topic-IsUnsettled = inl (ground arith)

topic-settles_example :
    let step = reconcile world (name_of new_topic.metadata) in
    let late = runs 7 step [] in
    (late.0 ≡ requeued ∷ replicate 6 (after requeue_healthy))
    × (late.1
        ≡ calls 5 (Call.fetched Kind.topic_kind (name_of new_topic.metadata)) (runs 2 step []).1)
    × IsSuccess world
        (adopted world new_topic)
        "orders"
        (stored (name_of new_topic.metadata) new_topic late.1)
topic-settles_example =
    topic-settles world world-conditions world-finalizers a_cluster world-Working new_topic "orders"
      live_topic-IsNameOf (λ _ _ _ _. nothing-found) (λ _ _ _ _ _ _. (tt, tt)) (λ _ _. refl)
      (λ _ _. refl) (λ _. refl) refl refl new_topic-IsUnsettled 5

topic_reconcile-closes_example :
    open_clients (reconcile world (name_of live_topic.metadata) []).1 ≡ open_clients []
topic_reconcile-closes_example =
    topic_reconcile-closes world world-conditions (name_of live_topic.metadata) []

abbrev gone : Response
gone = record { name = "orders"; fault = some (record { code = 3; text = "UNKNOWN_TOPIC" }) }

delete_fault-NoneOrUnknownTopic_example :
    (delete_fault (gone ∷ []) ≡ ok tt) ↔ AllResponses NoneOrUnknownTopic (gone ∷ [])
delete_fault-NoneOrUnknownTopic_example = delete_fault-NoneOrUnknownTopic (gone ∷ [])

first_fault-NoFault_example :
    (first_fault "failed " (gone ∷ []) ≡ ok tt) ↔ AllResponses NoFault (gone ∷ [])
first_fault-NoFault_example = first_fault-NoFault "failed " (gone ∷ [])

-- The partition 0 does not stand first in the map's listing, and has a replica more.
abbrev orders : TopicDetail
orders = record { partitions = (1, 2 ∷ 3 ∷ []) ∷ (0, 1 ∷ 2 ∷ 3 ∷ []) ∷ (2, 3 ∷ 1 ∷ []) ∷ [] }

abbrev orders_info : TopicInfo
orders_info = record { name = "orders"; partitions = pos 3; replication_factor = pos 3 }

orders-found : found_topic "orders" (("orders", orders) ∷ []) ≡ some orders_info
unfolding found_topic topic_entry topic_info replicas_of
orders-found = refl

found_topic-Counts_example :
    (detail : TopicDetail) × Lists "orders" (("orders", orders) ∷ []) detail
    × Counts "orders" detail orders_info
found_topic-Counts_example =
    found_topic-Counts "orders" (("orders", orders) ∷ []) orders_info orders-found

found_topic-none_example :
    (found_topic "orders" [] ≡ none)
    ↔ ((detail : TopicDetail) → Lists "orders" [] detail → detail.partitions ≡ [])
found_topic-none_example = found_topic-none "orders" []

update_topic-refuses_example :
    ((update_topic world client "orders" (pos 3) (pos 2) one_partition [] []).1 ≡ [])
    × ((update_topic world client "orders" (pos 3) (pos 2) one_partition [] []).0 ≢ ok tt)
update_topic-refuses_example =
    update_topic-refuses world client "orders" [] (pos 3) (pos 2) one_partition [] (pos 3)
      (inr (ground arith, refl)) (inl (ground arith))

grown-ok :
    (update_topic world client "orders" (pos 3) (pos 1) one_partition (("a", "b") ∷ []) []).0
    ≡ ok tt
unfolding update_topic update_partitions update_configs default_one first_fault ◌>>=◌ on_error pure
    ask
grown-ok = refl

update_topic-Applied_example :
    (one_partition.replication_factor ≡ pos 1)
    × (desired : ℤ) × IsOneByDefault (pos 3) desired
    × (grown : Trace) × Grown client "orders" one_partition.partitions desired [] grown
    × Configured client "orders"
        (("a", "b") ∷ [])
        grown
        (update_topic world client "orders" (pos 3) (pos 1) one_partition (("a", "b") ∷ []) []).1
update_topic-Applied_example =
    update_topic-Applied world client "orders" [] (pos 3) (pos 1) one_partition (("a", "b") ∷ [])
      grown-ok
