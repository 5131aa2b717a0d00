-- ===== src/Examples/Outage.antt =====
-- A cluster whose brokers do not answer, and the resources that name it.
use bufstream_operator.Prelude.{inl, arith, refl, none, [], ok, err}
use bufstream_operator.Outside.{Outside}
use bufstream_operator.Outside.Laws.{ConditionLaws}
use bufstream_operator.Controller.Topic.Lifecycle as Topic
use bufstream_operator.Controller.User.Lifecycle as User
use bufstream_operator.Controller.Acl.Lifecycle as Acl
use bufstream_operator.Controller.Cluster.Store.{stored}
use bufstream_operator.Controller.Gates.{Gated, cluster_gates}
use bufstream_operator.Examples.World.{world, world-conditions, a_cluster, a_topic, a_user, an_acl}

abbrev outage : Outside
outage = record world {
  get_cluster = λ tr n. ok (stored n a_cluster tr);
  ping = λ _ _ _. err (record { code = 111; text = "connection refused" });
}

outage-conditions : ConditionLaws outage
outage-conditions = record {
  find-set_self = world-conditions.find-set_self;
  find-set_ne = world-conditions.find-set_ne;
}

topic-IsUnsettled : Topic.IsUnsettled outage (a_topic [] none 1 [])
topic-IsUnsettled = inl (ground arith)

user-IsUnsettled : User.IsUnsettled outage (a_user [] none 1 [])
user-IsUnsettled = inl (ground arith)

acl-IsUnsettled : Acl.IsUnsettled outage (an_acl [] none 1 [])
acl-IsUnsettled = inl (ground arith)

cluster_gates_example :
    Gated outage a_cluster (a_topic [] none 1 []) (a_user [] none 1 []) (an_acl [] none 1 [])
cluster_gates_example =
    cluster_gates outage outage-conditions (λ _ _. refl) a_cluster refl (λ _. refl)
      (a_topic [] none 1 []) (a_user [] none 1 []) (an_acl [] none 1 []) topic-IsUnsettled
      user-IsUnsettled acl-IsUnsettled refl refl refl
