-- ===== src/Controller/Gates.antt =====
-- The cluster controller and the others together: what the API server keeps of a cluster after its
-- reconcile decides whether the resources that name it go on.
use bufstream_operator.Prelude.{
  String, ◌≡◌, refl, ◌∙◌, ◌⊎◌, inl, inr, true, false, some, [], ◌∷◌, ok, not, if◌then◌else◌,
}
use bufstream_operator.Api.Meta.{NamespacedName, condition_true, condition_false}
use bufstream_operator.Api.Cluster.{Cluster}
use bufstream_operator.Api.Topic.{Topic}
use bufstream_operator.Api.User.{User}
use bufstream_operator.Api.Acl.{Acl}
use bufstream_operator.Outside.{Outside, Call, Object, Kind, Trace}
use bufstream_operator.Outside.Action.{Action, pure, ◌>>=◌, on_error, ask}
use bufstream_operator.Outside.Laws.{ConditionLaws}
use bufstream_operator.Controller.Common.{
  Outcome, after, name_of, type_ready, cluster_not_ready_requeue, cluster_health_check_interval,
}
use bufstream_operator.Controller.Conditions.{status_of, is_true-of_status, is_true-of_status_false}
use bufstream_operator.Controller.Helpers.{get_cluster, is_cluster_ready}
use bufstream_operator.Controller.Repeats.{is_named_self}
use bufstream_operator.Controller.Cluster.{reconcile_cluster, reconcile}
use bufstream_operator.Controller.Cluster.Health.{IsReachable}
use bufstream_operator.Controller.Cluster.Store.{stored}
use bufstream_operator.Controller.Cluster.Gate.{Decided, reconcile_cluster-Decided}
use bufstream_operator.Controller.Topic.Apply as Topic
use bufstream_operator.Controller.Topic.Lifecycle as TopicLifecycle
use bufstream_operator.Controller.User.Apply as User
use bufstream_operator.Controller.User.Lifecycle as UserLifecycle
use bufstream_operator.Controller.Acl.Apply as Acl
use bufstream_operator.Controller.Acl.Lifecycle as AclLifecycle

-- The name of the cluster that a resource refers to.
abbrev pub cluster_of : String → String → NamespacedName
cluster_of name namespace = record { name = name; namespace = namespace }

abbrev pub fetch : NamespacedName → Call
fetch n = Call.fetched Kind.cluster_kind n

-- The reconcile of a resource waits ten seconds, with no call but the fetch of the cluster, or goes
-- on with what was fetched.
abbrev pub Waits : Action Outcome → NamespacedName → Trace → Type 0
Waits m n tr = m tr ≡ (after cluster_not_ready_requeue, fetch n ∷ tr)

abbrev pub GoesOn : Action Outcome → Action Outcome → NamespacedName → Trace → Type 0
GoesOn m rest n tr = m tr ≡ rest (fetch n ∷ tr)

module _ (out : Outside) where
  cluster_ready :
      (c : Cluster)
      → status_of out c.status.conditions type_ready ≡ some condition_true
      → is_cluster_ready out c ≡ true
  unfolding is_cluster_ready
  cluster_ready c h = is_true-of_status out c.status.conditions h

  cluster_unready :
      (c : Cluster)
      → status_of out c.status.conditions type_ready ≡ some condition_false
      → is_cluster_ready out c ≡ false
  unfolding is_cluster_ready
  cluster_unready c h = is_true-of_status_false out c.status.conditions h

  module _ (t : Topic) (unsettled : TopicLifecycle.IsUnsettled out t) (n : NamespacedName)
      (named : cluster_of t.spec.cluster t.metadata.namespace ≡ n) (c : Cluster) (tr : Trace)
      (serves : out.get_cluster tr n ≡ ok c) where
    topic_gate :
        Topic.reconcile_topic out t tr
        ≡ (if not (is_cluster_ready out c)
              then pure (after cluster_not_ready_requeue)
              else Topic.reconcile_ready out c t)
            (fetch n ∷ tr)
    unfolding Topic.reconcile_topic get_cluster ◌>>=◌ on_error ask pure
    topic_gate = rw (TopicLifecycle.is_reconciled-IsUnsettled out t unsettled, named, serves) refl

    topic-Waits :
        status_of out c.status.conditions type_ready ≡ some condition_false
        → Waits (Topic.reconcile_topic out t) n tr
    unfolding pure
    topic-Waits h = topic_gate ∙ rw (cluster_unready c h) refl

    topic-GoesOn :
        status_of out c.status.conditions type_ready ≡ some condition_true
        → GoesOn (Topic.reconcile_topic out t) (Topic.reconcile_ready out c t) n tr
    topic-GoesOn h = topic_gate ∙ rw (cluster_ready c h) refl

  module _ (u : User) (unsettled : UserLifecycle.IsUnsettled out u) (n : NamespacedName)
      (named : cluster_of u.spec.cluster u.metadata.namespace ≡ n) (c : Cluster) (tr : Trace)
      (serves : out.get_cluster tr n ≡ ok c) where
    user_gate :
        User.reconcile_user out u tr
        ≡ (if not (is_cluster_ready out c)
              then pure (after cluster_not_ready_requeue)
              else User.reconcile_ready out c u)
            (fetch n ∷ tr)
    unfolding User.reconcile_user get_cluster ◌>>=◌ on_error ask pure
    user_gate = rw (UserLifecycle.is_reconciled-IsUnsettled out u unsettled, named, serves) refl

    user-Waits :
        status_of out c.status.conditions type_ready ≡ some condition_false
        → Waits (User.reconcile_user out u) n tr
    unfolding pure
    user-Waits h = user_gate ∙ rw (cluster_unready c h) refl

    user-GoesOn :
        status_of out c.status.conditions type_ready ≡ some condition_true
        → GoesOn (User.reconcile_user out u) (User.reconcile_ready out c u) n tr
    user-GoesOn h = user_gate ∙ rw (cluster_ready c h) refl

  module _ (a : Acl) (unsettled : AclLifecycle.IsUnsettled out a) (n : NamespacedName)
      (named : cluster_of a.spec.cluster a.metadata.namespace ≡ n) (c : Cluster) (tr : Trace)
      (serves : out.get_cluster tr n ≡ ok c) where
    acl_gate :
        Acl.reconcile_acl out a tr
        ≡ (if not (is_cluster_ready out c)
              then pure (after cluster_not_ready_requeue)
              else Acl.reconcile_ready out c a)
            (fetch n ∷ tr)
    unfolding Acl.reconcile_acl get_cluster ◌>>=◌ on_error ask pure
    acl_gate = rw (AclLifecycle.is_reconciled-IsUnsettled out a unsettled, named, serves) refl

    acl-Waits :
        status_of out c.status.conditions type_ready ≡ some condition_false
        → Waits (Acl.reconcile_acl out a) n tr
    unfolding pure
    acl-Waits h = acl_gate ∙ rw (cluster_unready c h) refl

    acl-GoesOn :
        status_of out c.status.conditions type_ready ≡ some condition_true
        → GoesOn (Acl.reconcile_acl out a) (Acl.reconcile_ready out c a) n tr
    acl-GoesOn h = acl_gate ∙ rw (cluster_ready c h) refl

-- What a reconcile of the cluster decides for a topic, a user and an ACL.
abbrev pub Gated : Outside → Cluster → Topic → User → Acl → Type 0
Gated out c₀ t u a =
    let n = name_of c₀.metadata in
    let done = reconcile out n [] in
    let tr = done.1 in
    let now = stored n c₀ tr in
    (done.0 ≡ after cluster_health_check_interval)
    × (((status_of out now.status.conditions type_ready ≡ some condition_false)
          × Waits (Topic.reconcile_topic out t) n tr
          × Waits (User.reconcile_user out u) n tr
          × Waits (Acl.reconcile_acl out a) n tr)
        ⊎ ((status_of out now.status.conditions type_ready ≡ some condition_true)
            × IsReachable tr
            × GoesOn (Topic.reconcile_topic out t) (Topic.reconcile_ready out now t) n tr
            × GoesOn (User.reconcile_user out u) (User.reconcile_ready out now u) n tr
            × GoesOn (Acl.reconcile_acl out a) (Acl.reconcile_ready out now a) n tr))

module _ (out : Outside) (laws : ConditionLaws out)
    (stores : (tr : Trace) (x : Object) → out.update_status tr x ≡ ok tt) (c₀ : Cluster)
    (live : out.is_zero c₀.metadata.deletion_timestamp ≡ true)
    (serves : (tr : Trace)
      → out.get_cluster tr (name_of c₀.metadata) ≡ ok (stored (name_of c₀.metadata) c₀ tr)) where
  reconcile-first :
      reconcile out (name_of c₀.metadata) []
      ≡ reconcile_cluster out c₀ (fetch (name_of c₀.metadata) ∷ [])
  unfolding reconcile ◌>>=◌ on_error ask
  reconcile-first = rw (serves [], live) refl

  -- A cluster that is not being deleted and that nobody but the controller writes, in an API server
  -- that accepts statuses and serves what was written; and a topic, a user and an ACL of this
  -- cluster that are not settled. However the brokers and the secrets answer, a reconcile of the
  -- cluster from an empty history comes back after ten seconds; and either the API server keeps it
  -- as not ready, and the reconciles of the three then return after ten seconds with no call but
  -- the fetch of the cluster; or it keeps it as ready, the brokers have answered a listing, and the
  -- reconciles of the three go on with the cluster as it is kept. Under the documented laws of
  -- SetStatusCondition.
  pub cluster_gates :
      (t : Topic) (u : User) (a : Acl)
      → TopicLifecycle.IsUnsettled out t
      → UserLifecycle.IsUnsettled out u
      → AclLifecycle.IsUnsettled out a
      → cluster_of t.spec.cluster t.metadata.namespace ≡ name_of c₀.metadata
      → cluster_of u.spec.cluster u.metadata.namespace ≡ name_of c₀.metadata
      → cluster_of a.spec.cluster a.metadata.namespace ≡ name_of c₀.metadata
      → Gated out c₀ t u a
  cluster_gates t u a ut uu ua nt nu na =
      let n = name_of c₀.metadata in
      let tr = (reconcile out n []).1 in
      let now = stored n c₀ tr in
      let decided : Decided out laws stores n c₀ c₀ (is_named_self c₀.metadata)
          (reconcile out n []).0 tr =
        rw reconcile-first (
          (reconcile_cluster-Decided out laws stores n c₀ c₀ (is_named_self c₀.metadata)).at _
            tt) in
      (
        decided.0,
        elim decided.1 [
          | inl refused ↦ inl (
            refused,
            topic-Waits out t ut n nt now tr (serves tr) refused,
            user-Waits out u uu n nu now tr (serves tr) refused,
            acl-Waits out a ua n na now tr (serves tr) refused,
          )
          | inr (ready, reached) ↦ inr (
            ready,
            reached,
            topic-GoesOn out t ut n nt now tr (serves tr) ready,
            user-GoesOn out u uu n nu now tr (serves tr) ready,
            acl-GoesOn out a ua n na now tr (serves tr) ready,
          )
        ],
      )
