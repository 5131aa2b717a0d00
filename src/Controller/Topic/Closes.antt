-- ===== src/Controller/Topic/Closes.antt =====
-- What `Reconcile` does with its Kafka clients, over all of its branches.
use bufstream_operator.Prelude.{◌≡◌, refl, not, List}
use bufstream_operator.Api.Meta.{NamespacedName}
use bufstream_operator.Api.Topic.{Topic}
use bufstream_operator.Outside.{Outside, Handle, Trace}
use bufstream_operator.Outside.Laws.{ConditionLaws}
use bufstream_operator.Outside.Hoare.{
  Keeps, keeps_rules, Keeps-bind, Keeps-on_error, Keeps-ask, Keeps-if,
}
use bufstream_operator.Controller.Connections.{Open, open_clients}
use bufstream_operator.Controller.Topic.Base.{topic_finalizer}
use bufstream_operator.Controller.Topic.Reconcile.{adopt, reconcile_fetched, reconcile}
use bufstream_operator.Controller.Topic.Readiness.{reconcile_topic-Open}
use bufstream_operator.Controller.Topic.Finalizer.{topic_removal-Open}

module _ (out : Outside) (laws : ConditionLaws out) (hs : List Handle) where
  adopt-Open : (t : Topic) → Keeps (Open hs) (adopt out t)
  unfolding adopt
  adopt-Open t = Keeps-bind _ _ (Keeps-ask _ _ (λ answer tr h. h)) (λ r. search keeps_rules)

  reconcile_fetched-Open : (t : Topic) → Keeps (Open hs) (reconcile_fetched out t)
  unfolding reconcile_fetched
  reconcile_fetched-Open t =
      Keeps-if (not (out.is_zero t.metadata.deletion_timestamp)) _ _
        (λ _. topic_removal-Open out t hs)
        (λ _.
          Keeps-if (not (out.contains_finalizer t.metadata.finalizers topic_finalizer)) _ _
            (λ _. adopt-Open t) (λ _. reconcile_topic-Open out t laws hs))

  reconcile-Open : (request : NamespacedName) → Keeps (Open hs) (reconcile out request)
  unfolding reconcile
  reconcile-Open request =
      Keeps-bind _ _ (Keeps-ask _ _ (λ answer tr h. h))
        (λ fetched. Keeps-on_error fetched _ _ (λ e. search keeps_rules) reconcile_fetched-Open)

-- Under the documented laws of SetStatusCondition, every Kafka client that a `Reconcile` of the
-- topic controller opens is closed when it returns, on each path, deletion and failures included.
pub topic_reconcile-closes :
    (out : Outside) (laws : ConditionLaws out) (request : NamespacedName) (tr : Trace)
    → open_clients (reconcile out request tr).1 ≡ open_clients tr
topic_reconcile-closes out laws request tr =
    (reconcile-Open out laws (open_clients tr) request).at tr refl
