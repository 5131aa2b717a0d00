-- ===== src/Controller/Acl/Closes.antt =====
-- What `Reconcile` does with its Kafka clients, over all of its branches.
use bufstream_operator.Prelude.{◌≡◌, refl, not, List}
use bufstream_operator.Api.Meta.{NamespacedName}
use bufstream_operator.Api.Acl.{Acl}
use bufstream_operator.Outside.{Outside, Handle, Trace}
use bufstream_operator.Outside.Laws.{ConditionLaws}
use bufstream_operator.Outside.Hoare.{
  Keeps, keeps_rules, Keeps-bind, Keeps-on_error, Keeps-ask, Keeps-if,
}
use bufstream_operator.Controller.Connections.{Open, open_clients}
use bufstream_operator.Controller.Acl.Base.{acl_finalizer}
use bufstream_operator.Controller.Acl.Reconcile.{adopt, reconcile_fetched, reconcile}
use bufstream_operator.Controller.Acl.Readiness.{reconcile_acl-Open}
use bufstream_operator.Controller.Acl.Finalizer.{acl_removal-Open}

module _ (out : Outside) (laws : ConditionLaws out) (hs : List Handle) where
  adopt-Open : (a : Acl) → Keeps (Open hs) (adopt out a)
  unfolding adopt
  adopt-Open a = Keeps-bind _ _ (Keeps-ask _ _ (λ answer tr h. h)) (λ r. search keeps_rules)

  reconcile_fetched-Open : (a : Acl) → Keeps (Open hs) (reconcile_fetched out a)
  unfolding reconcile_fetched
  reconcile_fetched-Open a =
      Keeps-if (not (out.is_zero a.metadata.deletion_timestamp)) _ _
        (λ _. acl_removal-Open out a hs)
        (λ _.
          Keeps-if (not (out.contains_finalizer a.metadata.finalizers acl_finalizer)) _ _
            (λ _. adopt-Open a) (λ _. reconcile_acl-Open out a laws hs))

  reconcile-Open : (request : NamespacedName) → Keeps (Open hs) (reconcile out request)
  unfolding reconcile
  reconcile-Open request =
      Keeps-bind _ _ (Keeps-ask _ _ (λ answer tr h. h))
        (λ fetched. Keeps-on_error fetched _ _ (λ e. search keeps_rules) reconcile_fetched-Open)

-- Under the documented laws of SetStatusCondition, every Kafka client that a `Reconcile` of the
-- acl controller opens is closed when it returns, on each path, deletion and failures included.
pub acl_reconcile-closes :
    (out : Outside) (laws : ConditionLaws out) (request : NamespacedName) (tr : Trace)
    → open_clients (reconcile out request tr).1 ≡ open_clients tr
acl_reconcile-closes out laws request tr =
    (reconcile-Open out laws (open_clients tr) request).at tr refl
