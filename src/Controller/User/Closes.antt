-- ===== src/Controller/User/Closes.antt =====
-- What `Reconcile` does with its Kafka clients, over all of its branches.
use bufstream_operator.Prelude.{◌≡◌, refl, not, List}
use bufstream_operator.Api.Meta.{NamespacedName}
use bufstream_operator.Api.User.{User}
use bufstream_operator.Outside.{Outside, Handle, Trace}
use bufstream_operator.Outside.Laws.{ConditionLaws}
use bufstream_operator.Outside.Hoare.{
  Keeps, keeps_rules, Keeps-bind, Keeps-on_error, Keeps-ask, Keeps-if,
}
use bufstream_operator.Controller.Connections.{Open, open_clients}
use bufstream_operator.Controller.User.Base.{user_finalizer}
use bufstream_operator.Controller.User.Reconcile.{adopt, reconcile_fetched, reconcile}
use bufstream_operator.Controller.User.Readiness.{reconcile_user-Open}
use bufstream_operator.Controller.User.Finalizer.{user_removal-Open}

module _ (out : Outside) (laws : ConditionLaws out) (hs : List Handle) where
  adopt-Open : (u : User) → Keeps (Open hs) (adopt out u)
  unfolding adopt
  adopt-Open u = Keeps-bind _ _ (Keeps-ask _ _ (λ answer tr h. h)) (λ r. search keeps_rules)

  reconcile_fetched-Open : (u : User) → Keeps (Open hs) (reconcile_fetched out u)
  unfolding reconcile_fetched
  reconcile_fetched-Open u =
      Keeps-if (not (out.is_zero u.metadata.deletion_timestamp)) _ _
        (λ _. user_removal-Open out u hs)
        (λ _.
          Keeps-if (not (out.contains_finalizer u.metadata.finalizers user_finalizer)) _ _
            (λ _. adopt-Open u) (λ _. reconcile_user-Open out u laws hs))

  reconcile-Open : (request : NamespacedName) → Keeps (Open hs) (reconcile out request)
  unfolding reconcile
  reconcile-Open request =
      Keeps-bind _ _ (Keeps-ask _ _ (λ answer tr h. h))
        (λ fetched. Keeps-on_error fetched _ _ (λ e. search keeps_rules) reconcile_fetched-Open)

-- Under the documented laws of SetStatusCondition, every Kafka client that a `Reconcile` of the
-- user controller opens is closed when it returns, on each path, deletion and failures included.
pub user_reconcile-closes :
    (out : Outside) (laws : ConditionLaws out) (request : NamespacedName) (tr : Trace)
    → open_clients (reconcile out request tr).1 ≡ open_clients tr
user_reconcile-closes out laws request tr =
    (reconcile-Open out laws (open_clients tr) request).at tr refl
