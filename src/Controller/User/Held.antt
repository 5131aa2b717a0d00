-- ===== src/Controller/User/Held.antt =====
-- A user that cannot be deleted keeps its finalizer.
use bufstream_operator.Prelude.{ℕ, String, ◌≡◌, refl, true, false, [], List, ok, inr}
use bufstream_operator.Api.Meta.{NamespacedName, Error}
use bufstream_operator.Api.User.{User}
use bufstream_operator.Outside.{Outside, Trace, Handle, DeleteScram}
use bufstream_operator.Outside.Action.{◌>>=◌, ◌>>◌, on_error, pure, ask, called}
use bufstream_operator.Outside.Hoare.{Triple}
use bufstream_operator.Bufstream.Client.{Client}
use bufstream_operator.Bufstream.Responses.{
  SomeResponse, OtherThanNotFound, delete_user_fault-other,
}
use bufstream_operator.Bufstream.User.{delete_user_credentials}
use bufstream_operator.Controller.Repeats.{runs}
use bufstream_operator.Controller.Stuck.{
  Unwritten, Stuck, AllComeBack, IsRefused, refused-Failed, on_failure-Stuck, removal-Stuck,
  runs-Stuck,
}
use bufstream_operator.Controller.User.Base.{user_finalizer, emit, deletion_failed}
use bufstream_operator.Controller.User.Names.{IsDeletion}
use bufstream_operator.Controller.User.Removal.{deletion_of-IsDeletion}
use bufstream_operator.Controller.User.Remove.{delete_connected, delete_ready, reconcile_delete}
use bufstream_operator.Controller.User.Reconcile.{reconcile_fetched, reconcile}

module _ (out : Outside) (x : User)
    (refuses : (tr : Trace) (h : Handle) (deletions : List DeleteScram)
      → IsDeletion x deletions
      → IsRefused (SomeResponse OtherThanNotFound) (out.alter_user_scrams tr h deletions [])) where
  deletion_failed-Stuck :
      (prefix : String) (e : Error) → Triple Unwritten (deletion_failed x prefix e) Stuck
  unfolding deletion_failed emit ◌>>◌ called pure
  deletion_failed-Stuck prefix e = record { at = λ tr u. (inr (e, refl), u) }

  delete_connected-Stuck : (c : Client) → Triple Unwritten (delete_connected out c x) Stuck
  unfolding delete_connected delete_user_credentials
  delete_connected-Stuck c =
      on_failure-Stuck _ _ _
        (refused-Failed _ _ _ _ (λ r tr u. u) delete_user_fault-other
          (λ tr. refuses tr c.admin_client _ (deletion_of-IsDeletion x)))
        (deletion_failed-Stuck _)

  module _ (owned : out.contains_finalizer x.metadata.finalizers user_finalizer ≡ true) where
    reconcile_delete-Stuck : Triple Unwritten (reconcile_delete out x) Stuck
    unfolding reconcile_delete delete_ready
    reconcile_delete-Stuck = rw owned (
        removal-Stuck out (deletion_failed x) deletion_failed-Stuck _ _ _
          (λ c. delete_connected out c x) delete_connected-Stuck x.spec.cluster
          x.metadata.namespace)

    module _ (n : NamespacedName) (deleted : out.is_zero x.metadata.deletion_timestamp ≡ false)
        (serves : (tr : Trace) → Unwritten tr → out.get_user tr n ≡ ok x) where
      reconcile-Stuck : Triple Unwritten (reconcile out n) Stuck
      unfolding reconcile reconcile_fetched ◌>>=◌ on_error ask
      reconcile-Stuck = record {
        at = λ tr u. rw (serves tr u, deleted) (reconcile_delete-Stuck.at _ u);
      }

      -- A user that is being deleted and has the finalizer, in an API server that serves it as long
      -- as nothing is written, while brokers that are asked to delete the credentials fail or
      -- answer with an error whose text is other than RESOURCE_NOT_FOUND, such as this name with a
      -- description. From an empty history, each of any number of reconciles of its name comes
      -- back, after thirty seconds with an error, or after ten seconds for a cluster that is not
      -- ready; none writes an object or a status, so the finalizer stays. The cluster, the secrets
      -- and the connection may fail or not.
      pub user-held :
          (k : ℕ)
          → AllComeBack (runs k (reconcile out n) []).0 × Unwritten (runs k (reconcile out n) []).1
      user-held k = runs-Stuck (reconcile out n) reconcile-Stuck k [] tt
