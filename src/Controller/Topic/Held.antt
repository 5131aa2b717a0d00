-- ===== src/Controller/Topic/Held.antt =====
-- A topic that cannot be deleted keeps its finalizer.
use bufstream_operator.Prelude.{ℕ, String, ◌≡◌, refl, true, false, [], ok, inr}
use bufstream_operator.Api.Meta.{NamespacedName, Error}
use bufstream_operator.Api.Topic.{Topic}
use bufstream_operator.Outside.{Outside, Trace, Handle}
use bufstream_operator.Outside.Action.{◌>>=◌, ◌>>◌, on_error, pure, ask, called}
use bufstream_operator.Outside.Hoare.{Triple}
use bufstream_operator.Bufstream.Client.{Client}
use bufstream_operator.Bufstream.Responses.{SomeResponse, OtherThanUnknownTopic, delete_fault-other}
use bufstream_operator.Bufstream.Topic.{delete_topic}
use bufstream_operator.Controller.Repeats.{runs}
use bufstream_operator.Controller.Stuck.{
  Unwritten, Stuck, AllComeBack, IsRefused, refused-Failed, on_failure-Stuck, removal-Stuck,
  runs-Stuck,
}
use bufstream_operator.Controller.Topic.Base.{topic_finalizer, emit, deletion_failed}
use bufstream_operator.Controller.Topic.Names.{IsNameOf, topic_name-IsNameOf}
use bufstream_operator.Controller.Topic.Remove.{delete_connected, delete_ready, reconcile_delete}
use bufstream_operator.Controller.Topic.Reconcile.{reconcile_fetched, reconcile}

module _ (out : Outside) (x : Topic)
    (refuses : (tr : Trace) (h : Handle) (name : String)
      → IsNameOf x name
      → IsRefused (SomeResponse OtherThanUnknownTopic) (out.delete_topics tr h name)) where
  deletion_failed-Stuck :
      (prefix : String) (e : Error) → Triple Unwritten (deletion_failed x prefix e) Stuck
  unfolding deletion_failed emit ◌>>◌ called pure
  deletion_failed-Stuck prefix e = record { at = λ tr u. (inr (e, refl), u) }

  delete_connected-Stuck : (c : Client) → Triple Unwritten (delete_connected out c x) Stuck
  unfolding delete_connected delete_topic
  delete_connected-Stuck c =
      on_failure-Stuck _ _ _
        (refused-Failed _ _ _ _ (λ r tr u. u) delete_fault-other
          (λ tr. refuses tr c.admin_client _ (topic_name-IsNameOf x)))
        (deletion_failed-Stuck _)

  module _ (owned : out.contains_finalizer x.metadata.finalizers topic_finalizer ≡ true) where
    reconcile_delete-Stuck : Triple Unwritten (reconcile_delete out x) Stuck
    unfolding reconcile_delete delete_ready
    reconcile_delete-Stuck = rw owned (
        removal-Stuck out (deletion_failed x) deletion_failed-Stuck _ _ _
          (λ c. delete_connected out c x) delete_connected-Stuck x.spec.cluster
          x.metadata.namespace)

    module _ (n : NamespacedName) (deleted : out.is_zero x.metadata.deletion_timestamp ≡ false)
        (serves : (tr : Trace) → Unwritten tr → out.get_topic tr n ≡ ok x) where
      reconcile-Stuck : Triple Unwritten (reconcile out n) Stuck
      unfolding reconcile reconcile_fetched ◌>>=◌ on_error ask
      reconcile-Stuck = record {
        at = λ tr u. rw (serves tr u, deleted) (reconcile_delete-Stuck.at _ u);
      }

      -- A topic that is being deleted and has the finalizer, in an API server that serves it as
      -- long as nothing is written, while brokers that are asked to delete the topic fail or answer
      -- with an error whose text is other than UNKNOWN_TOPIC_OR_PARTITION and UNKNOWN_TOPIC, such
      -- as one of these names with a description. From an empty history, each of any number of
      -- reconciles of its name comes back, after thirty seconds with an error, or after ten
      -- seconds for a cluster that is not ready; none writes an object or a status, so the
      -- finalizer stays. The cluster, the secrets and the connection may fail or not.
      pub topic-held :
          (k : ℕ)
          → AllComeBack (runs k (reconcile out n) []).0 × Unwritten (runs k (reconcile out n) []).1
      topic-held k = runs-Stuck (reconcile out n) reconcile-Stuck k [] tt
