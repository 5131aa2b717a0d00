-- ===== src/Controller/Topic/Leaves.antt =====
-- The end of a topic, where nothing fails: what it stands for is deleted, the finalizer is
-- removed, and then there is nothing left to reconcile.
use bufstream_operator.Prelude.{ℕ, suc, String, ◌≡◌, refl, true, false, [], ◌∷◌, ok, err, inr}
use bufstream_operator.Api.Meta.{NamespacedName, Fault}
use bufstream_operator.Api.Cluster.{Cluster}
use bufstream_operator.Api.Topic.{Topic}
use bufstream_operator.Outside.{Outside, Call, Object, Kind, Trace, Handle}
use bufstream_operator.Outside.Action.{◌>>=◌, on_error, pure, ask}
use bufstream_operator.Outside.Progress.{IsOk, Some}
use bufstream_operator.Bufstream.Responses.{AllResponses, NoneOrUnknownTopic}
use bufstream_operator.Controller.Common.{done}
use bufstream_operator.Controller.Repeats.{runs, replicate, calls, runs-rest}
use bufstream_operator.Controller.Working.{Working}
use bufstream_operator.Controller.Topic.Base.{topic_finalizer}
use bufstream_operator.Controller.Topic.Remove.{reconcile_delete}
use bufstream_operator.Controller.Topic.Removal.{released}
use bufstream_operator.Controller.Topic.Reconcile.{reconcile_fetched, reconcile}
use bufstream_operator.Controller.Topic.Completes.{Released, topic_removal-completes}

abbrev fetch : NamespacedName → Call
fetch n = Call.fetched Kind.topic_kind n

-- The object has been written without the finalizer.
abbrev pub Freed : Outside → Topic → Trace → Type 0
Freed out x tr = Some (λ c. c ≡ Call.updated (Object.topic (released out x)) (ok tt)) tr

module _ (out : Outside) (cluster : Cluster) (w : Working out cluster) (x : Topic)
    (deletes : (tr : Trace) (h : Handle) (name : String)
      → IsOk (AllResponses NoneOrUnknownTopic) (out.delete_topics tr h name))
    (updates : (tr : Trace) → out.update tr (Object.topic (released out x)) ≡ ok tt)
    (n : NamespacedName) (gone : Fault) (not_found : out.is_not_found gone ≡ true)
    (serves : out.get_topic [] n ≡ ok x)
    (forgets : (tr : Trace) → Freed out x tr → out.get_topic tr n ≡ err gone) where
  rests : (tr : Trace) → Freed out x tr → reconcile out n tr ≡ (done, fetch n ∷ tr)
  unfolding reconcile ◌>>=◌ on_error ask pure
  rests tr freed = rw (forgets tr freed, not_found) refl

  module _ (deleted : out.is_zero x.metadata.deletion_timestamp ≡ false)
      (owned : out.contains_finalizer x.metadata.finalizers topic_finalizer ≡ true) where
    reconcile-first : reconcile out n [] ≡ reconcile_delete out x (fetch n ∷ [])
    unfolding reconcile reconcile_fetched ◌>>=◌ on_error ask
    reconcile-first = rw (serves, deleted) refl

    first-Released : Released out x (reconcile out n []).0 (reconcile out n []).1
    first-Released =
        rw reconcile-first
          (topic_removal-completes out cluster w x deletes updates owned (fetch n ∷ []))

    -- A topic that is being deleted and has the finalizer, in an API server that serves it, accepts
    -- the write that removes the finalizer and serves nothing of this name from then on; its
    -- cluster is ready, the credentials can be read, and the brokers accept the connection and
    -- answer the deletion of the topic without an error, or with errors whose text is exactly
    -- UNKNOWN_TOPIC_OR_PARTITION or UNKNOWN_TOPIC. From an empty history, each of any number of
    -- reconciles of its name, at least one, returns with nothing left to do; the first one writes
    -- the object without the finalizer, and the later ones make no call but the fetch of the topic.
    pub topic-leaves :
        (k : ℕ)
        → let late = runs (suc k) (reconcile out n) [] in
          (late.0 ≡ replicate (suc k) done)
          × (late.1 ≡ calls k (fetch n) (reconcile out n []).1)
          × Freed out x (reconcile out n []).1
    topic-leaves k =
        let later =
          runs-rest (reconcile out n) done (fetch n) (Freed out x) rests (λ tr h. inr h) k
            (reconcile out n []).1 first-Released.1 in
        rw (later.0, first-Released.0) (refl, refl, first-Released.1)
