-- ===== src/Controller/Topic/Completes.antt =====
-- A deletion of a topic that meets no obstacle runs to its end.
use bufstream_operator.Prelude.{◌≡◌, refl, true, String, List, ⊤, ok, inl, inr, not, if◌then◌else◌}
use bufstream_operator.Api.Topic.{Topic}
use bufstream_operator.Api.Cluster.{Cluster}
use bufstream_operator.Outside.{Outside, Call, Object, Trace, Handle, Response}
use bufstream_operator.Outside.Action.{◌>>=◌, on_error, pure, ask}
use bufstream_operator.Outside.Progress.{
  Ends, Returns, IsOk, Some, Returns-ask, Returns-pure, Returns-ok, Ends-ok, Ends-then,
}
use bufstream_operator.Bufstream.Client.{Client}
use bufstream_operator.Bufstream.Responses.{
  AllResponses, NoneOrUnknownTopic, delete_fault-NoneOrUnknownTopic,
}
use bufstream_operator.Bufstream.Topic.{delete_topic, delete_fault}
use bufstream_operator.Controller.Common.{Outcome, done, after, cluster_not_ready_requeue}
use bufstream_operator.Controller.Helpers.{is_cluster_ready}
use bufstream_operator.Controller.Working.{Working, get_cluster-Returns, session-Ends}
use bufstream_operator.Controller.Topic.Base.{topic_finalizer}
use bufstream_operator.Controller.Topic.Removal.{released}
use bufstream_operator.Controller.Topic.Remove.{
  release, delete_connected, delete_ready, reconcile_delete,
}

-- The reconcile is done, and has removed the finalizer.
abbrev pub Released : Outside → Topic → Outcome → Trace → Type 0
Released out t o tr =
    (o ≡ done) × Some (λ c. c ≡ Call.updated (Object.topic (released out t)) (ok tt)) tr

module _ (out : Outside) (cluster : Cluster) (w : Working out cluster) (t : Topic)
    (deletes : (tr : Trace) (h : Handle) (name : String)
      → IsOk (AllResponses NoneOrUnknownTopic) (out.delete_topics tr h name))
    (updates : (tr : Trace) → out.update tr (Object.topic (released out t)) ≡ ok tt) where
  deleted-IsOk :
      (rs : List Response) → AllResponses NoneOrUnknownTopic rs → IsOk (λ _. ⊤) (delete_fault rs)
  deleted-IsOk rs h = rw ((delete_fault-NoneOrUnknownTopic rs).1 h) tt

  delete_topic-Returns : (c : Client) (name : String) → Returns (delete_topic out c name) (λ _. ⊤)
  unfolding delete_topic
  delete_topic-Returns c name =
      Returns-ok {Good = AllResponses NoneOrUnknownTopic} _ _ _
        (Returns-ask _ _ (λ tr. deletes tr _ name)) (λ rs h. Returns-pure _ (deleted-IsOk rs h))

  release-Released : Ends (release out t) (Released out t)
  unfolding release ◌>>=◌ on_error pure ask
  release-Released = record { at = λ tr. rw (updates tr) (refl, inl refl) }

  delete_connected-Released : (c : Client) → Ends (delete_connected out c t) (Released out t)
  unfolding delete_connected
  delete_connected-Released c =
      Ends-ok {Good = λ _. ⊤} _ _ _ (delete_topic-Returns c _)
        (λ _ _. Ends-then _ _ release-Released)

  delete_ready-Released : Ends (delete_ready out cluster t) (Released out t)
  unfolding delete_ready
  delete_ready-Released =
      Ends-ok {Good = λ _. ⊤} _ _ _ w.credentials
        (λ s _. session-Ends w _ s _ _ (λ o c tr h. (h.0, inr (inr h.1))) delete_connected-Released)

  found-Released :
      (c : Cluster)
      → c ≡ cluster
      → Ends
          (if not (is_cluster_ready out c)
            then pure (after cluster_not_ready_requeue)
            else delete_ready out c t)
          (Released out t)
  found-Released c e = rw (e, w.ready) delete_ready-Released

  -- Where the topic being deleted has the finalizer, its cluster is ready, the credentials can be
  -- read, the brokers accept the connection and answer the deletion of the topic without an error,
  -- or with errors whose text is exactly UNKNOWN_TOPIC_OR_PARTITION or UNKNOWN_TOPIC, and the API
  -- server accepts the write, the reconcile returns with nothing left to do, having written the
  -- object without the finalizer.
  pub topic_removal-completes :
      out.contains_finalizer t.metadata.finalizers topic_finalizer ≡ true
      → (tr : Trace) → Released out t (reconcile_delete out t tr).0 (reconcile_delete out t tr).1
  unfolding reconcile_delete
  topic_removal-completes h tr =
      rw h
        ((Ends-ok {Good = λ c. c ≡ cluster} _ _ _ (get_cluster-Returns w _ _) found-Released).at tr)
