-- ===== src/Controller/User/Completes.antt =====
-- A deletion of a user that meets no obstacle runs to its end.
use bufstream_operator.Prelude.{◌≡◌, refl, true, String, List, ⊤, ok, inl, inr, not, if◌then◌else◌}
use bufstream_operator.Api.User.{User}
use bufstream_operator.Api.Cluster.{Cluster}
use bufstream_operator.Outside.{
  Outside, Call, Object, Trace, Handle, Response, DeleteScram, UpsertScram,
}
use bufstream_operator.Outside.Action.{◌>>=◌, on_error, pure, ask}
use bufstream_operator.Outside.Progress.{
  Ends, Returns, IsOk, Some, Returns-ask, Returns-pure, Returns-ok, Ends-ok, Ends-then,
}
use bufstream_operator.Bufstream.Client.{Client, ScramMechanism}
use bufstream_operator.Bufstream.Responses.{
  AllResponses, NoneOrNotFound, delete_user_fault-NoneOrNotFound,
}
use bufstream_operator.Bufstream.User.{delete_user_credentials, delete_user_fault}
use bufstream_operator.Controller.Common.{Outcome, done, after, cluster_not_ready_requeue}
use bufstream_operator.Controller.Helpers.{is_cluster_ready}
use bufstream_operator.Controller.Working.{Working, get_cluster-Returns, session-Ends}
use bufstream_operator.Controller.User.Base.{user_finalizer}
use bufstream_operator.Controller.User.Removal.{released}
use bufstream_operator.Controller.User.Remove.{
  release, delete_connected, delete_ready, reconcile_delete,
}

-- The reconcile is done, and has removed the finalizer.
abbrev pub Released : Outside → User → Outcome → Trace → Type 0
Released out t o tr =
    (o ≡ done) × Some (λ c. c ≡ Call.updated (Object.user (released out t)) (ok tt)) tr

module _ (out : Outside) (cluster : Cluster) (w : Working out cluster) (t : User)
    (deletes : (tr : Trace) (h : Handle) (ds : List DeleteScram) (us : List UpsertScram)
      → IsOk (AllResponses NoneOrNotFound) (out.alter_user_scrams tr h ds us))
    (updates : (tr : Trace) → out.update tr (Object.user (released out t)) ≡ ok tt) where
  deleted-IsOk :
      (rs : List Response) → AllResponses NoneOrNotFound rs → IsOk (λ _. ⊤) (delete_user_fault rs)
  deleted-IsOk rs h = rw ((delete_user_fault-NoneOrNotFound rs).1 h) tt

  delete_user_credentials-Returns :
      (c : Client) (name : String) (m : ScramMechanism)
      → Returns (delete_user_credentials out c name m) (λ _. ⊤)
  unfolding delete_user_credentials
  delete_user_credentials-Returns c name m =
      Returns-ok {Good = AllResponses NoneOrNotFound} _ _ _
        (Returns-ask _ _ (λ tr. deletes tr _ _ _)) (λ rs h. Returns-pure _ (deleted-IsOk rs h))

  release-Released : Ends (release out t) (Released out t)
  unfolding release ◌>>=◌ on_error pure ask
  release-Released = record { at = λ tr. rw (updates tr) (refl, inl refl) }

  delete_connected-Released : (c : Client) → Ends (delete_connected out c t) (Released out t)
  unfolding delete_connected
  delete_connected-Released c =
      Ends-ok {Good = λ _. ⊤} _ _ _ (delete_user_credentials-Returns c _ _)
        (λ _ _. Ends-then _ _ release-Released)

  delete_ready-Released : Ends (delete_ready out cluster t) (Released out t)
  unfolding delete_ready
  delete_ready-Released =
      Ends-ok {Good = λ _. ⊤} _ _ _ w.credentials
        (λ s _. session-Ends w _ s _ _ (λ o c tr h. (h.0, inr (inr h.1))) delete_connected-Released)

  found-Released :
      (c : Cluster)
      → c ≡ cluster
      → Ends
          (if not (is_cluster_ready out c)
            then pure (after cluster_not_ready_requeue)
            else delete_ready out c t)
          (Released out t)
  found-Released c e = rw (e, w.ready) delete_ready-Released

  -- Where the user being deleted has the finalizer, its cluster is ready, the credentials can be
  -- read, the brokers accept the connection and answer the deletion of the credentials without an
  -- error, or with errors whose text is exactly RESOURCE_NOT_FOUND, and the API server accepts the
  -- write, the reconcile returns with nothing left to do, having written the object without the
  -- finalizer.
  pub user_removal-completes :
      out.contains_finalizer t.metadata.finalizers user_finalizer ≡ true
      → (tr : Trace) → Released out t (reconcile_delete out t tr).0 (reconcile_delete out t tr).1
  unfolding reconcile_delete
  user_removal-completes h tr =
      rw h
        ((Ends-ok {Good = λ c. c ≡ cluster} _ _ _ (get_cluster-Returns w _ _) found-Released).at tr)
