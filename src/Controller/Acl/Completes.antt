-- ===== src/Controller/Acl/Completes.antt =====
-- A deletion of an ACL that meets no obstacle runs to its end.
use bufstream_operator.Prelude.{◌≡◌, refl, true, Option, List, ⊤, ok, inl, inr, not, if◌then◌else◌}
use bufstream_operator.Api.Meta.{Fault}
use bufstream_operator.Api.Acl.{Acl}
use bufstream_operator.Api.Cluster.{Cluster}
use bufstream_operator.Outside.{Outside, Call, Object, Trace, Handle, AclStep}
use bufstream_operator.Outside.Action.{◌>>=◌, on_error, pure, ask}
use bufstream_operator.Outside.Progress.{
  Ends, Returns, IsOk, Some, Returns-ask, Returns-pure, Returns-ok, Ends-ok, Ends-then,
}
use bufstream_operator.Bufstream.Client.{Client}
use bufstream_operator.Bufstream.Responses.{
  AllFaults, NoneOrNotFound, delete_acl_fault-NoneOrNotFound,
}
use bufstream_operator.Bufstream.Acl.{AclConfig, delete_acl, delete_acl_fault}
use bufstream_operator.Controller.Common.{Outcome, done, after, cluster_not_ready_requeue}
use bufstream_operator.Controller.Helpers.{is_cluster_ready}
use bufstream_operator.Controller.Working.{Working, get_cluster-Returns, session-Ends}
use bufstream_operator.Controller.Acl.Base.{acl_finalizer}
use bufstream_operator.Controller.Acl.Removal.{released}
use bufstream_operator.Controller.Acl.Remove.{
  release, delete_connected, delete_ready, reconcile_delete,
}

-- The reconcile is done, and has removed the finalizer.
abbrev pub Released : Outside → Acl → Outcome → Trace → Type 0
Released out t o tr =
    (o ≡ done) × Some (λ c. c ≡ Call.updated (Object.acl (released out t)) (ok tt)) tr

module _ (out : Outside) (cluster : Cluster) (w : Working out cluster) (t : Acl)
    (deletes : (tr : Trace) (h : Handle) (builder : List AclStep)
      → IsOk (AllFaults NoneOrNotFound) (out.delete_acls tr h builder))
    (updates : (tr : Trace) → out.update tr (Object.acl (released out t)) ≡ ok tt) where
  deleted-IsOk :
      (rs : List (Option Fault)) → AllFaults NoneOrNotFound rs → IsOk (λ _. ⊤) (delete_acl_fault rs)
  deleted-IsOk rs h = rw ((delete_acl_fault-NoneOrNotFound rs).1 h) tt

  delete_acl-Returns :
      (c : Client) (config : AclConfig) → Returns (delete_acl out c config) (λ _. ⊤)
  unfolding delete_acl
  delete_acl-Returns c config =
      Returns-ok {Good = AllFaults NoneOrNotFound} _ _ _ (Returns-ask _ _ (λ tr. deletes tr _ _))
        (λ rs h. Returns-pure _ (deleted-IsOk rs h))

  release-Released : Ends (release out t) (Released out t)
  unfolding release ◌>>=◌ on_error pure ask
  release-Released = record { at = λ tr. rw (updates tr) (refl, inl refl) }

  delete_connected-Released : (c : Client) → Ends (delete_connected out c t) (Released out t)
  unfolding delete_connected
  delete_connected-Released c =
      Ends-ok {Good = λ _. ⊤} _ _ _ (delete_acl-Returns c _) (λ _ _. Ends-then _ _ release-Released)

  delete_ready-Released : Ends (delete_ready out cluster t) (Released out t)
  unfolding delete_ready
  delete_ready-Released =
      Ends-ok {Good = λ _. ⊤} _ _ _ w.credentials
        (λ s _. session-Ends w _ s _ _ (λ o c tr h. (h.0, inr (inr h.1))) delete_connected-Released)

  found-Released :
      (c : Cluster)
      → c ≡ cluster
      → Ends
          (if not (is_cluster_ready out c)
            then pure (after cluster_not_ready_requeue)
            else delete_ready out c t)
          (Released out t)
  found-Released c e = rw (e, w.ready) delete_ready-Released

  -- Where the ACL being deleted has the finalizer, its cluster is ready, the credentials can be
  -- read, the brokers accept the connection and answer the deletion of the ACL without an error, or
  -- with errors whose text is exactly RESOURCE_NOT_FOUND, and the API server accepts the write, the
  -- reconcile returns with nothing left to do, having written the object without the finalizer.
  pub acl_removal-completes :
      out.contains_finalizer t.metadata.finalizers acl_finalizer ≡ true
      → (tr : Trace) → Released out t (reconcile_delete out t tr).0 (reconcile_delete out t tr).1
  unfolding reconcile_delete
  acl_removal-completes h tr =
      rw h
        ((Ends-ok {Good = λ c. c ≡ cluster} _ _ _ (get_cluster-Returns w _ _) found-Released).at tr)
