-- ===== src/Controller/User/Removal.antt =====
-- The calls of a reconcile of a user that is being deleted: a predicate of the history that none of
-- them breaks is kept by it, the removal of the finalizer being made only where the broker has
-- accepted the deletion.
use bufstream_operator.Prelude.{
  ◌≡◌, refl, String, List, [], ◌∷◌, ⊤, Result, ok, err, Option, inl, inr, Result-cases,
}
use bufstream_operator.Api.Meta.{Message, Fault, Error}
use bufstream_operator.Api.Cluster.{Cluster}
use bufstream_operator.Api.User.{User}
use bufstream_operator.Outside.{Outside, Call, Object, Kind, Trace, Handle, Response, DeleteScram}
use bufstream_operator.Outside.Hoare.{
  Keeps, Triple, keeps_rules, Keeps-bind, Keeps-then, Keeps-on_error, Keeps-pure, Keeps-triple,
  Triple-bind, Triple-then, Triple-on_error, Triple-keeps, Triple-ask, Triple-pure, Ignores,
  IgnoresConnections,
}
use bufstream_operator.Bufstream.Client.{Client, SaslConfig}
use bufstream_operator.Bufstream.User.{delete_user_credentials, delete_user_fault, kadm_mechanism}
use bufstream_operator.Controller.Common.{name_of}
use bufstream_operator.Controller.Connections.{session, session-Open, Open}
use bufstream_operator.Controller.Passive.{
  get_cluster-Keeps, get_admin_credentials-Keeps, new_client-Keeps, close-Keeps,
}
use bufstream_operator.Controller.User.Base.{
  emit, deletion_failed, username, mechanism, user_finalizer,
}
use bufstream_operator.Controller.User.Names.{
  IsDeletion, username-IsNameOf, mechanism-IsMechanismOf,
}
use bufstream_operator.Controller.User.Remove.{
  release, delete_connected, delete_ready, reconcile_delete,
}

-- The object that `release` writes.
abbrev pub released : Outside → User → User
released out u = record u {
  metadata = record (u.metadata) {
    finalizers = out.remove_finalizer u.metadata.finalizers user_finalizer;
  };
}

-- The deletion that the controller asks for.
abbrev pub deletion_of : User → DeleteScram
deletion_of u = record { user = username u; mechanism = kadm_mechanism (mechanism u) }

pub deletion_of-IsDeletion : (u : User) → IsDeletion u (deletion_of u ∷ [])
deletion_of-IsDeletion u = (deletion_of u, refl, username-IsNameOf u, mechanism-IsMechanismOf u)

-- `Q` holds before the deletion is accepted, and after the finalizer is removed; `D` between.
pub record RemovalRules (out : Outside) (u : User) (Q D : Trace → Type 0) : Type 0 where
  pub ignores : Ignores Q
  pub event :
      (severity reason : String) (m : Message) (tr : Trace)
      → Q tr
      → Q (Call.event Kind.user_kind (name_of u.metadata) severity reason m ∷ tr)
  pub event_after :
      (severity reason : String) (m : Message) (tr : Trace)
      → D tr
      → D (Call.event Kind.user_kind (name_of u.metadata) severity reason m ∷ tr)
  pub deletion :
      (h : Handle) (answer : Result Fault (List Response)) (tr : Trace)
      → Q tr
      → Q (Call.scrams_altered h (deletion_of u ∷ []) [] answer ∷ tr)
  pub accepted :
      (h : Handle) (rs : List Response) (tr : Trace)
      → delete_user_fault rs ≡ ok tt
      → Q tr
      → D (Call.scrams_altered h (deletion_of u ∷ []) [] (ok rs) ∷ tr)
  pub updated :
      (answer : Result Fault ⊤) (tr : Trace)
      → D tr
      → Q (Call.updated (Object.user (released out u)) answer ∷ tr)

module _ (out : Outside) (u : User) {Q D : Trace → Type 0} (rules : RemovalRules out u Q D) where
  emit-Keeps : (severity reason : String) (m : Message) → Keeps Q (emit u severity reason m)
  unfolding emit
  emit-Keeps severity reason m = search (keeps_rules, rules.event)

  emit-Keeps_after : (severity reason : String) (m : Message) → Keeps D (emit u severity reason m)
  unfolding emit
  emit-Keeps_after severity reason m = search (keeps_rules, rules.event_after)

  deletion_failed-Keeps : (prefix : String) (e : Error) → Keeps Q (deletion_failed u prefix e)
  unfolding deletion_failed
  deletion_failed-Keeps prefix e = search (keeps_rules, emit-Keeps)

  release-Triple : Triple D (release out u) (λ _. Q)
  unfolding release
  release-Triple =
      Triple-bind _ _ (Triple-ask {R = λ _ tr. Q tr} _ _ (λ answer tr h. rules.updated answer tr h))
        (λ answer. Triple-keeps (search keeps_rules))

  abbrev After : Result Error ⊤ → Trace → Type 0
  After (ok _) = D
  After (err _) = Q

  -- After the call, `Q` holds, and `D` if the answer is one that the loop accepts.
  abbrev Answered : Result Fault (List Response) → Trace → Type 0
  Answered resp tr =
      Q tr × ((rs : List Response) → resp ≡ ok rs → delete_user_fault rs ≡ ok tt → D tr)

  delete_user-After :
      (c : Client) → Triple Q (delete_user_credentials out c (username u) (mechanism u)) After
  unfolding delete_user_credentials
  delete_user-After c =
      Triple-bind _ _
        (Triple-ask {R = Answered} _ _ (λ resp tr h.
          (rules.deletion _ resp tr h, λ rs e accepted. rw e (rules.accepted _ rs tr accepted h))))
        (λ resp.
          Triple-on_error Answered resp _ _ (λ e _. Triple-pure _ (λ tr h. h.0))
            (λ rs _. elim (Result-cases (delete_user_fault rs)) [
              | inl (u, e) ↦ Triple-pure _ (λ tr h. rw e (h.1 rs refl e))
              | inr (x, e) ↦ Triple-pure _ (λ tr h. rw e h.0)
            ]))

  delete_connected-Keeps : (c : Client) → Keeps Q (delete_connected out c u)
  unfolding delete_connected
  delete_connected-Keeps c = Keeps-triple (
      Triple-bind _ _ (delete_user-After c) (λ deleted.
        Triple-on_error After deleted _ _ (λ e _. Triple-keeps (deletion_failed-Keeps _ e))
          (λ _ _. Triple-then _ _ (Triple-keeps (emit-Keeps_after _ _ _)) release-Triple)))

  delete_ready-Keeps :
      (cluster : Cluster)
      → ((s : Option SaslConfig)
          → Keeps Q (
              session out cluster.spec.bootstrap_servers s
                (λ e. deletion_failed u "Failed to connect to Bufstream: " e)
                (λ client. delete_connected out client u)))
      → Keeps Q (delete_ready out cluster u)
  unfolding delete_ready
  delete_ready-Keeps cluster in_session =
      Keeps-bind _ _ (get_admin_credentials-Keeps out rules.ignores cluster) (λ credentials.
        Keeps-on_error credentials _ _ (λ e. deletion_failed-Keeps _ e) (λ s. in_session s))

  reconcile_delete-Keeps :
      ((cluster : Cluster) → Keeps Q (delete_ready out cluster u))
      → Keeps Q (reconcile_delete out u)
  unfolding reconcile_delete
  reconcile_delete-Keeps ready =
      search (keeps_rules, get_cluster-Keeps out rules.ignores, deletion_failed-Keeps, ready) depth
        9

  -- The reconcile of a user that is being deleted keeps each predicate that follows these rules.
  pub removal-Keeps : IgnoresConnections Q → Keeps Q (reconcile_delete out u)
  removal-Keeps j = reconcile_delete-Keeps λ cluster. delete_ready-Keeps cluster λ s.
      Keeps-bind _ _ (new_client-Keeps out rules.ignores j cluster.spec.bootstrap_servers s)
        (λ connected.
          Keeps-on_error connected _ _ (λ e. deletion_failed-Keeps _ e)
            (λ c.
              Keeps-bind _ _ (delete_connected-Keeps c)
                (λ outcome. Keeps-then _ _ (close-Keeps j c) (Keeps-pure outcome))))

-- The same for the clients that are open.
pub removal-Open :
    (out : Outside) (u : User)
    → ((hs : List Handle) → RemovalRules out u (Open hs) (Open hs))
    → (hs : List Handle) → Keeps (Open hs) (reconcile_delete out u)
removal-Open out u rules hs = reconcile_delete-Keeps out u (rules hs) λ cluster.
    delete_ready-Keeps out u (rules hs) cluster λ s.
      session-Open out cluster.spec.bootstrap_servers s _ _
        (λ ks e. deletion_failed-Keeps out u (rules ks) _ e)
        (λ ks c. delete_connected-Keeps out u (rules ks) c) hs
