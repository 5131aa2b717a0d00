-- ===== src/Controller/User/Live.antt =====
-- A reconcile of a user that is not being deleted keeps each predicate of the history that follows
-- the rules of its calls.
use bufstream_operator.Prelude.{
  ◌≡◌, refl, String, List, [], ◌∷◌, ⊤, Result, ok, err, Option, inl, inr, Result-cases,
}
use bufstream_operator.Api.Meta.{
  condition_true, plain, about, lit, Message, Fault, Error, Condition,
}
use bufstream_operator.Api.Cluster.{Cluster}
use bufstream_operator.Api.User.{User}
use bufstream_operator.Outside.{Outside, Trace, Handle, Response}
use bufstream_operator.Outside.Action.{◌>>=◌, ◌>>◌, on_error, pure}
use bufstream_operator.Outside.Laws.{ConditionLaws}
use bufstream_operator.Outside.Hoare.{
  Keeps, Triple, keeps_rules, Keeps-bind, Keeps-then, Keeps-pure, Keeps-on_error, Keeps-triple,
  Triple-keeps, Triple-bind, Triple-then, Triple-ask, Triple-pure, Triple-on_error,
  IgnoresConnections,
}
use bufstream_operator.Bufstream.Client.{Client, SaslConfig}
use bufstream_operator.Bufstream.Topic.{first_fault}
use bufstream_operator.Bufstream.User.{default_iterations, upsert_user_credentials}
use bufstream_operator.Controller.Common.{type_progressing, requeue_degraded, after_error}
use bufstream_operator.Controller.Connections.{session-Open, Open}
use bufstream_operator.Controller.Conditions.{condition_at, degrade-IsDegraded, finish-IsHealthy}
use bufstream_operator.Controller.Passive.{
  get_cluster-Keeps, get_admin_credentials-Keeps, new_client-Keeps, close-Keeps,
}
use bufstream_operator.Controller.User.Base.{emit, degrade, username, mechanism}
use bufstream_operator.Controller.User.Apply.{
  get_password, finish, reconcile_connected, connect_and_upsert, reconcile_ready, reconcile_user,
}
use bufstream_operator.Controller.User.Names.{username-IsNameOf}
use bufstream_operator.Controller.User.Rules.{
  LiveRules, with_conditions, relabel, set_condition-Triple,
}

module _ (out : Outside) (laws : ConditionLaws out) {Q D : Trace → Type 0} (u : User)
    (rules : LiveRules out u Q D) where
  emit-Keeps : (severity reason : String) (m : Message) → Keeps Q (emit u severity reason m)
  unfolding emit
  emit-Keeps severity reason m = search (keeps_rules, rules.event)

  emit-Keeps_after : (severity reason : String) (m : Message) → Keeps D (emit u severity reason m)
  unfolding emit
  emit-Keeps_after severity reason m = search (keeps_rules, rules.event_after)

  degrade-Keeps : (reason brief : String) (m : Message) → Keeps Q (degrade out u reason m brief)
  unfolding degrade
  degrade-Keeps reason brief m = Keeps-triple (
      set_condition-Triple out rules.ignores u _ _ _ _ _ λ time.
        set_condition-Triple out rules.ignores _ _ _ _ _ _ λ time'.
          Triple-then _ _
            (Triple-ask {R = λ _ tr. Q tr} _ _ λ answer tr. rules.failure _ answer tr (record {
              metadata = refl;
              spec = refl;
              conditions =
                  degrade-IsDegraded out laws u.metadata u.status.conditions reason reason m _ time
                    time';
            }))
            (Triple-pure tt (λ tr h. h)))

  finish-Triple : Triple D (finish out u (username u)) (λ _. Q)
  unfolding finish
  finish-Triple = set_condition-Triple out rules.ignores_after _ _ _ _ _ _ λ t₁.
      set_condition-Triple out rules.ignores_after _ _ _ _ _ _ λ t₂.
        set_condition-Triple out rules.ignores_after _ _ _ _ _ _ λ t₃.
          Triple-bind _ _
            (Triple-ask {R = λ _ tr. Q tr} _ _ λ answer tr. rules.success _ answer tr (record {
              metadata = refl;
              spec = refl;
              conditions =
                  finish-IsHealthy out laws u.metadata u.status.conditions _ _ _ _ _ _ t₁ t₂ t₃;
              generation = refl;
              username = username-IsNameOf u;
            }))
            (λ r. Triple-keeps (search keeps_rules))

  abbrev After : Result Error ⊤ → Trace → Type 0
  After (ok _) = D
  After (err _) = Q

  abbrev Answered : Result Fault (List Response) → Trace → Type 0
  Answered resp tr =
      Q tr
      × ((rs : List Response)
          → resp ≡ ok rs
          → first_fault "failed to upsert credentials for user " rs ≡ ok tt
          → D tr)

  upsert-After :
      (c : Client) (password : String)
      → Triple Q
          (upsert_user_credentials out c (record {
            username = username u;
            password = password;
            mechanism = mechanism u;
            iterations = default_iterations u.spec.iterations;
          }))
          After
  unfolding upsert_user_credentials
  upsert-After c password =
      Triple-bind _ _
        (Triple-ask {R = Answered} _ _ (λ resp tr h. (
          rules.upsert _ password resp tr h,
          λ rs e accepted. rw e (rules.accepted _ password rs tr accepted h),
        )))
        (λ resp.
          Triple-on_error Answered resp _ _ (λ e _. Triple-pure _ (λ tr h. h.0))
            (λ rs _. elim (Result-cases (first_fault "failed to upsert credentials for user " rs)) [
              | inl (x, e) ↦ Triple-pure _ (λ tr h. rw e (h.1 rs refl e))
              | inr (x, e) ↦ Triple-pure _ (λ tr h. rw e h.0)
            ]))

  reconcile_connected-Keeps :
      (c : Client) (password : String) → Keeps Q (reconcile_connected out c u password)
  unfolding reconcile_connected
  reconcile_connected-Keeps c password = Keeps-triple (
      Triple-bind _ _ (upsert-After c password) (λ upserted.
        Triple-on_error After upserted _ _
          (λ e _. Triple-keeps (
            Keeps-then _ _ (degrade-Keeps _ _ _)
              (Keeps-then _ _ (emit-Keeps _ _ _) (Keeps-pure _))))
          (λ _ _. Triple-then _ _ (Triple-keeps (emit-Keeps_after _ _ _)) finish-Triple)))

  connection_failed-Keeps :
      (e : Error)
      → Keeps Q (do
        degrade out u "ConnectionFailed"
            (about (lit "Failed to connect: " ∷ []) e)
            "Cannot connect to Bufstream"
        emit u "Warning" "ConnectionFailed" (about (lit "Failed to connect to Bufstream: " ∷ []) e)
        pure (after_error requeue_degraded e))
  connection_failed-Keeps e =
      Keeps-then _ _ (degrade-Keeps _ _ _) (Keeps-then _ _ (emit-Keeps _ _ _) (Keeps-pure _))

  pub connect_and_upsert-Keeps :
      IgnoresConnections Q
      → (cluster : Cluster) (password : String) (s : Option SaslConfig)
      → Keeps Q (connect_and_upsert out cluster u password s)
  unfolding connect_and_upsert
  connect_and_upsert-Keeps j cluster password s =
      Keeps-bind _ _ (new_client-Keeps out rules.ignores j cluster.spec.bootstrap_servers s)
        λ connected.
          Keeps-on_error connected _ _ (λ e. connection_failed-Keeps e)
            (λ c.
              Keeps-bind _ _ (reconcile_connected-Keeps c password)
                λ outcome. Keeps-then _ _ (close-Keeps j c) (Keeps-pure outcome))

  get_password-Keeps : Keeps Q (get_password out u)
  unfolding get_password
  get_password-Keeps = search (keeps_rules, rules.ignores.read, tt)

  -- From the admin credentials on, for a user that is marked.
  marked-Keeps :
      (cluster : Cluster)
      → ((password : String) (s : Option SaslConfig)
          → Keeps Q (connect_and_upsert out cluster u password s))
      → (s : Option SaslConfig)
      → Keeps Q (do
        secret ← get_password out u
        on_error secret
            (λ e. do
              degrade out u "SecretError"
                  (about (lit "Failed to get password: " ∷ []) e)
                  "Cannot get password from secret"
              emit u "Warning" "SecretError" (about (lit "Failed to get password: " ∷ []) e)
              pure (after_error requeue_degraded e))
            λ password. connect_and_upsert out cluster u password s)
  marked-Keeps cluster in_session s = Keeps-bind _ _ get_password-Keeps λ secret.
      Keeps-on_error secret _ _
        (λ e.
          Keeps-then _ _ (degrade-Keeps _ _ _) (Keeps-then _ _ (emit-Keeps _ _ _) (Keeps-pure _)))
        (λ password. in_session password s)

module _ (out : Outside) (laws : ConditionLaws out) {Q D : Trace → Type 0} (u : User)
    (rules : LiveRules out u Q D) where
  reconcile_ready-Keeps :
      (cluster : Cluster)
      → ((cs : List Condition) (password : String) (s : Option SaslConfig)
          → Keeps Q (connect_and_upsert out cluster (with_conditions u cs) password s))
      → Keeps Q (reconcile_ready out cluster u)
  unfolding reconcile_ready
  reconcile_ready-Keeps cluster in_session = Keeps-triple (
      set_condition-Triple out rules.ignores u _ _ _ _ _ λ time.
        let u' = with_conditions u (
          out.set_status_condition u.status.conditions (
            condition_at u.metadata type_progressing condition_true "Reconciling"
              (plain "Reconciling user") time)) in
        let rules' = relabel u u'.status.conditions rules in
        Triple-keeps (
          Keeps-bind _ _ (get_admin_credentials-Keeps out rules.ignores cluster) λ credentials.
            Keeps-on_error credentials _ _
              (λ e.
                Keeps-then _ _ (degrade-Keeps out laws u' rules' _ _ _)
                  (Keeps-then _ _ (emit-Keeps out laws u' rules' _ _ _) (Keeps-pure _)))
              (λ s.
                marked-Keeps out laws u' rules' cluster
                  (λ password s'. in_session u'.status.conditions password s') s)))

  reconcile_user-Keeps :
      ((cluster : Cluster) → Keeps Q (reconcile_ready out cluster u))
      → Keeps Q (reconcile_user out u)
  unfolding reconcile_user
  reconcile_user-Keeps ready =
      search
        (keeps_rules, get_cluster-Keeps out rules.ignores, degrade-Keeps out laws u rules, ready)
        depth 9

  -- A reconcile of a live user keeps each predicate that follows these rules.
  pub live-Keeps : IgnoresConnections Q → Keeps Q (reconcile_user out u)
  live-Keeps j = reconcile_user-Keeps λ cluster. reconcile_ready-Keeps cluster λ cs password s.
      connect_and_upsert-Keeps out laws (with_conditions u cs) (relabel u cs rules) j cluster
        password s

-- The same for the clients that are open.
pub live-Open :
    (out : Outside) (laws : ConditionLaws out) (u : User)
    → ((hs : List Handle) → LiveRules out u (Open hs) (Open hs))
    → (hs : List Handle) → Keeps (Open hs) (reconcile_user out u)
unfolding connect_and_upsert
live-Open out laws u rules hs = reconcile_user-Keeps out laws u (rules hs) λ cluster.
    reconcile_ready-Keeps out laws u (rules hs) cluster λ cs password s.
      let u' = with_conditions u cs in
      let rules' = λ (ks : List Handle). relabel u cs (rules ks) in
      session-Open out cluster.spec.bootstrap_servers s _ _
        (λ ks e. connection_failed-Keeps out laws u' (rules' ks) e)
        (λ ks c. reconcile_connected-Keeps out laws u' (rules' ks) c password) hs
