-- ===== src/Controller/Acl/Live.antt =====
-- A reconcile of an ACL that is not being deleted keeps each predicate of the history that follows
-- the rules of its calls.
use bufstream_operator.Prelude.{
  ◌≡◌, refl, String, List, [], ◌∷◌, ⊤, Result, ok, err, Option, inl, inr, Result-cases,
}
use bufstream_operator.Api.Meta.{
  condition_true, plain, about, lit, Message, Fault, Error, Condition,
}
use bufstream_operator.Api.Cluster.{Cluster}
use bufstream_operator.Api.Acl.{Acl}
use bufstream_operator.Outside.{Outside, Trace, Handle}
use bufstream_operator.Outside.Action.{◌>>◌, pure}
use bufstream_operator.Outside.Laws.{ConditionLaws}
use bufstream_operator.Outside.Hoare.{
  Keeps, Triple, keeps_rules, Keeps-bind, Keeps-then, Keeps-pure, Keeps-on_error, Keeps-triple,
  Triple-keeps, Triple-bind, Triple-then, Triple-ask, Triple-pure, Triple-on_error,
  IgnoresConnections,
}
use bufstream_operator.Bufstream.Client.{Client, SaslConfig}
use bufstream_operator.Bufstream.Acl.{create_acl, create_acl_fault}
use bufstream_operator.Controller.Common.{type_progressing, requeue_degraded, after_error}
use bufstream_operator.Controller.Connections.{session, session-Open, Open}
use bufstream_operator.Controller.Conditions.{
  condition_at, degrade-IsDegraded, finish-IsHealthy_swapped,
}
use bufstream_operator.Controller.Passive.{
  get_cluster-Keeps, get_admin_credentials-Keeps, new_client-Keeps, close-Keeps,
}
use bufstream_operator.Controller.Acl.Base.{emit, degrade}
use bufstream_operator.Controller.Acl.Config.{to_acl_config}
use bufstream_operator.Controller.Acl.Apply.{
  finish, reconcile_connected, reconcile_ready, reconcile_acl,
}
use bufstream_operator.Controller.Acl.Rules.{
  LiveRules, with_conditions, relabel, set_condition-Triple,
}

module _ (out : Outside) (laws : ConditionLaws out) {Q D : Trace → Type 0} (a : Acl)
    (rules : LiveRules out a Q D) where
  emit-Keeps : (severity reason : String) (m : Message) → Keeps Q (emit a severity reason m)
  unfolding emit
  emit-Keeps severity reason m = search (keeps_rules, rules.event)

  emit-Keeps_after : (severity reason : String) (m : Message) → Keeps D (emit a severity reason m)
  unfolding emit
  emit-Keeps_after severity reason m = search (keeps_rules, rules.event_after)

  degrade-Keeps : (reason brief : String) (m : Message) → Keeps Q (degrade out a reason m brief)
  unfolding degrade
  degrade-Keeps reason brief m = Keeps-triple (
      set_condition-Triple out rules.ignores a _ _ _ _ _ λ time.
        set_condition-Triple out rules.ignores _ _ _ _ _ _ λ time'.
          Triple-then _ _
            (Triple-ask {R = λ _ tr. Q tr} _ _ λ answer tr. rules.failure _ answer tr (record {
              metadata = refl;
              spec = refl;
              conditions =
                  degrade-IsDegraded out laws a.metadata a.status.conditions reason reason m _ time
                    time';
            }))
            (Triple-pure tt (λ tr h. h)))

  finish-Triple : Triple D (finish out a) (λ _. Q)
  unfolding finish
  finish-Triple = set_condition-Triple out rules.ignores_after _ _ _ _ _ _ λ t₁.
      set_condition-Triple out rules.ignores_after _ _ _ _ _ _ λ t₂.
        set_condition-Triple out rules.ignores_after _ _ _ _ _ _ λ t₃.
          Triple-bind _ _
            (Triple-ask {R = λ _ tr. Q tr} _ _ λ answer tr. rules.success _ answer tr (record {
              metadata = refl;
              spec = refl;
              conditions =
                  finish-IsHealthy_swapped out laws a.metadata a.status.conditions _ _ _ _ _ _ t₁ t₂
                    t₃;
              generation = refl;
            }))
            (λ r. Triple-keeps (search keeps_rules))

  abbrev After : Result Error ⊤ → Trace → Type 0
  After (ok _) = D
  After (err _) = Q

  abbrev Answered : Result Fault (List (Option Fault)) → Trace → Type 0
  Answered resp tr =
      Q tr × ((rs : List (Option Fault)) → resp ≡ ok rs → create_acl_fault rs ≡ ok tt → D tr)

  create_acl-After : (c : Client) → Triple Q (create_acl out c (to_acl_config a)) After
  unfolding create_acl
  create_acl-After c =
      Triple-bind _ _
        (Triple-ask {R = Answered} _ _ (λ resp tr h.
          (rules.creation _ resp tr h, λ rs e accepted. rw e (rules.accepted _ rs tr accepted h))))
        (λ resp.
          Triple-on_error Answered resp _ _ (λ e _. Triple-pure _ (λ tr h. h.0))
            (λ rs _. elim (Result-cases (create_acl_fault rs)) [
              | inl (x, e) ↦ Triple-pure _ (λ tr h. rw e (h.1 rs refl e))
              | inr (x, e) ↦ Triple-pure _ (λ tr h. rw e h.0)
            ]))

  pub reconcile_connected-Keeps : (c : Client) → Keeps Q (reconcile_connected out c a)
  unfolding reconcile_connected
  reconcile_connected-Keeps c = Keeps-triple (
      Triple-bind _ _ (create_acl-After c) (λ created.
        Triple-on_error After created _ _
          (λ e _. Triple-keeps (
            Keeps-then _ _ (degrade-Keeps _ _ _)
              (Keeps-then _ _ (emit-Keeps _ _ _) (Keeps-pure _))))
          (λ _ _. Triple-then _ _ (Triple-keeps (emit-Keeps_after _ _ _)) finish-Triple)))

  connection_failed-Keeps :
      (e : Error)
      → Keeps Q (do
        degrade out a "ConnectionFailed"
            (about (lit "Failed to connect: " ∷ []) e)
            "Cannot connect to Bufstream"
        emit a "Warning" "ConnectionFailed" (about (lit "Failed to connect: " ∷ []) e)
        pure (after_error requeue_degraded e))
  connection_failed-Keeps e =
      Keeps-then _ _ (degrade-Keeps _ _ _) (Keeps-then _ _ (emit-Keeps _ _ _) (Keeps-pure _))

module _ (out : Outside) (laws : ConditionLaws out) {Q D : Trace → Type 0} (a : Acl)
    (rules : LiveRules out a Q D) where
  reconcile_ready-Keeps :
      (cluster : Cluster)
      → ((cs : List Condition) (s : Option SaslConfig)
          → let a' = with_conditions a cs in
            Keeps Q (
              session out cluster.spec.bootstrap_servers s
                (λ e. do
                  degrade out a' "ConnectionFailed"
                      (about (lit "Failed to connect: " ∷ []) e)
                      "Cannot connect to Bufstream"
                  emit a' "Warning" "ConnectionFailed" (about (lit "Failed to connect: " ∷ []) e)
                  pure (after_error requeue_degraded e))
                (λ client. reconcile_connected out client a')))
      → Keeps Q (reconcile_ready out cluster a)
  unfolding reconcile_ready
  reconcile_ready-Keeps cluster in_session = Keeps-triple (
      set_condition-Triple out rules.ignores a _ _ _ _ _ λ time.
        let a' = with_conditions a (
          out.set_status_condition a.status.conditions (
            condition_at a.metadata type_progressing condition_true "Reconciling"
              (plain "Reconciling ACL") time)) in
        let rules' = relabel a a'.status.conditions rules in
        Triple-keeps (
          Keeps-bind _ _ (get_admin_credentials-Keeps out rules.ignores cluster) λ credentials.
            Keeps-on_error credentials _ _
              (λ e.
                Keeps-then _ _ (degrade-Keeps out laws a' rules' _ _ _)
                  (Keeps-then _ _ (emit-Keeps out laws a' rules' _ _ _) (Keeps-pure _)))
              (λ s. in_session a'.status.conditions s)))

  reconcile_acl-Keeps :
      ((cluster : Cluster) → Keeps Q (reconcile_ready out cluster a))
      → Keeps Q (reconcile_acl out a)
  unfolding reconcile_acl
  reconcile_acl-Keeps ready =
      search
        (keeps_rules, get_cluster-Keeps out rules.ignores, degrade-Keeps out laws a rules, ready)
        depth 9

  -- A reconcile of a live ACL keeps each predicate that follows these rules.
  pub live-Keeps : IgnoresConnections Q → Keeps Q (reconcile_acl out a)
  live-Keeps j = reconcile_acl-Keeps λ cluster. reconcile_ready-Keeps cluster λ cs s.
      let a' = with_conditions a cs in
      let rules' = relabel a cs rules in
      Keeps-bind _ _ (new_client-Keeps out rules.ignores j cluster.spec.bootstrap_servers s)
        λ connected.
          Keeps-on_error connected _ _ (λ e. connection_failed-Keeps out laws a' rules' e)
            (λ c.
              Keeps-bind _ _ (reconcile_connected-Keeps out laws a' rules' c)
                λ outcome. Keeps-then _ _ (close-Keeps j c) (Keeps-pure outcome))

-- The same for the clients that are open.
pub live-Open :
    (out : Outside) (laws : ConditionLaws out) (a : Acl)
    → ((hs : List Handle) → LiveRules out a (Open hs) (Open hs))
    → (hs : List Handle) → Keeps (Open hs) (reconcile_acl out a)
live-Open out laws a rules hs = reconcile_acl-Keeps out laws a (rules hs) λ cluster.
    reconcile_ready-Keeps out laws a (rules hs) cluster λ cs s.
      let a' = with_conditions a cs in
      let rules' = λ (ks : List Handle). relabel a cs (rules ks) in
      session-Open out cluster.spec.bootstrap_servers s _ _
        (λ ks e. connection_failed-Keeps out laws a' (rules' ks) e)
        (λ ks c. reconcile_connected-Keeps out laws a' (rules' ks) c) hs
