-- ===== src/Controller/Topic/Live.antt =====
-- The calls of a reconcile of a topic that is not being deleted: a predicate of the history that
-- none of them breaks is kept by it.
use bufstream_operator.Prelude.{String, List, [], ◌∷◌, Option}
use bufstream_operator.Api.Meta.{condition_true, plain, about, lit, Condition}
use bufstream_operator.Api.Cluster.{Cluster}
use bufstream_operator.Api.Topic.{Topic}
use bufstream_operator.Outside.{Outside, Trace, Handle}
use bufstream_operator.Outside.Action.{◌>>◌, pure}
use bufstream_operator.Outside.Laws.{ConditionLaws}
use bufstream_operator.Outside.Hoare.{
  Keeps, keeps_rules, Keeps-bind, Keeps-then, Keeps-pure, Keeps-on_error, IgnoresConnections,
  Keeps-triple, Triple-keeps,
}
use bufstream_operator.Bufstream.Client.{SaslConfig}
use bufstream_operator.Controller.Common.{type_progressing, requeue_degraded, after_error}
use bufstream_operator.Controller.Connections.{session, session-Open, Open}
use bufstream_operator.Controller.Conditions.{condition_at}
use bufstream_operator.Controller.Passive.{
  get_cluster-Keeps, get_admin_credentials-Keeps, new_client-Keeps, close-Keeps,
}
use bufstream_operator.Controller.Topic.Base.{emit, degrade}
use bufstream_operator.Controller.Topic.Apply.{
  reconcile_connected, reconcile_ready, reconcile_topic,
}
use bufstream_operator.Controller.Topic.Rules.{
  LiveRules, with_conditions, relabel, set_condition-Triple,
}
use bufstream_operator.Controller.Topic.Changes.{
  emit-Keeps, degrade-Keeps, reconcile_connected-Keeps,
}

module _ (out : Outside) (laws : ConditionLaws out) {Q D : Trace → Type 0} (t : Topic)
    (rules : LiveRules out t Q D) where
  -- A reconcile for a ready cluster keeps the predicate if its session with the brokers does.
  reconcile_ready-Keeps :
      (cluster : Cluster)
      → ((cs : List Condition) (s : Option SaslConfig)
          → let t' = with_conditions t cs in
            Keeps Q (
              session out cluster.spec.bootstrap_servers s
                (λ e. do
                  degrade out t' "ConnectionFailed"
                      (about (lit "Failed to connect: " ∷ []) e)
                      "Cannot connect to Bufstream"
                  emit t' "Warning" "ConnectionFailed"
                      (about (lit "Failed to connect to Bufstream: " ∷ []) e)
                  pure (after_error requeue_degraded e))
                (λ client. reconcile_connected out client t')))
      → Keeps Q (reconcile_ready out cluster t)
  unfolding reconcile_ready
  reconcile_ready-Keeps cluster in_session = Keeps-triple (
      set_condition-Triple out rules.ignores t _ _ _ _ _ λ time.
        let t' = with_conditions t (
          out.set_status_condition t.status.conditions (
            condition_at t.metadata type_progressing condition_true "Reconciling"
              (plain "Reconciling topic") time)) in
        let rules' = relabel t t'.status.conditions rules in
        Triple-keeps (
          Keeps-bind _ _ (get_admin_credentials-Keeps out rules.ignores cluster) λ credentials.
            Keeps-on_error credentials _ _
              (λ e.
                Keeps-then _ _ (degrade-Keeps out laws t' rules' _ _ _)
                  (Keeps-then _ _ (emit-Keeps out laws t' rules' _ _ _) (Keeps-pure _)))
              (λ s. in_session t'.status.conditions s)))

  pub session-Keeps :
      IgnoresConnections Q
      → (servers : String) (cs : List Condition) (s : Option SaslConfig)
      → let t' = with_conditions t cs in
        Keeps Q (
          session out servers s
            (λ e. do
              degrade out t' "ConnectionFailed"
                  (about (lit "Failed to connect: " ∷ []) e)
                  "Cannot connect to Bufstream"
              emit t' "Warning" "ConnectionFailed"
                  (about (lit "Failed to connect to Bufstream: " ∷ []) e)
              pure (after_error requeue_degraded e))
            (λ client. reconcile_connected out client t'))
  session-Keeps j servers cs s =
      let t' = with_conditions t cs in
      let rules' = relabel t cs rules in
      Keeps-bind _ _ (new_client-Keeps out rules.ignores j servers s) λ connected.
        Keeps-on_error connected _ _
          (λ e.
            Keeps-then _ _ (degrade-Keeps out laws t' rules' _ _ _)
              (Keeps-then _ _ (emit-Keeps out laws t' rules' _ _ _) (Keeps-pure _)))
          (λ c.
            Keeps-bind _ _ (reconcile_connected-Keeps out laws t' rules' c)
              λ outcome. Keeps-then _ _ (close-Keeps j c) (Keeps-pure outcome))

  reconcile_topic-Keeps :
      ((cluster : Cluster) → Keeps Q (reconcile_ready out cluster t))
      → Keeps Q (reconcile_topic out t)
  unfolding reconcile_topic
  reconcile_topic-Keeps ready =
      search
        (keeps_rules, get_cluster-Keeps out rules.ignores, degrade-Keeps out laws t rules, ready)
        depth 9

  -- A reconcile of a live topic keeps each predicate that none of its calls breaks.
  pub live-Keeps : IgnoresConnections Q → Keeps Q (reconcile_topic out t)
  live-Keeps j = reconcile_topic-Keeps λ cluster.
      reconcile_ready-Keeps cluster λ cs s. session-Keeps j cluster.spec.bootstrap_servers cs s

-- The same for the clients that are open.
pub live-Open :
    (out : Outside) (laws : ConditionLaws out) (t : Topic)
    → ((hs : List Handle) → LiveRules out t (Open hs) (Open hs))
    → (hs : List Handle) → Keeps (Open hs) (reconcile_topic out t)
live-Open out laws t rules hs = reconcile_topic-Keeps out laws t (rules hs) λ cluster.
    reconcile_ready-Keeps out laws t (rules hs) cluster λ cs s.
      let t' = with_conditions t cs in
      let rules' = λ (ks : List Handle). relabel t cs (rules ks) in
      session-Open out cluster.spec.bootstrap_servers s _ _
        (λ ks e.
          Keeps-then _ _ (degrade-Keeps out laws t' (rules' ks) _ _ _)
            (Keeps-then _ _ (emit-Keeps out laws t' (rules' ks) _ _ _) (Keeps-pure _)))
        (λ ks c. reconcile_connected-Keeps out laws t' (rules' ks) c) hs
