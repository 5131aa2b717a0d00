-- ===== src/Controller/Cluster/Rules.antt =====
-- The calls of a reconcile of a cluster, as rules that a predicate of the history may follow.
use bufstream_operator.Prelude.{◌≡◌, refl, String, List, [], ◌∷◌, ok, err, Result, some, ⊤, Option}
use bufstream_operator.Api.Meta.{
  about, lit, Message, Fault, Error, Time, Condition, condition_true, condition_false,
}
use bufstream_operator.Api.Cluster.{Cluster}
use bufstream_operator.Outside.{Outside, Call, Object, Kind, Trace, TopicDetail, Handle}
use bufstream_operator.Outside.Laws.{ConditionLaws}
use bufstream_operator.Outside.Action.{Action, ◌>>=◌, pure, ask}
use bufstream_operator.Outside.Hoare.{
  Keeps, Triple, keeps_rules, Keeps-bind, Keeps-on_error, Keeps-pure, Keeps-then, Keeps-triple,
  Triple-keeps, Triple-bind, Triple-then, Triple-ask, Triple-pure, Triple-on_error, Ignores,
  IgnoresConnections, Keeps-called,
}
use bufstream_operator.Bufstream.Client.{Client, SaslConfig, check_health}
use bufstream_operator.Controller.Common.{name_of, new_condition, type_ready}
use bufstream_operator.Controller.Conditions.{status_of, condition_at, status_of-set_self}
use bufstream_operator.Controller.Connections.{session}
use bufstream_operator.Controller.Passive.{
  get_admin_credentials-Keeps, new_client-Keeps, close-Keeps,
}
use bufstream_operator.Controller.Cluster.{
  set_condition, not_ready, finish, reconcile_connected, reconcile_cluster,
}

pub record IsClusterReport (out : Outside) (status : String) (c c' : Cluster) : Type 0 where
  pub metadata : c'.metadata ≡ c.metadata
  pub spec : c'.spec ≡ c.spec
  pub ready : status_of out c'.status.conditions type_ready ≡ some status

-- The rules of a reconcile's calls: `D` holds between a successful listing and the report of it.
pub record HealthRules (out : Outside) (c : Cluster) (Q D : Trace → Type 0) : Type 0 where
  pub ignores : Ignores Q
  pub ignores_after : Ignores D
  pub event :
      (severity reason : String) (m : Message) (tr : Trace)
      → Q tr
      → Q (Call.event Kind.cluster_kind (name_of c.metadata) severity reason m ∷ tr)
  pub listed :
      (h : Handle) (topics : List (String × TopicDetail)) (tr : Trace)
      → Q tr
      → D (Call.topics_listed h [] (ok topics) ∷ tr)
  pub failure :
      (c' : Cluster) (answer : Result Fault ⊤) (tr : Trace)
      → IsClusterReport out condition_false c c'
      → Q tr
      → Q (Call.status_updated (Object.cluster c') answer ∷ tr)
  pub success :
      (c' : Cluster) (answer : Result Fault ⊤) (tr : Trace)
      → IsClusterReport out condition_true c c'
      → c'.status.observed_generation ≡ c.metadata.generation
      → D tr
      → Q (Call.status_updated (Object.cluster c') answer ∷ tr)

abbrev pub with_condition : Outside → Cluster → Condition → Cluster
with_condition out c d = record c {
  status = record (c.status) { conditions = out.set_status_condition c.status.conditions d };
}

pub set_condition-Triple :
    (out : Outside) {Q : Trace → Type 0}
    → Ignores Q
    → {B : Type 0} {R : B → Trace → Type 0} (c : Cluster) (status reason : String) (m : Message)
      (f : Cluster → Action B)
    → ((time : Time)
        → Triple Q
            (f (with_condition out c (condition_at c.metadata type_ready status reason m time)))
            R)
    → Triple Q (set_condition out c status reason m >>= f) R
unfolding set_condition new_condition ◌>>=◌ ask pure
set_condition-Triple out i c status reason m f k = record {
  at = λ tr h. (k (out.now tr)).at _ (i.read Call.clock_read tt tr h);
}

module _ (out : Outside) (laws : ConditionLaws out) {Q D : Trace → Type 0} (c : Cluster)
    (rules : HealthRules out c Q D) where
  pub not_ready-Keeps :
      (reason : String) (m event_message : Message)
      → Keeps Q (not_ready out c reason m event_message)
  unfolding not_ready
  not_ready-Keeps reason m event_message = Keeps-triple (
      set_condition-Triple out rules.ignores c _ _ _ _ λ time.
        Triple-then _ _
          (Triple-ask {R = λ _ tr. Q tr} _ _ λ answer tr. rules.failure _ answer tr (record {
            metadata = refl;
            spec = refl;
            ready = status_of-set_self out laws c.status.conditions _;
          }))
          (Triple-keeps
            (Keeps-then _ _ (Keeps-called _ λ tr. rules.event _ _ _ tr) (Keeps-pure _))))

  abbrev pub After : Result Error ⊤ → Trace → Type 0
  After (ok _) = D
  After (err _) = Q

  abbrev Listed : Result Fault (List (String × TopicDetail)) → Trace → Type 0
  Listed (ok _) = D
  Listed (err _) = Q

  listing :
      (h : Handle) (answer : Result Fault (List (String × TopicDetail))) (tr : Trace)
      → Q tr
      → Listed answer (Call.topics_listed h [] answer ∷ tr)
  listing h (ok topics) tr q = rules.listed h topics tr q
  listing h (err e) tr q = rules.ignores.read (Call.topics_listed h [] (err e)) tt tr q

  pub check_health-After : (client : Client) → Triple Q (check_health out client) After
  unfolding check_health
  check_health-After client =
      Triple-bind _ _
        (Triple-ask {R = Listed} _ _ (λ answer tr h. listing client.admin_client answer tr h))
        (λ answer.
          Triple-on_error Listed answer _ _ (λ e _. Triple-pure _ (λ tr h. h))
            (λ topics _. Triple-pure _ (λ tr h. h)))

  finish-Triple : Triple D (finish out c) (λ _. Q)
  unfolding finish
  finish-Triple = set_condition-Triple out rules.ignores_after _ _ _ _ _ λ time.
      Triple-bind _ _
        (Triple-ask {R = λ _ tr. Q tr} _ _ λ answer tr.
          rules.success _ answer tr
            (record {
              metadata = refl;
              spec = refl;
              ready = status_of-set_self out laws c.status.conditions _;
            })
            refl)
        (λ r. Triple-keeps (search keeps_rules))

  pub reconcile_connected-Keeps : (client : Client) → Keeps Q (reconcile_connected out client c)
  unfolding reconcile_connected
  reconcile_connected-Keeps client = Keeps-triple (
      Triple-bind _ _ (check_health-After client) (λ health.
        Triple-on_error After health _ _ (λ e _. Triple-keeps (not_ready-Keeps _ _ _))
          (λ _ _. finish-Triple)))

  pub reconcile_cluster-Keeps :
      ((s : Option SaslConfig)
        → Keeps Q (
            session out c.spec.bootstrap_servers s
              (λ e.
                not_ready out c "ConnectionFailed"
                  (about (lit "Failed to connect: " ∷ []) e)
                  (about (lit "Failed to connect to Bufstream: " ∷ []) e))
              (λ client. reconcile_connected out client c)))
      → Keeps Q (reconcile_cluster out c)
  unfolding reconcile_cluster
  reconcile_cluster-Keeps in_session =
      Keeps-bind _ _ (get_admin_credentials-Keeps out rules.ignores c) (λ credentials.
        Keeps-on_error credentials _ _ (λ e. not_ready-Keeps _ _ _) (λ s. in_session s))

  pub health-Keeps : IgnoresConnections Q → Keeps Q (reconcile_cluster out c)
  health-Keeps j = reconcile_cluster-Keeps λ s.
      Keeps-bind _ _ (new_client-Keeps out rules.ignores j c.spec.bootstrap_servers s) (λ connected.
        Keeps-on_error connected _ _ (λ e. not_ready-Keeps _ _ _)
          (λ client.
            Keeps-bind _ _ (reconcile_connected-Keeps client)
              (λ outcome. Keeps-then _ _ (close-Keeps j client) (Keeps-pure outcome))))
