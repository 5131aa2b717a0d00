-- ===== src/Controller/Topic/Connects.antt =====
-- What each reconcile of a topic that meets no obstacle does: it finds out whether the brokers have
-- the topic, and at the end stores success.
use bufstream_operator.Prelude.{◌≡◌, refl, String, Option, List, [], ◌∷◌, ⊤, ok, not, if◌then◌else◌}
use bufstream_operator.Api.Meta.{Message, Time, Condition, foreign}
use bufstream_operator.Api.Cluster.{Cluster}
use bufstream_operator.Api.Topic.{Topic}
use bufstream_operator.Outside.{Outside, Call, Object, Trace, Handle, Response}
use bufstream_operator.Outside.Action.{Action, ◌>>=◌, on_error, on_option, pure, ask}
use bufstream_operator.Outside.Calls.{update_status, list_topics}
use bufstream_operator.Outside.Hoare.{
  read_cases, connection_cases, Triple, Ignores, IgnoresConnections, IsRead, IsConnection,
  Triple-pure, Triple-weaken,
}
use bufstream_operator.Controller.Passive.{get_cluster-Keeps, get_admin_credentials-Keeps}
use bufstream_operator.Outside.Laws.{ConditionLaws}
use bufstream_operator.Outside.Progress.{Wrote, Ends, IsOk, Triple-ok, Triple-Returns, Triple-Ends}
use bufstream_operator.Bufstream.Client.{Client, check_health}
use bufstream_operator.Bufstream.Responses.{AllResponses, NoFault, first_fault-NoFault}
use bufstream_operator.Bufstream.Topic.{TopicInfo, first_fault, found_topic, topic_exists}
use bufstream_operator.Controller.Common.{
  Outcome, after, failed, requeue_healthy, cluster_not_ready_requeue, new_condition,
}
use bufstream_operator.Controller.Conditions.{condition_at, finish-IsHealthy}
use bufstream_operator.Controller.Helpers.{is_cluster_ready}
use bufstream_operator.Controller.Working.{Working, get_cluster-Returns, session-Triple}
use bufstream_operator.Controller.Topic.Base.{set_condition, topic_name}
use bufstream_operator.Controller.Topic.Lifecycle.{IsUnsettled, is_reconciled-IsUnsettled}
use bufstream_operator.Controller.Topic.Apply.{
  finish, create_missing, take_over, reconcile_connected, reconcile_ready, reconcile_topic,
}
use bufstream_operator.Controller.Topic.Rules.{IsSuccess, with_conditions, set_condition-Triple}

-- The reconcile is over without an error, and the last that it did, but for closing its client,
-- was to store a status that reports success.
abbrev pub Converged : Outside → Topic → String → Outcome → Trace → Type 0
Converged out t name o tr =
    (o ≡ after requeue_healthy)
    × (t' : Topic) × IsSuccess out t name t'
    × Wrote (Object.topic t') tr

-- No topic has been created, changed or deleted.
abbrev pub Untouched : Trace → Type 0
Untouched [] = Unit
Untouched (Call.topics_created _ _ _ _ _ _ ∷ tr) = ⊥
Untouched (Call.partitions_created _ _ _ _ ∷ tr) = ⊥
Untouched (Call.configs_altered _ _ _ _ ∷ tr) = ⊥
Untouched (Call.topics_deleted _ _ _ ∷ tr) = ⊥
Untouched (_ ∷ tr) = Untouched tr

Untouched-Ignores : Ignores Untouched
Untouched-Ignores = record { read = reads }
  where
    reads : (c : Call) → IsRead c → (tr : Trace) → Untouched tr → Untouched (c ∷ tr)
    reads =
        read_cases (Untouched) (λ _ _ _ h. h) (λ _ _ h. h) (λ _ h. h) (λ _ _ h. h) (λ _ _ _ _ h. h)
          (λ _ _ _ _ h. h)

Untouched-IgnoresConnections : IgnoresConnections Untouched
Untouched-IgnoresConnections = record { connection = connections }
  where
    connections : (c : Call) → IsConnection c → (tr : Trace) → Untouched tr → Untouched (c ∷ tr)
    connections = connection_cases (Untouched) (λ _ _ _ h. h) (λ _ _ h. h) (λ _ _ h. h)

set_condition-Ends :
    (out : Outside) {S : Outcome → Trace → Type 0} (t : Topic) (kind status reason : String)
    (m : Message) (f : Topic → Action Outcome)
    → ((time : Time)
        → Ends
            (f (
              with_conditions t (
                out.set_status_condition t.status.conditions
                  (condition_at t.metadata kind status reason m time))))
            S)
    → Ends (set_condition out t kind status reason m >>= f) S
unfolding set_condition new_condition ◌>>=◌ ask pure
set_condition-Ends out t kind status reason m f k = record { at = λ tr. (k (out.now tr)).at _ }

pub answered-IsOk :
    (prefix : String) (rs : List Response)
    → AllResponses NoFault rs
    → IsOk (λ _. ⊤) (first_fault prefix rs)
answered-IsOk prefix rs h = rw ((first_fault-NoFault prefix rs).1 h) tt

module _ (out : Outside) (laws : ConditionLaws out)
    (stores : (tr : Trace) (x : Object) → out.update_status tr x ≡ ok tt) (name : String)
    (t : Topic) where
  stored-Converged :
      (t' : Topic)
      → IsSuccess out t name t'
      → Ends
          (do
            updated ← update_status out (Object.topic t')
            on_error updated (λ e. pure (failed (foreign e))) λ _. pure (after requeue_healthy))
          (Converged out t name)
  unfolding ◌>>=◌ on_error pure ask
  stored-Converged t' success = record { at = λ tr. rw (stores tr _) (refl, t', success, refl) }

  pub finish-Converged : Ends (finish out t name) (Converged out t name)
  unfolding finish
  finish-Converged = set_condition-Ends out _ _ _ _ _ _ λ t₁.
      set_condition-Ends out _ _ _ _ _ _ λ t₂. set_condition-Ends out _ _ _ _ _ _ λ t₃.
        stored-Converged _ (record {
          metadata = refl;
          spec = refl;
          conditions =
              finish-IsHealthy out laws t.metadata t.status.conditions _ _ _ _ _ _ t₁ t₂ t₃;
          generation = refl;
          topic_name = refl;
        })

-- Success of a topic that differs from `t` in its conditions alone is success of `t`.
unmarked :
    (out : Outside) (name : String) (t : Topic) (cs : List Condition) (o : Outcome) (tr : Trace)
    → Converged out (with_conditions t cs) name o tr
    → Converged out t name o tr
unmarked out name t cs o tr (e, t', success, wrote) = (
  e,
  t',
  record {
    metadata = success.metadata;
    spec = success.spec;
    conditions = success.conditions;
    generation = success.generation;
    topic_name = success.topic_name;
  },
  wrote,
)

-- The two branches on whether the topic exists.
abbrev pub branches : Outside → String → Topic → Client → Option TopicInfo → Action Outcome
branches out name x c found =
    on_option found (create_missing out c x name) (λ i. take_over out c x name i)

marked :
    (t : Topic) (name : String)
    → topic_name t ≡ name
    → (cs : List Condition) → topic_name (with_conditions t cs) ≡ name
unfolding topic_name
marked t name named cs = named

module _ (out : Outside) (cluster : Cluster) (w : Working out cluster) (name : String)
    (found : Option TopicInfo)
    (lists : (tr : Trace) (h : Handle) (names : List String)
      → Untouched tr
      → IsOk (λ topics. found_topic name topics ≡ found) (out.list_topics tr h names)) where
  -- What a listing answers while no topic has been touched.
  listed-Triple :
      (c : Client) (names : List String)
      → Triple Untouched
          (list_topics out c.admin_client names)
          (λ r tr. IsOk (λ topics. found_topic name topics ≡ found) r × Untouched tr)
  unfolding ask
  listed-Triple c names = record { at = λ tr h. (lists tr _ _ h, h) }

  check_health-Triple :
      (c : Client) → Triple Untouched (check_health out c) (λ r tr. IsOk (λ _. ⊤) r × Untouched tr)
  unfolding check_health
  check_health-Triple c =
      Triple-ok {Good = λ topics. found_topic name topics ≡ found} _ _ _ (listed-Triple c _)
        (λ _ _. Triple-pure _ (λ tr h. (tt, h)))

  topic_exists-Triple :
      (c : Client)
      → Triple Untouched (topic_exists out c name) (λ r tr. IsOk (λ f. f ≡ found) r × Untouched tr)
  unfolding topic_exists
  topic_exists-Triple c =
      Triple-ok {Good = λ topics. found_topic name topics ≡ found} _ _ _ (listed-Triple c _)
        (λ topics e. Triple-pure _ (λ tr h. (e, h)))

  module _ (x : Topic) (named : topic_name x ≡ name) where
    reconcile_connected-Converged :
        (c : Client)
        → Ends (branches out name x c found) (Converged out x name)
        → Triple Untouched (reconcile_connected out c x) (Converged out x name)
    unfolding reconcile_connected
    reconcile_connected-Converged c branch = rw named (
        Triple-ok {Good = λ _. ⊤} _ _ _ (check_health-Triple c) (λ _ _.
          Triple-ok {Good = λ f. f ≡ found} _ _ _ (topic_exists-Triple c)
            (λ f e. rw e (Triple-Ends branch))))

  module _ (t : Topic) (named : topic_name t ≡ name)
      (branch : (c : Client) (cs : List Condition)
        → Ends
            (branches out name (with_conditions t cs) c found)
            (Converged out (with_conditions t cs) name)) where
    reconcile_ready-Converged :
        Triple Untouched (reconcile_ready out cluster t) (Converged out t name)
    unfolding reconcile_ready
    reconcile_ready-Converged = set_condition-Triple out Untouched-Ignores _ _ _ _ _ _ λ time.
        Triple-ok {Good = λ _. ⊤} _ _ _
          (Triple-Returns w.credentials (get_admin_credentials-Keeps out Untouched-Ignores _))
          (λ s _.
            session-Triple w Untouched-Ignores Untouched-IgnoresConnections _ s _ _ (λ o c tr h. h)
              (λ c.
                Triple-weaken
                  (reconcile_connected-Converged _ (marked t name named _) c (branch c _))
                  (unmarked out name t _)))

    found-Converged :
        (c : Cluster)
        → c ≡ cluster
        → Triple Untouched
            (if not (is_cluster_ready out c)
              then pure (after cluster_not_ready_requeue)
              else reconcile_ready out c t)
            (Converged out t name)
    found-Converged c e = rw (e, w.ready) reconcile_ready-Converged

    -- Where the cluster is ready, the credentials can be read, the brokers accept the connection
    -- and answer listings as supposed, and the branch taken ends so, the reconcile ends so too.
    pub reconcile_topic-Converged :
        IsUnsettled out t
        → (tr : Trace) → Untouched tr
        → Converged out t name (reconcile_topic out t tr).0 (reconcile_topic out t tr).1
    unfolding reconcile_topic
    reconcile_topic-Converged h tr fresh = rw (is_reconciled-IsUnsettled out t h) (
        (Triple-ok {Good = λ c. c ≡ cluster} _ _ _
            (Triple-Returns (get_cluster-Returns w _ _)
              (get_cluster-Keeps out Untouched-Ignores _ _))
            found-Converged).at
          tr fresh)
