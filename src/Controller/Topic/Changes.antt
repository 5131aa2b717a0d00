-- ===== src/Controller/Topic/Changes.antt =====
-- The changes that a reconcile of a topic asks the brokers for: where the rules hold, they keep the
-- predicate of the history, and success is reported only after an accepted change.
use bufstream_operator.Prelude.{
  ◌≡◌, refl, String, List, [], ◌∷◌, ok, err, inl, inr, Bool, true, false, not, Option, none, some,
  Result, ⊤, Result-cases, Option-cases,
}
use bufstream_operator.Prelude.Int.{ℤ, int16, ◌==ℤ◌}
use bufstream_operator.Api.Meta.{Message, Fault, Error}
use bufstream_operator.Api.Topic.{Topic}
use bufstream_operator.Outside.{Outside, Trace, Call, Response, TopicDetail}
use bufstream_operator.Outside.Action.{on_option}
use bufstream_operator.Outside.Laws.{ConditionLaws}
use bufstream_operator.Outside.Hoare.{
  Keeps, keeps_rules, Keeps-bind, Keeps-pure, Keeps-if, Keeps-on_error, Triple, Keeps-triple,
  Triple-keeps, Triple-bind, Triple-then, Triple-ask, Triple-pure, Triple-if, Triple-on_error,
  Triple-strengthen,
}
use bufstream_operator.Bufstream.Client.{Client}
use bufstream_operator.Bufstream.Topic.{
  TopicInfo, create_topic, update_partitions, update_configs, update_topic, default_one,
  first_fault, found_topic, topic_exists,
}
use bufstream_operator.Controller.Conditions.{degrade-IsDegraded, finish-IsHealthy}
use bufstream_operator.Controller.Passive.{check_health-Keeps}
use bufstream_operator.Controller.Topic.Base.{emit, degrade, topic_name}
use bufstream_operator.Controller.Topic.Apply.{
  finish, create_missing, take_over, reconcile_connected,
}
use bufstream_operator.Controller.Topic.Rules.{LiveRules, set_condition-Triple, Found, update_of}

module _ (out : Outside) (laws : ConditionLaws out) {Q D : Trace → Type 0} (t : Topic)
    (rules : LiveRules out t Q D) where
  pub emit-Keeps : (severity reason : String) (m : Message) → Keeps Q (emit t severity reason m)
  unfolding emit
  emit-Keeps severity reason m = search (keeps_rules, rules.event)

  emit-Keeps_after : (severity reason : String) (m : Message) → Keeps D (emit t severity reason m)
  unfolding emit
  emit-Keeps_after severity reason m = search (keeps_rules, rules.event_after)

  pub degrade-Keeps : (reason brief : String) (m : Message) → Keeps Q (degrade out t reason m brief)
  unfolding degrade
  degrade-Keeps reason brief m = Keeps-triple (
      set_condition-Triple out rules.ignores t _ _ _ _ _ λ time.
        set_condition-Triple out rules.ignores _ _ _ _ _ _ λ time'.
          Triple-then _ _
            (Triple-ask {R = λ _ tr. Q tr} _ _ λ answer tr. rules.failure _ answer tr (record {
              metadata = refl;
              spec = refl;
              conditions =
                  degrade-IsDegraded out laws t.metadata t.status.conditions reason reason m _ time
                    time';
            }))
            (Triple-pure tt (λ tr h. h)))

  finish-Triple : Triple D (finish out t (topic_name t)) (λ _. Q)
  unfolding finish
  finish-Triple = set_condition-Triple out rules.ignores_after _ _ _ _ _ _ λ t₁.
      set_condition-Triple out rules.ignores_after _ _ _ _ _ _ λ t₂.
        set_condition-Triple out rules.ignores_after _ _ _ _ _ _ λ t₃.
          Triple-bind _ _
            (Triple-ask {R = λ _ tr. Q tr} _ _ λ answer tr. rules.success _ answer tr (record {
              metadata = refl;
              spec = refl;
              conditions =
                  finish-IsHealthy out laws t.metadata t.status.conditions _ _ _ _ _ _ t₁ t₂ t₃;
              generation = refl;
              topic_name = refl;
            }))
            (λ r. Triple-keeps (search keeps_rules))

  -- What a change leaves behind: `D` where it was accepted.
  abbrev After : Result Error ⊤ → Trace → Type 0
  After (ok _) = D
  After (err _) = Q

  abbrev Answered : Result Fault (List Response) → Trace → Type 0
  Answered resp tr =
      Q tr
      × ((rs : List Response)
          → resp ≡ ok rs
          → first_fault "failed to create topic " rs ≡ ok tt
          → D tr)

  create_topic-After :
      (c : Client)
      → Triple Q
          (create_topic out c (record {
            name = topic_name t;
            partitions = t.spec.partitions;
            replication_factor = int16 t.spec.replication_factor;
            config = t.spec.config;
          }))
          After
  unfolding create_topic
  create_topic-After c =
      Triple-bind _ _
        (Triple-ask {R = Answered} _ _ (λ resp tr h.
          (rules.creation _ resp tr h, λ rs e accepted. rw e (rules.created _ rs tr accepted h))))
        (λ resp.
          Triple-on_error Answered resp _ _ (λ e _. Triple-pure _ (λ tr h. h.0))
            (λ rs _. elim (Result-cases (first_fault "failed to create topic " rs)) [
              | inl (x, e) ↦ Triple-pure _ (λ tr h. rw e (h.1 rs refl e))
              | inr (x, e) ↦ Triple-pure _ (λ tr h. rw e h.0)
            ]))

  create_missing-Keeps : (c : Client) → Keeps Q (create_missing out c t (topic_name t))
  unfolding create_missing
  create_missing-Keeps c = Keeps-triple (
      Triple-bind _ _ (create_topic-After c) (λ created.
        Triple-on_error After created _ _
          (λ e _. Triple-keeps (search (keeps_rules, degrade-Keeps, emit-Keeps) depth 9))
          (λ _ _. Triple-then _ _ (Triple-keeps (emit-Keeps_after _ _ _)) finish-Triple)))

  module _ (owned : t.spec.assume_ownership ≡ true) where
    update_partitions-Keeps :
        (c : Client) (current : TopicInfo)
        → Keeps Q (update_partitions out c (topic_name t) (default_one t.spec.partitions) current)
    unfolding update_partitions
    update_partitions-Keeps c current = search (keeps_rules, rules.extended owned) depth 7

    update_configs-Keeps :
        (c : Client) (config : List (String × String))
        → config ≡ t.spec.config
        → Keeps Q (update_configs out c (topic_name t) config)
    unfolding update_configs
    update_configs-Keeps c [] e = search keeps_rules
    update_configs-Keeps c (kv ∷ config) e =
        rw e (search (keeps_rules, rules.configured owned) depth 7)

    update_topic-Keeps :
        (c : Client) (r : ℤ) (current : TopicInfo)
        → Keeps Q (update_topic out c (topic_name t) t.spec.partitions r current t.spec.config)
    unfolding update_topic
    update_topic-Keeps c r current =
        Keeps-if (current.replication_factor ==ℤ r) _ _
          (λ _. Keeps-bind _ _ (update_partitions-Keeps c current) (λ partitioned.
            Keeps-on_error partitioned _ _ (λ e. Keeps-pure (err e))
              (λ _. update_configs-Keeps c t.spec.config refl)))
          (λ _. search keeps_rules)

    update_topic-After :
        (c : Client) (current : TopicInfo)
        → Triple (λ tr. Found (topic_name t) current tr × Q tr) (update_of out t c current) After
    update_topic-After c current = record {
      at = λ tr h. elim (Result-cases (update_of out t c current tr).0) [
        | inl (u, e) ↦
            rw e (rules.updated c current tr h.0 e ((update_topic-Keeps c _ current).at tr h.1))
        | inr (x, e) ↦ rw e ((update_topic-Keeps c _ current).at tr h.1)
      ];
    }

  not_refused : (b : Bool) → not b ≡ false → b ≡ true
  not_refused true h = refl
  not_refused false h = absurd (cc h)

  take_over-Triple :
      (c : Client) (current : TopicInfo)
      → Triple
          (λ tr. Found (topic_name t) current tr × Q tr)
          (take_over out c t (topic_name t) current)
          (λ _. Q)
  unfolding take_over
  take_over-Triple c current =
      Triple-if (not t.spec.assume_ownership) _ _
        (λ _.
          Triple-strengthen (λ tr h. h.1)
            (Triple-keeps (search (keeps_rules, emit-Keeps, degrade-Keeps) depth 9)))
        (λ e.
          Triple-bind _ _ (update_topic-After (not_refused t.spec.assume_ownership e) c current)
            (λ updated.
              Triple-on_error After updated _ _
                (λ e _. Triple-keeps (search (keeps_rules, degrade-Keeps, emit-Keeps) depth 9))
                (λ _ _. Triple-then _ _ (Triple-keeps (emit-Keeps_after _ _ _)) finish-Triple)))

  -- What `TopicExists` leaves behind.
  abbrev Seen : Result Error (Option TopicInfo) → Trace → Type 0
  Seen (ok (some current)) tr = Found (topic_name t) current tr × Q tr
  Seen _ tr = Q tr

  abbrev Listed : Result Fault (List (String × TopicDetail)) → Trace → Type 0
  Listed answer tr =
      Q tr
      × ((topics : List (String × TopicDetail)) (current : TopicInfo)
          → answer ≡ ok topics
          → found_topic (topic_name t) topics ≡ some current
          → Found (topic_name t) current tr)

  topic_exists-Seen : (c : Client) → Triple Q (topic_exists out c (topic_name t)) Seen
  unfolding topic_exists
  topic_exists-Seen c =
      Triple-bind _ _
        (Triple-ask {R = Listed} _ _ (λ answer tr h. (
          rules.ignores.read (Call.topics_listed _ _ answer) tt tr h,
          λ topics current e f. rw e f,
        )))
        (λ answer.
          Triple-on_error Listed answer _ _ (λ e _. Triple-pure _ (λ tr h. h.0))
            (λ topics _. elim (Option-cases (found_topic (topic_name t) topics)) [
              | inl e ↦ Triple-pure _ (λ tr h. rw e h.0)
              | inr (current, e) ↦ Triple-pure _ (λ tr h. rw e (h.1 topics current refl e, h.0))
            ]))

  existing-Keeps :
      (c : Client) (found : Option TopicInfo)
      → Triple
          (Seen (ok found))
          (on_option found
            (create_missing out c t (topic_name t))
            (λ current. take_over out c t (topic_name t) current))
          (λ _. Q)
  unfolding on_option
  existing-Keeps c none = Triple-keeps (create_missing-Keeps c)
  existing-Keeps c (some current) = take_over-Triple c current

  pub reconcile_connected-Keeps : (c : Client) → Keeps Q (reconcile_connected out c t)
  unfolding reconcile_connected
  reconcile_connected-Keeps c = Keeps-bind _ _ (check_health-Keeps out rules.ignores c) (λ health.
      Keeps-on_error health _ _ (λ e. search (keeps_rules, degrade-Keeps, emit-Keeps) depth 9)
        (λ _. Keeps-triple (
          Triple-bind _ _ (topic_exists-Seen c) (λ found.
            Triple-on_error Seen found _ _
              (λ e _. Triple-keeps (search (keeps_rules, degrade-Keeps) depth 9))
              (λ existing _. existing-Keeps c existing)))))
