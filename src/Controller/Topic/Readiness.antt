-- ===== src/Controller/Topic/Readiness.antt =====
-- What a reconcile of a topic that is not being deleted does, and in which order.
use bufstream_operator.Prelude.{String, List, ◌≡◌, refl, true, [], ◌∷◌, ok, ◌⊎◌, inl, inr}
use bufstream_operator.Prelude.Int.{ℤ, int16}
use bufstream_operator.Api.Topic.{Topic}
use bufstream_operator.Outside.{Outside, Call, Object, Kind, Handle, Trace}
use bufstream_operator.Outside.Laws.{ConditionLaws}
use bufstream_operator.Outside.Hoare.{read_cases, connection_cases, Keeps, IsRead, IsConnection}
use bufstream_operator.Bufstream.Client.{Client}
use bufstream_operator.Bufstream.Responses.{AllResponses, NoFault, first_fault-NoFault}
use bufstream_operator.Bufstream.Topic.{TopicInfo, default_one}
use bufstream_operator.Bufstream.Topic.Update.{
  IsOneByDefault, default_one-IsOneByDefault, Grown, Configured, update_topic-Applied,
}
use bufstream_operator.Controller.Common.{name_of}
use bufstream_operator.Controller.Connections.{Open, Open-Ignores}
use bufstream_operator.Controller.Topic.Base.{topic_name}
use bufstream_operator.Controller.Topic.Names.{IsNameOf, topic_name-IsNameOf}
use bufstream_operator.Controller.Topic.Apply.{reconcile_topic}
use bufstream_operator.Controller.Topic.Rules.{IsFailure, IsSuccess, Found, LiveRules}
use bufstream_operator.Controller.Topic.Live.{live-Keeps, live-Open}

-- The last call created the topic as the spec says, and no response has an error.
abbrev pub Created : Topic → Trace → Type 0
Created t (Call.topics_created _ p r configs name (ok rs) ∷ _) =
    IsOneByDefault t.spec.partitions p
    × IsOneByDefault (int16 t.spec.replication_factor) r
    × (configs ≡ t.spec.config)
    × IsNameOf t name
    × AllResponses NoFault rs
Created t _ = ⊥

-- The last calls brought a topic that was listed to what the spec says: its replication factor was
-- that of the spec, it has the spec's partitions or got the missing ones, and its configuration is
-- set, if there is one.
abbrev pub Updated : Topic → Trace → Type 0
Updated t tr =
    (c : Client) × (current : TopicInfo) × (listed : Trace) × (grown : Trace) × (name : String)
    × IsNameOf t name
    × Found name current listed
    × IsOneByDefault (int16 t.spec.replication_factor) current.replication_factor
    × (desired : ℤ) × IsOneByDefault t.spec.partitions desired
    × Grown c name current.partitions desired listed grown
    × Configured c name t.spec.config grown tr

-- At some time the topic was brought to what the spec says.
abbrev pub IsApplied : Topic → Trace → Type 0
IsApplied t [] = Updated t []
IsApplied t (c ∷ tr) = Created t (c ∷ tr) ⊎ (Updated t (c ∷ tr) ⊎ IsApplied t tr)

-- The calls that such a reconcile may make, the latest first: it reads, connects and disconnects,
-- records events on the topic, creates the topic of the spec's name as the spec says, alters it
-- towards that if ownership is assumed, and writes a status that reports a failure, or success
-- once that has been done.
abbrev pub ReportsInOrder : Outside → Topic → Trace → Type 0
ReportsInOrder out t [] = Unit
ReportsInOrder out t (Call.status_updated (Object.topic t') _ ∷ tr) =
    (IsFailure out t t'
      ⊎ ((name : String) × IsNameOf t name × IsSuccess out t name t' × IsApplied t tr))
    × ReportsInOrder out t tr
ReportsInOrder out t (Call.topics_created _ p r configs name _ ∷ tr) =
    IsOneByDefault t.spec.partitions p
    × IsOneByDefault (int16 t.spec.replication_factor) r
    × (configs ≡ t.spec.config)
    × IsNameOf t name
    × ReportsInOrder out t tr
ReportsInOrder out t (Call.partitions_created _ n name _ ∷ tr) =
    (t.spec.assume_ownership ≡ true)
    × IsOneByDefault t.spec.partitions n
    × IsNameOf t name
    × ReportsInOrder out t tr
ReportsInOrder out t (Call.configs_altered _ configs name _ ∷ tr) =
    (t.spec.assume_ownership ≡ true)
    × (configs ≡ t.spec.config)
    × IsNameOf t name
    × ReportsInOrder out t tr
ReportsInOrder out t (Call.event k n _ _ _ ∷ tr) =
    (k ≡ Kind.topic_kind) × (n ≡ name_of t.metadata) × ReportsInOrder out t tr
ReportsInOrder out t (Call.fetched _ _ ∷ tr) = ReportsInOrder out t tr
ReportsInOrder out t (Call.secret_fetched _ ∷ tr) = ReportsInOrder out t tr
ReportsInOrder out t (Call.clock_read ∷ tr) = ReportsInOrder out t tr
ReportsInOrder out t (Call.environment_read _ ∷ tr) = ReportsInOrder out t tr
ReportsInOrder out t (Call.pinged _ _ _ ∷ tr) = ReportsInOrder out t tr
ReportsInOrder out t (Call.topics_listed _ _ _ ∷ tr) = ReportsInOrder out t tr
ReportsInOrder out t (Call.client_created _ _ ∷ tr) = ReportsInOrder out t tr
ReportsInOrder out t (Call.kgo_closed _ ∷ tr) = ReportsInOrder out t tr
ReportsInOrder out t (Call.admin_closed _ ∷ tr) = ReportsInOrder out t tr
ReportsInOrder out t (_ ∷ tr) = ⊥

module _ (out : Outside) (t : Topic) where
  reads :
      (c : Call) → IsRead c → (tr : Trace) → ReportsInOrder out t tr → ReportsInOrder out t (c ∷ tr)
  reads =
      read_cases (ReportsInOrder out t) (λ _ _ _ h. h) (λ _ _ h. h) (λ _ h. h) (λ _ _ h. h)
        (λ _ _ _ _ h. h) (λ _ _ _ _ h. h)

  connections :
      (c : Call)
      → IsConnection c
      → (tr : Trace) → ReportsInOrder out t tr
      → ReportsInOrder out t (c ∷ tr)
  connections = connection_cases (ReportsInOrder out t) (λ _ _ _ h. h) (λ _ _ h. h) (λ _ _ h. h)

  IsApplied-later : (c : Call) (tr : Trace) → IsApplied t tr → IsApplied t (c ∷ tr)
  IsApplied-later c tr h = inr (inr h)

  Updated-IsApplied : (tr : Trace) → Updated t tr → IsApplied t tr
  Updated-IsApplied [] h = h
  Updated-IsApplied (c ∷ tr) h = inr (inl h)

  named : IsNameOf t (topic_name t)
  named = topic_name-IsNameOf t

  parts : IsOneByDefault t.spec.partitions (default_one t.spec.partitions)
  parts = default_one-IsOneByDefault t.spec.partitions

  factor :
      IsOneByDefault
        (int16 t.spec.replication_factor)
        (default_one (int16 t.spec.replication_factor))
  factor = default_one-IsOneByDefault (int16 t.spec.replication_factor)

  ReportsInOrder-LiveRules :
      LiveRules out t (ReportsInOrder out t) (λ tr. IsApplied t tr × ReportsInOrder out t tr)
  ReportsInOrder-LiveRules = record {
    ignores = record { read = reads };
    ignores_after = record { read = λ c r tr h. (IsApplied-later c tr h.0, reads c r tr h.1) };
    event = λ _ _ _ tr h. (refl, refl, h);
    event_after = λ _ _ _ tr h. (IsApplied-later _ tr h.0, (refl, refl, h.1));
    creation = λ _ _ tr h. (parts, factor, refl, named, h);
    created = λ _ rs tr e h. (
      inl (parts, factor, refl, named, (first_fault-NoFault _ rs).0 e),
      (parts, factor, refl, named, h),
    );
    extended = λ owned _ _ tr h. (owned, parts, named, h);
    configured = λ owned _ _ tr h. (owned, refl, named, h);
    updated = λ c current tr found e h.
        let applied = update_topic-Applied out c (topic_name t) tr _ _ current _ e in
        (
          Updated-IsApplied _ (
            c,
            current,
            tr,
            applied.3,
            topic_name t,
            named,
            found,
            rw applied.0 factor,
            applied.1,
            applied.2,
            applied.4,
            applied.5,
          ),
          h,
        );
    failure = λ t' _ tr report h. (inl report, h);
    success = λ t' _ tr report h. (inr (topic_name t, named, report, h.0), h.1);
  }

  -- Under the documented laws of SetStatusCondition, from an empty history: while a topic is not
  -- being deleted, no topic is deleted and the object is not written; the only topic that is
  -- created is that of the spec's name, with the spec's numbers and configuration; that topic is
  -- altered towards these only where ownership is assumed; and each status that is written keeps
  -- metadata and spec and reports either a failure (Ready is False and Degraded True), or, after
  -- the topic has been created or a listed topic has been brought to the spec, each call answered
  -- without an error, success of the topic's generation with the broker topic's name (Ready is
  -- True, Degraded and Progressing False).
  pub reconcile_topic-ReportsInOrder :
      ConditionLaws out → ReportsInOrder out t (reconcile_topic out t []).1
  reconcile_topic-ReportsInOrder laws =
      (live-Keeps out laws t ReportsInOrder-LiveRules (record { connection = connections })).at []
        tt

  -- The clients that are open are as they were.
  pub reconcile_topic-Open :
      ConditionLaws out → (hs : List Handle) → Keeps (Open hs) (reconcile_topic out t)
  reconcile_topic-Open laws hs =
      live-Open out laws t
        (λ hs. record {
          ignores = Open-Ignores hs;
          ignores_after = Open-Ignores hs;
          event = λ _ _ _ tr h. h;
          event_after = λ _ _ _ tr h. h;
          creation = λ _ _ tr h. h;
          created = λ _ _ tr e h. h;
          extended = λ _ _ _ tr h. h;
          configured = λ _ _ _ tr h. h;
          updated = λ _ _ tr found e h. h;
          failure = λ _ _ tr report h. h;
          success = λ _ _ tr report h. h;
        })
        hs
