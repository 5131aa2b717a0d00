-- ===== src/Controller/Topic/Finalizer.antt =====
-- What a reconcile of a topic that is being deleted does, and in which order.
use bufstream_operator.Prelude.{List, ◌≡◌, refl, [], ◌∷◌, ok, ◌⊎◌, inl}
use bufstream_operator.Api.Topic.{Topic}
use bufstream_operator.Outside.{Outside, Call, Object, Kind, Handle, Trace}
use bufstream_operator.Outside.Hoare.{read_cases, connection_cases, Keeps, IsRead, IsConnection}
use bufstream_operator.Bufstream.Responses.{
  AllResponses, NoneOrUnknownTopic, delete_fault-NoneOrUnknownTopic,
}
use bufstream_operator.Controller.Common.{name_of}
use bufstream_operator.Controller.Connections.{Open, Open-Ignores}
use bufstream_operator.Controller.Topic.Names.{IsNameOf, topic_name-IsNameOf}
use bufstream_operator.Controller.Topic.Remove.{reconcile_delete}
use bufstream_operator.Controller.Topic.Removal.{
  released, RemovalRules, removal-Keeps, removal-Open,
}

-- The brokers have been asked to delete the topic, and each response has no error or an error whose
-- text is exactly UNKNOWN_TOPIC_OR_PARTITION or UNKNOWN_TOPIC.
abbrev pub IsDeleted : Topic → Trace → Type 0
IsDeleted t [] = ⊥
IsDeleted t (Call.topics_deleted _ n (ok rs) ∷ tr) =
    (IsNameOf t n × AllResponses NoneOrUnknownTopic rs) ⊎ IsDeleted t tr
IsDeleted t (_ ∷ tr) = IsDeleted t tr

-- The calls that removal may make, the latest first: it reads, connects and disconnects, records
-- events on the topic, deletes the topic of the spec's name, and removes the finalizer, all else of
-- the object unchanged, only once that topic is deleted.
abbrev pub RemovesInOrder : Outside → Topic → Trace → Type 0
RemovesInOrder out t [] = Unit
RemovesInOrder out t (Call.updated (Object.topic t') _ ∷ tr) =
    (t' ≡ released out t) × IsDeleted t tr × RemovesInOrder out t tr
RemovesInOrder out t (Call.topics_deleted _ n _ ∷ tr) = IsNameOf t n × RemovesInOrder out t tr
RemovesInOrder out t (Call.event k n _ _ _ ∷ tr) =
    (k ≡ Kind.topic_kind) × (n ≡ name_of t.metadata) × RemovesInOrder out t tr
RemovesInOrder out t (Call.fetched _ _ ∷ tr) = RemovesInOrder out t tr
RemovesInOrder out t (Call.secret_fetched _ ∷ tr) = RemovesInOrder out t tr
RemovesInOrder out t (Call.clock_read ∷ tr) = RemovesInOrder out t tr
RemovesInOrder out t (Call.environment_read _ ∷ tr) = RemovesInOrder out t tr
RemovesInOrder out t (Call.pinged _ _ _ ∷ tr) = RemovesInOrder out t tr
RemovesInOrder out t (Call.topics_listed _ _ _ ∷ tr) = RemovesInOrder out t tr
RemovesInOrder out t (Call.client_created _ _ ∷ tr) = RemovesInOrder out t tr
RemovesInOrder out t (Call.kgo_closed _ ∷ tr) = RemovesInOrder out t tr
RemovesInOrder out t (Call.admin_closed _ ∷ tr) = RemovesInOrder out t tr
RemovesInOrder out t (_ ∷ tr) = ⊥

module _ (out : Outside) (t : Topic) where
  reads :
      (c : Call) → IsRead c → (tr : Trace) → RemovesInOrder out t tr → RemovesInOrder out t (c ∷ tr)
  reads =
      read_cases (RemovesInOrder out t) (λ _ _ _ h. h) (λ _ _ h. h) (λ _ h. h) (λ _ _ h. h)
        (λ _ _ _ _ h. h) (λ _ _ _ _ h. h)

  connections :
      (c : Call)
      → IsConnection c
      → (tr : Trace) → RemovesInOrder out t tr
      → RemovesInOrder out t (c ∷ tr)
  connections = connection_cases (RemovesInOrder out t) (λ _ _ _ h. h) (λ _ _ h. h) (λ _ _ h. h)

  RemovesInOrder-RemovalRules :
      RemovalRules out t (RemovesInOrder out t) (λ tr. IsDeleted t tr × RemovesInOrder out t tr)
  RemovesInOrder-RemovalRules = record {
    ignores = record { read = reads };
    event = λ _ _ _ tr h. (refl, refl, h);
    event_after = λ _ _ _ tr h. (h.0, (refl, refl, h.1));
    deletion = λ _ _ tr h. (topic_name-IsNameOf t, h);
    accepted = λ _ rs tr e h.
        let named = topic_name-IsNameOf t in
        (inl (named, (delete_fault-NoneOrUnknownTopic rs).0 e), (named, h));
    updated = λ _ tr h. (refl, h.0, h.1);
  }

  -- From an empty history: while a topic is being deleted, the only write of the object is the one
  -- that removes the finalizer, and it comes after a call that deleted the broker's topic of the
  -- spec's name and that was answered without an error, or with errors whose text is exactly
  -- UNKNOWN_TOPIC_OR_PARTITION or UNKNOWN_TOPIC; nothing else is deleted, created or altered, and
  -- no status is written.
  pub topic_removal-RemovesInOrder : RemovesInOrder out t (reconcile_delete out t []).1
  topic_removal-RemovesInOrder =
      (removal-Keeps out t RemovesInOrder-RemovalRules (record { connection = connections })).at []
        tt

  -- The clients that are open are as they were.
  pub topic_removal-Open : (hs : List Handle) → Keeps (Open hs) (reconcile_delete out t)
  topic_removal-Open hs =
      removal-Open out t
        (λ hs. record {
          ignores = Open-Ignores hs;
          event = λ _ _ _ tr h. h;
          event_after = λ _ _ _ tr h. h;
          deletion = λ _ _ tr h. h;
          accepted = λ _ rs tr e h. h;
          updated = λ _ tr h. h;
        })
        hs
