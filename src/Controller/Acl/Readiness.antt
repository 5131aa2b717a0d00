-- ===== src/Controller/Acl/Readiness.antt =====
-- What a reconcile of an ACL that is not being deleted does, and in which order.
use bufstream_operator.Prelude.{List, ◌≡◌, refl, [], ◌∷◌, ok, ◌⊎◌, inl, inr}
use bufstream_operator.Api.Acl.{Acl}
use bufstream_operator.Outside.{Outside, Call, Object, Kind, Handle, Trace}
use bufstream_operator.Outside.Hoare.{read_cases, connection_cases, Keeps, IsRead, IsConnection}
use bufstream_operator.Bufstream.Responses.{AllFaults, NoFault, create_acl_fault-NoFault}
use bufstream_operator.Controller.Common.{name_of}
use bufstream_operator.Controller.Connections.{Open, Open-Ignores}
use bufstream_operator.Outside.Laws.{ConditionLaws}
use bufstream_operator.Controller.Acl.Apply.{reconcile_acl}
use bufstream_operator.Controller.Acl.Rules.{IsFailure, IsSuccess, LiveRules, steps_of}
use bufstream_operator.Controller.Acl.Live.{live-Keeps, live-Open}

-- The brokers have been asked to create the ACL, and no response has an error.
abbrev pub IsAccepted : Acl → Trace → Type 0
IsAccepted a [] = ⊥
IsAccepted a (Call.acls_created _ builder (ok rs) ∷ tr) =
    ((builder ≡ steps_of a) × AllFaults NoFault rs) ⊎ IsAccepted a tr
IsAccepted a (_ ∷ tr) = IsAccepted a tr

-- The calls that such a reconcile may make, the latest first: it reads, connects and disconnects,
-- records events on the resource, creates the ACL of the spec, and writes a
-- status that reports a failure, or success once the brokers have accepted.
abbrev pub ReportsInOrder : Outside → Acl → Trace → Type 0
ReportsInOrder out a [] = Unit
ReportsInOrder out a (Call.status_updated (Object.acl a') _ ∷ tr) =
    (IsFailure out a a' ⊎ (IsSuccess out a a' × IsAccepted a tr)) × ReportsInOrder out a tr
ReportsInOrder out a (Call.acls_created _ builder _ ∷ tr) =
    (builder ≡ steps_of a) × ReportsInOrder out a tr
ReportsInOrder out a (Call.event k n _ _ _ ∷ tr) =
    (k ≡ Kind.acl_kind) × (n ≡ name_of a.metadata) × ReportsInOrder out a tr
ReportsInOrder out a (Call.fetched _ _ ∷ tr) = ReportsInOrder out a tr
ReportsInOrder out a (Call.secret_fetched _ ∷ tr) = ReportsInOrder out a tr
ReportsInOrder out a (Call.clock_read ∷ tr) = ReportsInOrder out a tr
ReportsInOrder out a (Call.environment_read _ ∷ tr) = ReportsInOrder out a tr
ReportsInOrder out a (Call.pinged _ _ _ ∷ tr) = ReportsInOrder out a tr
ReportsInOrder out a (Call.topics_listed _ _ _ ∷ tr) = ReportsInOrder out a tr
ReportsInOrder out a (Call.client_created _ _ ∷ tr) = ReportsInOrder out a tr
ReportsInOrder out a (Call.kgo_closed _ ∷ tr) = ReportsInOrder out a tr
ReportsInOrder out a (Call.admin_closed _ ∷ tr) = ReportsInOrder out a tr
ReportsInOrder out a (_ ∷ tr) = ⊥

module _ (out : Outside) (a : Acl) where
  reads :
      (c : Call) → IsRead c → (tr : Trace) → ReportsInOrder out a tr → ReportsInOrder out a (c ∷ tr)
  reads =
      read_cases (ReportsInOrder out a) (λ _ _ _ h. h) (λ _ _ h. h) (λ _ h. h) (λ _ _ h. h)
        (λ _ _ _ _ h. h) (λ _ _ _ _ h. h)

  connections :
      (c : Call)
      → IsConnection c
      → (tr : Trace) → ReportsInOrder out a tr
      → ReportsInOrder out a (c ∷ tr)
  connections = connection_cases (ReportsInOrder out a) (λ _ _ _ h. h) (λ _ _ h. h) (λ _ _ h. h)

  IsAccepted-reads : (c : Call) → IsRead c → (tr : Trace) → IsAccepted a tr → IsAccepted a (c ∷ tr)
  IsAccepted-reads =
      read_cases (IsAccepted a) (λ _ _ _ h. h) (λ _ _ h. h) (λ _ h. h) (λ _ _ h. h) (λ _ _ _ _ h. h)
        (λ _ _ _ _ h. h)

  ReportsInOrder-LiveRules :
      LiveRules out a (ReportsInOrder out a) (λ tr. IsAccepted a tr × ReportsInOrder out a tr)
  ReportsInOrder-LiveRules = record {
    ignores = record { read = reads };
    ignores_after = record { read = λ c r tr h. (IsAccepted-reads c r tr h.0, reads c r tr h.1) };
    event = λ _ _ _ tr h. (refl, refl, h);
    event_after = λ _ _ _ tr h. (h.0, (refl, refl, h.1));
    creation = λ _ _ tr h. (refl, h);
    accepted = λ _ rs tr e h. (inl (refl, (create_acl_fault-NoFault rs).0 e), (refl, h));
    failure = λ a' _ tr report h. (inl report, h);
    success = λ a' _ tr report h. (inr (report, h.0), h.1);
  }

  -- Under the documented laws of SetStatusCondition, from an empty history: while an ACL is not
  -- being deleted, none is deleted and the object is not written; the only ACL that is created is
  -- that of the spec; and each status that is written keeps metadata and spec and reports either a
  -- failure (Ready is False and Degraded True), or, after a call that created the ACL and that was
  -- answered without an error, success of the resource's generation (Ready is True, Degraded and
  -- Progressing False).
  pub reconcile_acl-ReportsInOrder :
      ConditionLaws out → ReportsInOrder out a (reconcile_acl out a []).1
  reconcile_acl-ReportsInOrder laws =
      (live-Keeps out laws a ReportsInOrder-LiveRules (record { connection = connections })).at []
        tt

  -- The clients that are open are as they were.
  pub reconcile_acl-Open :
      ConditionLaws out → (hs : List Handle) → Keeps (Open hs) (reconcile_acl out a)
  reconcile_acl-Open laws hs =
      live-Open out laws a
        (λ hs. record {
          ignores = Open-Ignores hs;
          ignores_after = Open-Ignores hs;
          event = λ _ _ _ tr h. h;
          event_after = λ _ _ _ tr h. h;
          creation = λ _ _ tr h. h;
          accepted = λ _ rs tr e h. h;
          failure = λ _ _ tr report h. h;
          success = λ _ _ tr report h. h;
        })
        hs
