-- ===== src/Controller/User/Readiness.antt =====
-- What a reconcile of a user that is not being deleted does, and in which order.
use bufstream_operator.Prelude.{List, ◌≡◌, refl, [], List, ◌∷◌, ok, ◌⊎◌, inl, inr}
use bufstream_operator.Api.User.{User}
use bufstream_operator.Outside.{Outside, Call, Object, Kind, Handle, Trace}
use bufstream_operator.Outside.Hoare.{read_cases, connection_cases, Keeps, IsRead, IsConnection}
use bufstream_operator.Bufstream.Responses.{AllResponses, NoFault, first_fault-NoFault}
use bufstream_operator.Controller.Common.{name_of}
use bufstream_operator.Controller.Connections.{Open, Open-Ignores}
use bufstream_operator.Outside.Laws.{ConditionLaws}
use bufstream_operator.Controller.User.Apply.{reconcile_user}
use bufstream_operator.Controller.User.Names.{IsUpsert}
use bufstream_operator.Controller.User.Rules.{IsFailure, IsSuccess, LiveRules, upsert_of-IsUpsert}
use bufstream_operator.Controller.User.Live.{live-Keeps, live-Open}

-- The brokers have been asked to set the user's credentials, and no response has an error.
abbrev pub IsAccepted : User → Trace → Type 0
IsAccepted u [] = ⊥
IsAccepted u (Call.scrams_altered _ deletions upserts (ok rs) ∷ tr) =
    ((deletions ≡ []) × (IsUpsert u upserts) × AllResponses NoFault rs) ⊎ IsAccepted u tr
IsAccepted u (_ ∷ tr) = IsAccepted u tr

-- The calls that such a reconcile may make, the latest first: it reads, connects and disconnects,
-- records events on the resource, sets the credentials of the user, and writes a
-- status that reports a failure, or success once the brokers have accepted.
abbrev pub ReportsInOrder : Outside → User → Trace → Type 0
ReportsInOrder out u [] = Unit
ReportsInOrder out u (Call.status_updated (Object.user u') _ ∷ tr) =
    (IsFailure out u u' ⊎ (IsSuccess out u u' × IsAccepted u tr)) × ReportsInOrder out u tr
ReportsInOrder out u (Call.scrams_altered _ deletions upserts _ ∷ tr) =
    (deletions ≡ []) × IsUpsert u upserts × ReportsInOrder out u tr
ReportsInOrder out u (Call.event k n _ _ _ ∷ tr) =
    (k ≡ Kind.user_kind) × (n ≡ name_of u.metadata) × ReportsInOrder out u tr
ReportsInOrder out u (Call.fetched _ _ ∷ tr) = ReportsInOrder out u tr
ReportsInOrder out u (Call.secret_fetched _ ∷ tr) = ReportsInOrder out u tr
ReportsInOrder out u (Call.clock_read ∷ tr) = ReportsInOrder out u tr
ReportsInOrder out u (Call.environment_read _ ∷ tr) = ReportsInOrder out u tr
ReportsInOrder out u (Call.pinged _ _ _ ∷ tr) = ReportsInOrder out u tr
ReportsInOrder out u (Call.topics_listed _ _ _ ∷ tr) = ReportsInOrder out u tr
ReportsInOrder out u (Call.client_created _ _ ∷ tr) = ReportsInOrder out u tr
ReportsInOrder out u (Call.kgo_closed _ ∷ tr) = ReportsInOrder out u tr
ReportsInOrder out u (Call.admin_closed _ ∷ tr) = ReportsInOrder out u tr
ReportsInOrder out u (_ ∷ tr) = ⊥

module _ (out : Outside) (u : User) where
  reads :
      (c : Call) → IsRead c → (tr : Trace) → ReportsInOrder out u tr → ReportsInOrder out u (c ∷ tr)
  reads =
      read_cases (ReportsInOrder out u) (λ _ _ _ h. h) (λ _ _ h. h) (λ _ h. h) (λ _ _ h. h)
        (λ _ _ _ _ h. h) (λ _ _ _ _ h. h)

  connections :
      (c : Call)
      → IsConnection c
      → (tr : Trace) → ReportsInOrder out u tr
      → ReportsInOrder out u (c ∷ tr)
  connections = connection_cases (ReportsInOrder out u) (λ _ _ _ h. h) (λ _ _ h. h) (λ _ _ h. h)

  IsAccepted-reads : (c : Call) → IsRead c → (tr : Trace) → IsAccepted u tr → IsAccepted u (c ∷ tr)
  IsAccepted-reads =
      read_cases (IsAccepted u) (λ _ _ _ h. h) (λ _ _ h. h) (λ _ h. h) (λ _ _ h. h) (λ _ _ _ _ h. h)
        (λ _ _ _ _ h. h)

  ReportsInOrder-LiveRules :
      LiveRules out u (ReportsInOrder out u) (λ tr. IsAccepted u tr × ReportsInOrder out u tr)
  ReportsInOrder-LiveRules = record {
    ignores = record { read = reads };
    ignores_after = record { read = λ c r tr h. (IsAccepted-reads c r tr h.0, reads c r tr h.1) };
    event = λ _ _ _ tr h. (refl, refl, h);
    event_after = λ _ _ _ tr h. (h.0, (refl, refl, h.1));
    upsert = λ _ password _ tr h. (refl, upsert_of-IsUpsert u password, h);
    accepted = λ _ password rs tr e h.
        let upsert = upsert_of-IsUpsert u password in
        (inl (refl, upsert, (first_fault-NoFault _ rs).0 e), (refl, upsert, h));
    failure = λ u' _ tr report h. (inl report, h);
    success = λ u' _ tr report h. (inr (report, h.0), h.1);
  }

  -- Under the documented laws of SetStatusCondition, from an empty history: while a user is not
  -- being deleted, no credentials are deleted and the object is not written; the only credentials
  -- that are set are those of the spec's name, mechanism and iterations; and each status that is
  -- written keeps metadata and spec and reports either a failure (Ready is False and Degraded
  -- True), or, after a call that set the credentials and that was answered without an error,
  -- success of the user's generation (Ready is True, Degraded and Progressing False).
  pub reconcile_user-ReportsInOrder :
      ConditionLaws out → ReportsInOrder out u (reconcile_user out u []).1
  reconcile_user-ReportsInOrder laws =
      (live-Keeps out laws u ReportsInOrder-LiveRules (record { connection = connections })).at []
        tt

  -- The clients that are open are as they were.
  pub reconcile_user-Open :
      ConditionLaws out → (hs : List Handle) → Keeps (Open hs) (reconcile_user out u)
  reconcile_user-Open laws hs =
      live-Open out laws u
        (λ hs. record {
          ignores = Open-Ignores hs;
          ignores_after = Open-Ignores hs;
          event = λ _ _ _ tr h. h;
          event_after = λ _ _ _ tr h. h;
          upsert = λ _ _ _ tr h. h;
          accepted = λ _ _ rs tr e h. h;
          failure = λ _ _ tr report h. h;
          success = λ _ _ tr report h. h;
        })
        hs
