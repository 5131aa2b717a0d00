-- ===== src/Controller/Acl/Finalizer.antt =====
-- What a reconcile of an ACL that is being deleted does, and in which order.
use bufstream_operator.Prelude.{List, ◌≡◌, refl, [], ◌∷◌, ok, ◌⊎◌, inl}
use bufstream_operator.Api.Acl.{Acl}
use bufstream_operator.Outside.{Outside, Call, Object, Kind, Handle, Trace}
use bufstream_operator.Outside.Hoare.{read_cases, connection_cases, Keeps, IsRead, IsConnection}
use bufstream_operator.Bufstream.Responses.{
  AllFaults, NoneOrNotFound, delete_acl_fault-NoneOrNotFound,
}
use bufstream_operator.Controller.Common.{name_of}
use bufstream_operator.Controller.Connections.{Open, Open-Ignores}
use bufstream_operator.Controller.Acl.Rules.{steps_of}
use bufstream_operator.Controller.Acl.Remove.{reconcile_delete}
use bufstream_operator.Controller.Acl.Removal.{released, RemovalRules, removal-Keeps, removal-Open}

-- The brokers have been asked to delete the ACL, and each response has no error or an error whose
-- text is exactly RESOURCE_NOT_FOUND.
abbrev pub IsDeleted : Acl → Trace → Type 0
IsDeleted a [] = ⊥
IsDeleted a (Call.acls_deleted _ builder (ok rs) ∷ tr) =
    ((builder ≡ steps_of a) × AllFaults NoneOrNotFound rs) ⊎ IsDeleted a tr
IsDeleted a (_ ∷ tr) = IsDeleted a tr

-- The calls that removal may make, the latest first: it reads, connects and disconnects, records
-- events on the ACL, deletes the ACL of the spec, and removes the finalizer, all else of the object
-- unchanged, only once that is deleted.
abbrev pub RemovesInOrder : Outside → Acl → Trace → Type 0
RemovesInOrder out a [] = Unit
RemovesInOrder out a (Call.updated (Object.acl a') _ ∷ tr) =
    (a' ≡ released out a) × IsDeleted a tr × RemovesInOrder out a tr
RemovesInOrder out a (Call.acls_deleted _ builder _ ∷ tr) =
    (builder ≡ steps_of a) × RemovesInOrder out a tr
RemovesInOrder out a (Call.event k n _ _ _ ∷ tr) =
    (k ≡ Kind.acl_kind) × (n ≡ name_of a.metadata) × RemovesInOrder out a tr
RemovesInOrder out a (Call.fetched _ _ ∷ tr) = RemovesInOrder out a tr
RemovesInOrder out a (Call.secret_fetched _ ∷ tr) = RemovesInOrder out a tr
RemovesInOrder out a (Call.clock_read ∷ tr) = RemovesInOrder out a tr
RemovesInOrder out a (Call.environment_read _ ∷ tr) = RemovesInOrder out a tr
RemovesInOrder out a (Call.pinged _ _ _ ∷ tr) = RemovesInOrder out a tr
RemovesInOrder out a (Call.topics_listed _ _ _ ∷ tr) = RemovesInOrder out a tr
RemovesInOrder out a (Call.client_created _ _ ∷ tr) = RemovesInOrder out a tr
RemovesInOrder out a (Call.kgo_closed _ ∷ tr) = RemovesInOrder out a tr
RemovesInOrder out a (Call.admin_closed _ ∷ tr) = RemovesInOrder out a tr
RemovesInOrder out a (_ ∷ tr) = ⊥

module _ (out : Outside) (a : Acl) where
  reads :
      (c : Call) → IsRead c → (tr : Trace) → RemovesInOrder out a tr → RemovesInOrder out a (c ∷ tr)
  reads =
      read_cases (RemovesInOrder out a) (λ _ _ _ h. h) (λ _ _ h. h) (λ _ h. h) (λ _ _ h. h)
        (λ _ _ _ _ h. h) (λ _ _ _ _ h. h)

  connections :
      (c : Call)
      → IsConnection c
      → (tr : Trace) → RemovesInOrder out a tr
      → RemovesInOrder out a (c ∷ tr)
  connections = connection_cases (RemovesInOrder out a) (λ _ _ _ h. h) (λ _ _ h. h) (λ _ _ h. h)

  RemovesInOrder-RemovalRules :
      RemovalRules out a (RemovesInOrder out a) (λ tr. IsDeleted a tr × RemovesInOrder out a tr)
  RemovesInOrder-RemovalRules = record {
    ignores = record { read = reads };
    event = λ _ _ _ tr h. (refl, refl, h);
    event_after = λ _ _ _ tr h. (h.0, (refl, refl, h.1));
    deletion = λ _ _ tr h. (refl, h);
    accepted = λ _ rs tr e h. (inl (refl, (delete_acl_fault-NoneOrNotFound rs).0 e), (refl, h));
    updated = λ _ tr h. (refl, h.0, h.1);
  }

  -- From an empty history: while an ACL is being deleted, the only write of the object is the one
  -- that removes the finalizer, and it comes after a call that deleted the ACL of the spec and that
  -- was answered without an error, or with errors whose text is exactly RESOURCE_NOT_FOUND; nothing
  -- else is deleted, created or altered, and no status is written.
  pub acl_removal-RemovesInOrder : RemovesInOrder out a (reconcile_delete out a []).1
  acl_removal-RemovesInOrder =
      (removal-Keeps out a RemovesInOrder-RemovalRules (record { connection = connections })).at []
        tt

  -- The clients that are open are as they were.
  pub acl_removal-Open : (hs : List Handle) → Keeps (Open hs) (reconcile_delete out a)
  acl_removal-Open hs =
      removal-Open out a
        (λ hs. record {
          ignores = Open-Ignores hs;
          event = λ _ _ _ tr h. h;
          event_after = λ _ _ _ tr h. h;
          deletion = λ _ _ tr h. h;
          accepted = λ _ rs tr e h. h;
          updated = λ _ tr h. h;
        })
        hs
