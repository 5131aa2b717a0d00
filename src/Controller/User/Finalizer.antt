-- ===== src/Controller/User/Finalizer.antt =====
-- What a reconcile of a user that is being deleted does, and in which order.
use bufstream_operator.Prelude.{List, ◌≡◌, refl, [], ◌∷◌, ok, ◌⊎◌, inl}
use bufstream_operator.Api.User.{User}
use bufstream_operator.Outside.{Outside, Call, Object, Kind, Handle, Trace}
use bufstream_operator.Outside.Hoare.{read_cases, connection_cases, Keeps, IsRead, IsConnection}
use bufstream_operator.Bufstream.Responses.{
  AllResponses, NoneOrNotFound, delete_user_fault-NoneOrNotFound,
}
use bufstream_operator.Controller.Common.{name_of}
use bufstream_operator.Controller.Connections.{Open, Open-Ignores}
use bufstream_operator.Controller.User.Names.{IsDeletion}
use bufstream_operator.Controller.User.Remove.{reconcile_delete}
use bufstream_operator.Controller.User.Removal.{
  deletion_of-IsDeletion, released, RemovalRules, removal-Keeps, removal-Open,
}

-- The brokers have been asked to delete the credentials, and each response has no error or an error
-- whose text is exactly RESOURCE_NOT_FOUND.
abbrev pub IsDeleted : User → Trace → Type 0
IsDeleted u [] = ⊥
IsDeleted u (Call.scrams_altered _ deletions upserts (ok rs) ∷ tr) =
    (IsDeletion u deletions × (upserts ≡ []) × AllResponses NoneOrNotFound rs) ⊎ IsDeleted u tr
IsDeleted u (_ ∷ tr) = IsDeleted u tr

-- The calls that removal may make, the latest first: it reads, connects and disconnects, records
-- events on the user, deletes the credentials of the spec's name and mechanism, and removes the
-- finalizer, all else of the object unchanged, only once they are deleted.
abbrev pub RemovesInOrder : Outside → User → Trace → Type 0
RemovesInOrder out u [] = Unit
RemovesInOrder out u (Call.updated (Object.user u') _ ∷ tr) =
    (u' ≡ released out u) × IsDeleted u tr × RemovesInOrder out u tr
RemovesInOrder out u (Call.scrams_altered _ deletions upserts _ ∷ tr) =
    IsDeletion u deletions × (upserts ≡ []) × RemovesInOrder out u tr
RemovesInOrder out u (Call.event k n _ _ _ ∷ tr) =
    (k ≡ Kind.user_kind) × (n ≡ name_of u.metadata) × RemovesInOrder out u tr
RemovesInOrder out u (Call.fetched _ _ ∷ tr) = RemovesInOrder out u tr
RemovesInOrder out u (Call.secret_fetched _ ∷ tr) = RemovesInOrder out u tr
RemovesInOrder out u (Call.clock_read ∷ tr) = RemovesInOrder out u tr
RemovesInOrder out u (Call.environment_read _ ∷ tr) = RemovesInOrder out u tr
RemovesInOrder out u (Call.pinged _ _ _ ∷ tr) = RemovesInOrder out u tr
RemovesInOrder out u (Call.topics_listed _ _ _ ∷ tr) = RemovesInOrder out u tr
RemovesInOrder out u (Call.client_created _ _ ∷ tr) = RemovesInOrder out u tr
RemovesInOrder out u (Call.kgo_closed _ ∷ tr) = RemovesInOrder out u tr
RemovesInOrder out u (Call.admin_closed _ ∷ tr) = RemovesInOrder out u tr
RemovesInOrder out u (_ ∷ tr) = ⊥

module _ (out : Outside) (u : User) where
  reads :
      (c : Call) → IsRead c → (tr : Trace) → RemovesInOrder out u tr → RemovesInOrder out u (c ∷ tr)
  reads =
      read_cases (RemovesInOrder out u) (λ _ _ _ h. h) (λ _ _ h. h) (λ _ h. h) (λ _ _ h. h)
        (λ _ _ _ _ h. h) (λ _ _ _ _ h. h)

  connections :
      (c : Call)
      → IsConnection c
      → (tr : Trace) → RemovesInOrder out u tr
      → RemovesInOrder out u (c ∷ tr)
  connections = connection_cases (RemovesInOrder out u) (λ _ _ _ h. h) (λ _ _ h. h) (λ _ _ h. h)

  RemovesInOrder-RemovalRules :
      RemovalRules out u (RemovesInOrder out u) (λ tr. IsDeleted u tr × RemovesInOrder out u tr)
  RemovesInOrder-RemovalRules = record {
    ignores = record { read = reads };
    event = λ _ _ _ tr h. (refl, refl, h);
    event_after = λ _ _ _ tr h. (h.0, (refl, refl, h.1));
    deletion = λ _ _ tr h. (deletion_of-IsDeletion u, refl, h);
    accepted = λ _ rs tr e h.
        let deletion = deletion_of-IsDeletion u in
        (inl (deletion, refl, (delete_user_fault-NoneOrNotFound rs).0 e), (deletion, refl, h));
    updated = λ _ tr h. (refl, h.0, h.1);
  }

  -- From an empty history: while a user is being deleted, the only write of the object is the one
  -- that removes the finalizer, and it comes after a call that deleted the credentials of the
  -- spec's name and mechanism and that was answered without an error, or with errors whose text is
  -- exactly RESOURCE_NOT_FOUND; nothing else is deleted, nothing is upserted, and no status is
  -- written.
  pub user_removal-RemovesInOrder : RemovesInOrder out u (reconcile_delete out u []).1
  user_removal-RemovesInOrder =
      (removal-Keeps out u RemovesInOrder-RemovalRules (record { connection = connections })).at []
        tt

  -- The clients that are open are as they were.
  pub user_removal-Open : (hs : List Handle) → Keeps (Open hs) (reconcile_delete out u)
  user_removal-Open hs =
      removal-Open out u
        (λ hs. record {
          ignores = Open-Ignores hs;
          event = λ _ _ _ tr h. h;
          event_after = λ _ _ _ tr h. h;
          deletion = λ _ _ tr h. h;
          accepted = λ _ rs tr e h. h;
          updated = λ _ tr h. h;
        })
        hs
