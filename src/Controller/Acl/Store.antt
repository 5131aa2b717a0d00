-- ===== src/Controller/Acl/Store.antt =====
-- The ACL of a name as the API server keeps it, where nobody but the controller writes it.
use bufstream_operator.Prelude.{◌≡◌, refl, true, [], ◌∷◌, ok, err, if◌then◌else◌}
use bufstream_operator.Api.Meta.{NamespacedName}
use bufstream_operator.Api.Acl.{Acl}
use bufstream_operator.Outside.{Outside, Call, Object, Trace}
use bufstream_operator.Outside.Hoare.{read_cases, connection_cases, Keeps, IsRead, IsConnection}
use bufstream_operator.Outside.Laws.{ConditionLaws}
use bufstream_operator.Outside.Progress.{Wrote}
use bufstream_operator.Controller.Repeats.{is_named}
use bufstream_operator.Controller.Acl.Apply.{reconcile_acl}
use bufstream_operator.Controller.Acl.Live.{live-Keeps}

-- What a call leaves: an accepted update writes metadata and spec, an accepted status update
-- writes the status, each of the object that it names.
abbrev write : NamespacedName → Call → Acl → Acl
write n (Call.updated (Object.acl x) (ok _)) t = record t {
  metadata = if is_named n x.metadata then x.metadata else t.metadata;
  spec = if is_named n x.metadata then x.spec else t.spec;
}
write n (Call.status_updated (Object.acl x) (ok _)) t = record t {
  status = if is_named n x.metadata then x.status else t.status;
}
write n _ t = t

-- The ACL of this name after the calls, where it was `t` before them.
abbrev pub stored : NamespacedName → Acl → Trace → Acl
stored n t [] = t
stored n t (c ∷ tr) = write n c (stored n t tr)

-- The stored ACL has the metadata and the spec of `x`.
abbrev Same : NamespacedName → Acl → Acl → Trace → Type 0
Same n t x tr = ((stored n t tr).metadata ≡ x.metadata) × ((stored n t tr).spec ≡ x.spec)

module _ (n : NamespacedName) (t : Acl) where
  module _ (x : Acl) where
    reads : (c : Call) → IsRead c → (tr : Trace) → Same n t x tr → Same n t x (c ∷ tr)
    reads =
        read_cases (Same n t x) (λ _ _ _ h. h) (λ _ _ h. h) (λ _ h. h) (λ _ _ h. h) (λ _ _ _ _ h. h)
          (λ _ _ _ _ h. h)

    connections : (c : Call) → IsConnection c → (tr : Trace) → Same n t x tr → Same n t x (c ∷ tr)
    connections = connection_cases (Same n t x) (λ _ _ _ h. h) (λ _ _ h. h) (λ _ _ h. h)

    statuses :
        (t' : Acl) (answer : _) (tr : Trace)
        → Same n t x tr
        → Same n t x (Call.status_updated (Object.acl t') answer ∷ tr)
    statuses t' (ok _) tr h = h
    statuses t' (err _) tr h = h

    -- The reconcile of a live ACL leaves metadata and spec in the API server alone.
    pub reconcile_acl-Same :
        (out : Outside) → ConditionLaws out → Keeps (Same n t x) (reconcile_acl out x)
    reconcile_acl-Same out laws =
        live-Keeps out laws x
          (record {
            ignores = record { read = reads };
            ignores_after = record { read = reads };
            event = λ _ _ _ tr h. h;
            event_after = λ _ _ _ tr h. h;
            creation = λ _ _ tr h. h;
            accepted = λ _ _ tr e h. h;
            failure = λ t' a tr report h. statuses t' a tr h;
            success = λ t' a tr report h. statuses t' a tr h;
          })
          (record { connection = connections })

  -- After the accepted status update of an object of this name, its status is stored.
  pub stored-Wrote :
      (x : Acl) (tr : Trace)
      → is_named n x.metadata ≡ true
      → Wrote (Object.acl x) tr
      → (stored n t tr).status ≡ x.status
  stored-Wrote x (Call.status_updated y (ok _) ∷ tr) named h = rw (h, named) refl
  stored-Wrote x (Call.kgo_closed _ ∷ tr) named h = stored-Wrote x tr named h
  stored-Wrote x (Call.admin_closed _ ∷ tr) named h = stored-Wrote x tr named h
  stored-Wrote x _ named h = absurd h
