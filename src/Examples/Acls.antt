-- ===== src/Examples/Acls.antt =====
-- ACLs in the concrete outside.
use text.Mathlib.TextEquality.{eq_iff}
use bufstream_operator.Prelude.{arith, ◌≡◌, ◌↔◌, refl, [], ◌∷◌, inl, inr, none, some, ok}
use bufstream_operator.Api.Acl.{Acl}
use bufstream_operator.Api.Meta.{Fault}
use bufstream_operator.Outside.{
  Call, allow, allow_hosts, resource_pattern_type, pattern_prefixed, topics, operations, op_read,
  Kind,
}
use bufstream_operator.Bufstream.Responses.{
  AllFaults, NoneOrNotFound, delete_acl_fault-NoneOrNotFound,
}
use bufstream_operator.Bufstream.Acl.{delete_acl_fault}
use bufstream_operator.Controller.Acl.Rules.{steps_of, IsSuccess}
use bufstream_operator.Controller.Acl.Faithful.{steps_of-faithful}
use bufstream_operator.Controller.Common.{name_of, after, requeued, requeue_healthy}
use bufstream_operator.Controller.Connections.{open_clients}
use bufstream_operator.Controller.Acl.Base.{acl_finalizer}
use bufstream_operator.Controller.Acl.Apply.{reconcile_acl}
use bufstream_operator.Controller.Acl.Remove.{reconcile_delete}
use bufstream_operator.Controller.Acl.Reconcile.{reconcile}
use bufstream_operator.Controller.Acl.Readiness.{ReportsInOrder, reconcile_acl-ReportsInOrder}
use bufstream_operator.Controller.Acl.Finalizer.{RemovesInOrder, acl_removal-RemovesInOrder}
use bufstream_operator.Controller.Repeats.{runs, replicate, calls}
use bufstream_operator.Controller.Acl.Store.{stored}
use bufstream_operator.Controller.Acl.Settles.{acl-settles}
use bufstream_operator.Controller.Acl.Decoded.{decode, said_by, IsAdmitted, steps_of-decodes}
use bufstream_operator.Controller.Acl.Closes.{acl_reconcile-closes}
use bufstream_operator.Controller.Acl.Converges.{Converged, reconcile_acl-converges}
use bufstream_operator.Controller.Acl.Lifecycle.{IsUnsettled, adopted}
use bufstream_operator.Examples.World.{
  world, a_cluster, world-Working, world-conditions, world-finalizers, an_acl, healthy,
}

abbrev new_acl : Acl
new_acl = an_acl [] none 0 []

abbrev live_acl : Acl
live_acl = an_acl (acl_finalizer ∷ []) none 1 []

abbrev settled_acl : Acl
settled_acl = an_acl (acl_finalizer ∷ []) none 2 healthy

abbrev deleted_acl : Acl
deleted_acl = an_acl (acl_finalizer ∷ []) (some 5) 2 healthy

reconcile_acl-ReportsInOrder_example :
    ReportsInOrder world live_acl (reconcile_acl world live_acl []).1
reconcile_acl-ReportsInOrder_example = reconcile_acl-ReportsInOrder world live_acl world-conditions

acl_removal-RemovesInOrder_example :
    RemovesInOrder world deleted_acl (reconcile_delete world deleted_acl []).1
acl_removal-RemovesInOrder_example = acl_removal-RemovesInOrder world deleted_acl

live_acl-IsUnsettled : IsUnsettled world live_acl
live_acl-IsUnsettled = inl (ground arith)

reconcile_acl-converges_example :
    Converged world live_acl (reconcile_acl world live_acl []).0 (reconcile_acl world live_acl []).1
reconcile_acl-converges_example =
    reconcile_acl-converges world world-conditions a_cluster world-Working (λ _ _ _. (tt, tt))
      (λ _ _. refl) live_acl live_acl-IsUnsettled []

new_acl-IsUnsettled : IsUnsettled world new_acl
new_acl-IsUnsettled = inl (ground arith)

acl-settles_example :
    let step = reconcile world (name_of new_acl.metadata) in
    let late = runs 7 step [] in
    (late.0 ≡ requeued ∷ replicate 6 (after requeue_healthy))
    × (late.1 ≡ calls 5 (Call.fetched Kind.acl_kind (name_of new_acl.metadata)) (runs 2 step []).1)
    × IsSuccess world (adopted world new_acl) (stored (name_of new_acl.metadata) new_acl late.1)
acl-settles_example =
    acl-settles world world-conditions world-finalizers a_cluster world-Working new_acl
      (λ _ _ _. (tt, tt)) (λ _ _. refl) (λ _ _. refl) (λ _. refl) refl refl new_acl-IsUnsettled 5

acl_reconcile-closes_example :
    open_clients (reconcile world (name_of live_acl.metadata) []).1 ≡ open_clients []
acl_reconcile-closes_example =
    acl_reconcile-closes world world-conditions (name_of live_acl.metadata) []

abbrev gone : Fault
gone = record { code = 3; text = "RESOURCE_NOT_FOUND" }

delete_acl_fault-NoneOrNotFound_example :
    (delete_acl_fault (some gone ∷ none ∷ []) ≡ ok tt)
    ↔ AllFaults NoneOrNotFound (some gone ∷ none ∷ [])
delete_acl_fault-NoneOrNotFound_example = delete_acl_fault-NoneOrNotFound (some gone ∷ none ∷ [])

-- The same for one host alone.
abbrev hosted_acl : Acl
hosted_acl = record live_acl { spec = record (live_acl.spec) { host = "10.0.0.1" } }

steps_of-faithful_example :
    steps_of hosted_acl
    ≡ allow "User:ada"
      ∷ allow_hosts "10.0.0.1"
      ∷ resource_pattern_type pattern_prefixed
      ∷ topics "orders"
      ∷ operations op_read
      ∷ []
steps_of-faithful_example =
    steps_of-faithful hosted_acl "10.0.0.1" (allow "User:ada" ∷ allow_hosts "10.0.0.1" ∷ [])
      pattern_prefixed (topics "orders") op_read
      (inr (λ e. absurd (ground (arith, eq_iff "10.0.0.1" "", e)), refl)) (inl (refl, refl))
      (inr (refl, refl)) (inl (refl, refl)) (inl (refl, refl))

hosted_acl-IsAdmitted : IsAdmitted hosted_acl
hosted_acl-IsAdmitted = record {
  permission = inl refl;
  pattern = inr (inl refl);
  kind = inl refl;
  operation = inl refl;
}

steps_of-decodes_example : decode (steps_of hosted_acl) ≡ some (said_by hosted_acl)
steps_of-decodes_example = steps_of-decodes hosted_acl hosted_acl-IsAdmitted
