-- ===== src/Controller/Acl/Lifecycle.antt =====
-- A resource that is settled already, for which a reconcile does nothing, and one that is not.
use bufstream_operator.Prelude.{◌≡◌, refl, true, false, arith, inl, inr}
use bufstream_operator.Api.Acl.{Acl}
use bufstream_operator.Outside.{Outside, Trace}
use bufstream_operator.Outside.Action.{pure}
use bufstream_operator.Controller.Common.{after, requeue_healthy}
use bufstream_operator.Controller.Conditions.{
  IsHealthy, is_true-of_status, IsStale, is_true-of_status_ne,
}
use bufstream_operator.Controller.Acl.Base.{acl_finalizer}
use bufstream_operator.Controller.Acl.Apply.{is_reconciled, reconcile_acl}

-- The resource with the finalizer added.
abbrev pub adopted : Outside → Acl → Acl
adopted out x = record x {
  metadata = record (x.metadata) {
    finalizers = out.add_finalizer x.metadata.finalizers acl_finalizer;
  };
}

-- The resource is not settled: its status is not one of success of its generation.
abbrev pub IsUnsettled : Outside → Acl → Type 0
IsUnsettled out x = IsStale out x.metadata x.status.observed_generation x.status.conditions

pub is_reconciled-IsUnsettled :
    (out : Outside) (x : Acl) → IsUnsettled out x → is_reconciled out x ≡ false
unfolding is_reconciled
is_reconciled-IsUnsettled out x (inl n) = ground (arith, n)
is_reconciled-IsUnsettled out x (inr n) =
    let unready = is_true-of_status_ne out x.status.conditions n in ground (arith, unready)

module _ (out : Outside) (x : Acl) (tr : Trace) where
  is_reconciled-IsHealthy :
      x.status.observed_generation ≡ x.metadata.generation
      → IsHealthy out x.status.conditions
      → is_reconciled out x ≡ true
  unfolding is_reconciled
  is_reconciled-IsHealthy e h =
      let ready = is_true-of_status out x.status.conditions h.0 in ground (arith, e, ready)

  -- A resource whose status reports success of its generation makes no call at all and comes back
  -- after five minutes.
  pub reconcile_acl-settled :
      x.status.observed_generation ≡ x.metadata.generation
      → IsHealthy out x.status.conditions
      → reconcile_acl out x tr ≡ (after requeue_healthy, tr)
  unfolding reconcile_acl pure
  reconcile_acl-settled e h = rw (is_reconciled-IsHealthy e h) refl
