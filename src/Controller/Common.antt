-- ===== src/Controller/Common.antt =====
-- The constants of internal/controller that all reconcilers share, and what a reconciler returns.
use bufstream_operator.Prelude.{ℕ, ◌*◌, String, Bool, true, false, Option, none, some}
use bufstream_operator.Api.Meta.{Error, Message, Condition, NamespacedName, ObjectMeta}
use bufstream_operator.Outside.{Outside}
use bufstream_operator.Outside.Action.{Action, pure, ◌>>=◌}
use bufstream_operator.Outside.Calls.{now}
use bufstream_operator.Bufstream.Client.{second}

abbrev pub minute : ℕ
minute = 60 * second

-- Condition types
abbrev pub type_ready : String
type_ready = "Ready"

abbrev pub type_degraded : String
type_degraded = "Degraded"

abbrev pub type_progressing : String
type_progressing = "Progressing"

-- Requeue intervals
abbrev pub requeue_healthy : ℕ
requeue_healthy = 5 * minute

abbrev pub requeue_degraded : ℕ
requeue_degraded = 30 * second

abbrev pub cluster_not_ready_requeue : ℕ
cluster_not_ready_requeue = 10 * second

abbrev pub cluster_health_check_interval : ℕ
cluster_health_check_interval = 10 * second

-- The pair (ctrl.Result, error) that `Reconcile` returns, with the two fields of ctrl.Result.
pub record Outcome : Type 0 where
  pub requeue : Bool
  pub requeue_after : ℕ
  pub error : Option Error

-- ctrl.Result{}, nil
abbrev pub done : Outcome
done = record { requeue = false; requeue_after = 0; error = none }

-- ctrl.Result{Requeue: true}, nil
abbrev pub requeued : Outcome
requeued = record { requeue = true; requeue_after = 0; error = none }

-- ctrl.Result{RequeueAfter: d}, nil
abbrev pub after : ℕ → Outcome
after d = record { requeue = false; requeue_after = d; error = none }

-- ctrl.Result{RequeueAfter: d}, err
abbrev pub after_error : ℕ → Error → Outcome
after_error d e = record { requeue = false; requeue_after = d; error = some e }

-- ctrl.Result{}, err
abbrev pub failed : Error → Outcome
failed e = record { requeue = false; requeue_after = 0; error = some e }

abbrev pub name_of : ObjectMeta → NamespacedName
name_of m = record { name = m.name; namespace = m.namespace }

-- The literal of metav1.Condition in each `setCondition`.
unfoldable pub new_condition :
    Outside → ObjectMeta → String → String → String → Message → Action Condition
new_condition out metadata kind status reason message = do
  time ← now out
  pure (record {
    kind = kind;
    status = status;
    reason = reason;
    message = message;
    observed_generation = metadata.generation;
    last_transition_time = time;
  })
