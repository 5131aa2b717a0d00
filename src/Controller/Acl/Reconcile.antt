-- ===== src/Controller/Acl/Reconcile.antt =====
-- internal/controller/acl_controller.go: `Reconcile`.
use bufstream_operator.Prelude.{not, if◌then◌else◌}
use bufstream_operator.Api.Meta.{NamespacedName, foreign}
use bufstream_operator.Api.Acl.{Acl}
use bufstream_operator.Outside.{Outside, Object}
use bufstream_operator.Outside.Action.{Action, pure, ◌>>=◌, on_error}
use bufstream_operator.Outside.Calls.{fetch_acl, update}
use bufstream_operator.Controller.Common.{Outcome, done, requeued, failed}
use bufstream_operator.Controller.Acl.Base.{acl_finalizer}
use bufstream_operator.Controller.Acl.Apply.{reconcile_acl}
use bufstream_operator.Controller.Acl.Remove.{reconcile_delete}

module _ (out : Outside) where
  -- The finalizer is added, and the request comes back.
  unfoldable pub adopt : Acl → Action Outcome
  adopt acl = do
    let adopted = record acl {
      metadata = record (acl.metadata) {
        finalizers = out.add_finalizer acl.metadata.finalizers acl_finalizer;
      };
    }
    updated ← update out (Object.acl adopted)
    on_error updated (λ e. pure (failed (foreign e))) λ _. pure requeued

  -- `Reconcile` from the fetched acl on.
  unfoldable pub reconcile_fetched : Acl → Action Outcome
  reconcile_fetched acl =
      if not (out.is_zero acl.metadata.deletion_timestamp)
      then reconcile_delete out acl
      else if not (out.contains_finalizer acl.metadata.finalizers acl_finalizer)
      then adopt acl
      else reconcile_acl out acl

  unfoldable pub reconcile : NamespacedName → Action Outcome
  reconcile request = do
    fetched ← fetch_acl out request
    on_error fetched (λ e. if out.is_not_found e then pure done else pure (failed (foreign e)))
        λ acl. reconcile_fetched acl
