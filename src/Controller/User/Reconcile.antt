-- ===== src/Controller/User/Reconcile.antt =====
-- internal/controller/user_controller.go: `Reconcile`.
use bufstream_operator.Prelude.{not, if◌then◌else◌}
use bufstream_operator.Api.Meta.{NamespacedName, foreign}
use bufstream_operator.Api.User.{User}
use bufstream_operator.Outside.{Outside, Object}
use bufstream_operator.Outside.Action.{Action, pure, ◌>>=◌, on_error}
use bufstream_operator.Outside.Calls.{fetch_user, update}
use bufstream_operator.Controller.Common.{Outcome, done, requeued, failed}
use bufstream_operator.Controller.User.Base.{user_finalizer}
use bufstream_operator.Controller.User.Apply.{reconcile_user}
use bufstream_operator.Controller.User.Remove.{reconcile_delete}

module _ (out : Outside) where
  -- The finalizer is added, and the request comes back.
  unfoldable pub adopt : User → Action Outcome
  adopt user = do
    let adopted = record user {
      metadata = record (user.metadata) {
        finalizers = out.add_finalizer user.metadata.finalizers user_finalizer;
      };
    }
    updated ← update out (Object.user adopted)
    on_error updated (λ e. pure (failed (foreign e))) λ _. pure requeued

  -- `Reconcile` from the fetched user on.
  unfoldable pub reconcile_fetched : User → Action Outcome
  reconcile_fetched user =
      if not (out.is_zero user.metadata.deletion_timestamp)
      then reconcile_delete out user
      else if not (out.contains_finalizer user.metadata.finalizers user_finalizer)
      then adopt user
      else reconcile_user out user

  unfoldable pub reconcile : NamespacedName → Action Outcome
  reconcile request = do
    fetched ← fetch_user out request
    on_error fetched (λ e. if out.is_not_found e then pure done else pure (failed (foreign e)))
        λ user. reconcile_fetched user
