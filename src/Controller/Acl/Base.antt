-- ===== src/Controller/Acl/Base.antt =====
-- internal/controller/acl_controller.go: the names, the events and the conditions.
use bufstream_operator.Prelude.{String, [], ◌∷◌, ⊤}
use bufstream_operator.Api.Meta.{Error, lit, Message, plain, about, condition_true, condition_false}
use bufstream_operator.Api.Acl.{Acl}
use bufstream_operator.Outside.{Outside, Object, Kind}
use bufstream_operator.Outside.Action.{Action, pure, ◌>>=◌, ◌>>◌}
use bufstream_operator.Outside.Calls.{update_status, record_event}
use bufstream_operator.Controller.Common.{
  Outcome, after_error, name_of, new_condition, type_ready, type_degraded, requeue_degraded,
}

abbrev pub acl_finalizer : String
acl_finalizer = "bufstream.buf.build/acl-finalizer"

-- r.Recorder.Event(acl, …)
unfoldable pub emit : Acl → String → String → Message → Action ⊤
emit acl severity reason message =
    record_event Kind.acl_kind (name_of acl.metadata) severity reason message

-- The end of each failing branch of `reconcileDelete`.
unfoldable pub deletion_failed : Acl → String → Error → Action Outcome
deletion_failed acl prefix e = do
  emit acl "Warning" "DeletionFailed" (about (lit prefix ∷ []) e)
  pure (after_error requeue_degraded e)

module _ (out : Outside) where
  unfoldable pub set_condition : Acl → String → String → String → Message → Action Acl
  set_condition acl kind status reason message = do
    condition ← new_condition out acl.metadata kind status reason message
    pure (record acl {
      status = record (acl.status) {
        conditions = out.set_status_condition acl.status.conditions condition;
      };
    })

  -- The start of each failing branch of `reconcileACL`: the two conditions and the status, an
  -- error of whose update is only logged.
  unfoldable pub degrade : Acl → String → Message → String → Action ⊤
  degrade acl reason message brief = do
    degraded ← set_condition acl type_degraded condition_true reason message
    acl' ← set_condition degraded type_ready condition_false reason (plain brief)
    update_status out (Object.acl acl')
    pure tt
