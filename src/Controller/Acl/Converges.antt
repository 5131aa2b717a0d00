-- ===== src/Controller/Acl/Converges.antt =====
-- A reconcile of an ACL that meets no obstacle ends with the ACL created and success stored.
use bufstream_operator.Prelude.{◌≡◌, refl, String, Option, List, ⊤, ok, not, if◌then◌else◌}
use bufstream_operator.Api.Meta.{Fault, Message, Time, Condition, foreign}
use bufstream_operator.Api.Cluster.{Cluster}
use bufstream_operator.Api.Acl.{Acl}
use bufstream_operator.Outside.{Outside, Object, Trace, Handle, AclStep}
use bufstream_operator.Outside.Action.{Action, ◌>>=◌, on_error, pure, ask}
use bufstream_operator.Outside.Calls.{update_status}
use bufstream_operator.Outside.Laws.{ConditionLaws}
use bufstream_operator.Outside.Progress.{
  Wrote, Ends, Returns, IsOk, Returns-ask, Returns-pure, Returns-ok, Ends-ok, Ends-then,
  Ends-weaken,
}
use bufstream_operator.Bufstream.Client.{Client}
use bufstream_operator.Bufstream.Responses.{AllFaults, NoFault, create_acl_fault-NoFault}
use bufstream_operator.Bufstream.Acl.{AclConfig, create_acl, create_acl_fault}
use bufstream_operator.Controller.Common.{
  Outcome, after, failed, requeue_healthy, cluster_not_ready_requeue, new_condition,
}
use bufstream_operator.Controller.Conditions.{condition_at, finish-IsHealthy_swapped}
use bufstream_operator.Controller.Helpers.{is_cluster_ready}
use bufstream_operator.Controller.Working.{Working, get_cluster-Returns, session-Ends}
use bufstream_operator.Controller.Acl.Base.{set_condition}
use bufstream_operator.Controller.Acl.Lifecycle.{IsUnsettled, is_reconciled-IsUnsettled}
use bufstream_operator.Controller.Acl.Apply.{
  finish, reconcile_connected, reconcile_ready, reconcile_acl,
}
use bufstream_operator.Controller.Acl.Rules.{IsSuccess, with_conditions}

-- The reconcile is over without an error, and the last that it did, but for closing its client,
-- was to store a status that reports success.
abbrev pub Converged : Outside → Acl → Outcome → Trace → Type 0
Converged out a o tr =
    (o ≡ after requeue_healthy) × (a' : Acl) × IsSuccess out a a' × Wrote (Object.acl a') tr

set_condition-Ends :
    (out : Outside) {S : Outcome → Trace → Type 0} (a : Acl) (kind status reason : String)
    (m : Message) (f : Acl → Action Outcome)
    → ((time : Time)
        → Ends
            (f (
              with_conditions a (
                out.set_status_condition a.status.conditions
                  (condition_at a.metadata kind status reason m time))))
            S)
    → Ends (set_condition out a kind status reason m >>= f) S
unfolding set_condition new_condition ◌>>=◌ ask pure
set_condition-Ends out a kind status reason m f k = record { at = λ tr. (k (out.now tr)).at _ }

module _ (out : Outside) (laws : ConditionLaws out) (cluster : Cluster) (w : Working out cluster)
    (creates : (tr : Trace) (h : Handle) (builder : List AclStep)
      → IsOk (AllFaults NoFault) (out.create_acls tr h builder))
    (stores : (tr : Trace) (x : Object) → out.update_status tr x ≡ ok tt) where
  created-IsOk :
      (rs : List (Option Fault)) → AllFaults NoFault rs → IsOk (λ _. ⊤) (create_acl_fault rs)
  created-IsOk rs h = rw ((create_acl_fault-NoFault rs).1 h) tt

  create_acl-Returns :
      (c : Client) (config : AclConfig) → Returns (create_acl out c config) (λ _. ⊤)
  unfolding create_acl
  create_acl-Returns c config =
      Returns-ok {Good = AllFaults NoFault} _ _ _ (Returns-ask _ _ (λ tr. creates tr _ _))
        (λ rs h. Returns-pure _ (created-IsOk rs h))

  module _ (a : Acl) where
    stored-Converged :
        (a' : Acl)
        → IsSuccess out a a'
        → Ends
            (do
              updated ← update_status out (Object.acl a')
              on_error updated (λ e. pure (failed (foreign e))) λ _. pure (after requeue_healthy))
            (Converged out a)
    unfolding ◌>>=◌ on_error pure ask
    stored-Converged a' success = record { at = λ tr. rw (stores tr _) (refl, a', success, refl) }

    finish-Converged : Ends (finish out a) (Converged out a)
    unfolding finish
    finish-Converged = set_condition-Ends out _ _ _ _ _ _ λ t₁.
        set_condition-Ends out _ _ _ _ _ _ λ t₂. set_condition-Ends out _ _ _ _ _ _ λ t₃.
          stored-Converged _ (record {
            metadata = refl;
            spec = refl;
            conditions =
                finish-IsHealthy_swapped out laws a.metadata a.status.conditions _ _ _ _ _ _ t₁ t₂
                  t₃;
            generation = refl;
          })

    reconcile_connected-Converged :
        (c : Client) → Ends (reconcile_connected out c a) (Converged out a)
    unfolding reconcile_connected
    reconcile_connected-Converged c =
        Ends-ok {Good = λ _. ⊤} _ _ _ (create_acl-Returns c _)
          (λ _ _. Ends-then _ _ finish-Converged)

  -- Success of an ACL that differs from `a` in its conditions alone is success of `a`.
  unmarked :
      (a : Acl) (cs : List Condition) (o : Outcome) (tr : Trace)
      → Converged out (with_conditions a cs) o tr
      → Converged out a o tr
  unmarked a cs o tr (e, a', success, wrote) = (
    e,
    a',
    record {
      metadata = success.metadata;
      spec = success.spec;
      conditions = success.conditions;
      generation = success.generation;
    },
    wrote,
  )

  module _ (a : Acl) where
    reconcile_ready-Converged : Ends (reconcile_ready out cluster a) (Converged out a)
    unfolding reconcile_ready
    reconcile_ready-Converged = set_condition-Ends out _ _ _ _ _ _ λ time.
        Ends-ok {Good = λ _. ⊤} _ _ _ w.credentials (λ s _.
          session-Ends w _ s _ _ (λ o c tr h. h)
            (λ c. Ends-weaken (reconcile_connected-Converged _ c) (unmarked a _)))

    found-Converged :
        (c : Cluster)
        → c ≡ cluster
        → Ends
            (if not (is_cluster_ready out c)
              then pure (after cluster_not_ready_requeue)
              else reconcile_ready out c a)
            (Converged out a)
    found-Converged c e = rw (e, w.ready) reconcile_ready-Converged

    -- Where the ACL is not settled, its cluster is ready, the credentials can be read, the brokers
    -- accept the connection and create the ACL, and the API server accepts the statuses, the
    -- reconcile returns without an error, comes back after five minutes, and the last that it did,
    -- but for closing its client, was to store success of the ACL's generation; under the laws of
    -- SetStatusCondition.
    pub reconcile_acl-converges :
        IsUnsettled out a
        → (tr : Trace) → Converged out a (reconcile_acl out a tr).0 (reconcile_acl out a tr).1
    unfolding reconcile_acl
    reconcile_acl-converges h tr = rw (is_reconciled-IsUnsettled out a h) (
        (Ends-ok {Good = λ c. c ≡ cluster} _ _ _ (get_cluster-Returns w _ _) found-Converged).at tr)
