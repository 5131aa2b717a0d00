-- ===== src/Controller/User/Converges.antt =====
-- A reconcile of a user that meets no obstacle ends with the credentials set and success stored.
use bufstream_operator.Prelude.{◌≡◌, refl, String, Option, List, ⊤, ok, not, if◌then◌else◌}
use bufstream_operator.Api.Meta.{Message, Time, Condition, foreign}
use bufstream_operator.Api.Cluster.{Cluster}
use bufstream_operator.Api.User.{User}
use bufstream_operator.Outside.{Outside, Object, Trace, Handle, Response, DeleteScram, UpsertScram}
use bufstream_operator.Outside.Action.{Action, ◌>>=◌, on_error, pure, ask}
use bufstream_operator.Outside.Calls.{update_status}
use bufstream_operator.Outside.Laws.{ConditionLaws}
use bufstream_operator.Outside.Progress.{
  Wrote, Ends, Returns, IsOk, Returns-ask, Returns-pure, Returns-ok, Ends-ok, Ends-then,
  Ends-weaken,
}
use bufstream_operator.Bufstream.Client.{Client, SaslConfig}
use bufstream_operator.Bufstream.Responses.{AllResponses, NoFault, first_fault-NoFault}
use bufstream_operator.Bufstream.Topic.{first_fault}
use bufstream_operator.Bufstream.User.{UserCredentials, upsert_user_credentials}
use bufstream_operator.Controller.Common.{
  Outcome, after, failed, requeue_healthy, cluster_not_ready_requeue, new_condition,
}
use bufstream_operator.Controller.Conditions.{condition_at, finish-IsHealthy}
use bufstream_operator.Controller.Helpers.{is_cluster_ready}
use bufstream_operator.Controller.Working.{Working, get_cluster-Returns, session-Ends}
use bufstream_operator.Controller.User.Base.{set_condition, username, password_in, password_key}
use bufstream_operator.Controller.User.Lifecycle.{IsUnsettled, is_reconciled-IsUnsettled}
use bufstream_operator.Controller.User.Apply.{
  get_password, connect_and_upsert, finish, reconcile_connected, reconcile_ready, reconcile_user,
}
use bufstream_operator.Controller.User.Names.{username-IsNameOf}
use bufstream_operator.Controller.User.Rules.{IsSuccess, with_conditions}

-- The reconcile is over without an error, and the last that it did, but for closing its client,
-- was to store a status that reports success.
abbrev pub Converged : Outside → User → Outcome → Trace → Type 0
Converged out a o tr =
    (o ≡ after requeue_healthy) × (a' : User) × IsSuccess out a a' × Wrote (Object.user a') tr

set_condition-Ends :
    (out : Outside) {S : Outcome → Trace → Type 0} (a : User) (kind status reason : String)
    (m : Message) (f : User → Action Outcome)
    → ((time : Time)
        → Ends
            (f (
              with_conditions a (
                out.set_status_condition a.status.conditions
                  (condition_at a.metadata kind status reason m time))))
            S)
    → Ends (set_condition out a kind status reason m >>= f) S
unfolding set_condition new_condition ◌>>=◌ ask pure
set_condition-Ends out a kind status reason m f k = record { at = λ tr. (k (out.now tr)).at _ }

module _ (out : Outside) (laws : ConditionLaws out) (cluster : Cluster) (w : Working out cluster)
    (alters : (tr : Trace) (h : Handle) (ds : List DeleteScram) (us : List UpsertScram)
      → IsOk (AllResponses NoFault) (out.alter_user_scrams tr h ds us))
    (stores : (tr : Trace) (x : Object) → out.update_status tr x ≡ ok tt) where
  altered-IsOk :
      (prefix : String) (rs : List Response)
      → AllResponses NoFault rs
      → IsOk (λ _. ⊤) (first_fault prefix rs)
  altered-IsOk prefix rs h = rw ((first_fault-NoFault prefix rs).1 h) tt

  upsert_user_credentials-Returns :
      (c : Client) (creds : UserCredentials)
      → Returns (upsert_user_credentials out c creds) (λ _. ⊤)
  unfolding upsert_user_credentials
  upsert_user_credentials-Returns c creds =
      Returns-ok {Good = AllResponses NoFault} _ _ _ (Returns-ask _ _ (λ tr. alters tr _ _ _))
        (λ rs h. Returns-pure _ (altered-IsOk _ rs h))

  module _ (a : User) where
    stored-Converged :
        (a' : User)
        → IsSuccess out a a'
        → Ends
            (do
              updated ← update_status out (Object.user a')
              on_error updated (λ e. pure (failed (foreign e))) λ _. pure (after requeue_healthy))
            (Converged out a)
    unfolding ◌>>=◌ on_error pure ask
    stored-Converged a' success = record { at = λ tr. rw (stores tr _) (refl, a', success, refl) }

    finish-Converged : Ends (finish out a (username a)) (Converged out a)
    unfolding finish
    finish-Converged = set_condition-Ends out _ _ _ _ _ _ λ t₁.
        set_condition-Ends out _ _ _ _ _ _ λ t₂. set_condition-Ends out _ _ _ _ _ _ λ t₃.
          stored-Converged _ (record {
            metadata = refl;
            spec = refl;
            conditions =
                finish-IsHealthy out laws a.metadata a.status.conditions _ _ _ _ _ _ t₁ t₂ t₃;
            generation = refl;
            username = username-IsNameOf a;
          })

    reconcile_connected-Converged :
        (c : Client) (password : String)
        → Ends (reconcile_connected out c a password) (Converged out a)
    unfolding reconcile_connected
    reconcile_connected-Converged c password =
        Ends-ok {Good = λ _. ⊤} _ _ _ (upsert_user_credentials-Returns c _)
          (λ _ _. Ends-then _ _ finish-Converged)

  -- Success of a user that differs from `a` in its conditions alone is success of `a`.
  unmarked :
      (a : User) (cs : List Condition) (o : Outcome) (tr : Trace)
      → Converged out (with_conditions a cs) o tr
      → Converged out a o tr
  unfolding username
  unmarked a cs o tr (e, a', success, wrote) = (
    e,
    a',
    record {
      metadata = success.metadata;
      spec = success.spec;
      conditions = success.conditions;
      generation = success.generation;
      username = success.username;
    },
    wrote,
  )

  connect_and_upsert-Converged :
      (a : User) (password : String) (s : Option SaslConfig)
      → Ends (connect_and_upsert out cluster a password s) (Converged out a)
  unfolding connect_and_upsert
  connect_and_upsert-Converged a password s =
      session-Ends w _ s _ _ (λ o c tr h. h) (λ c. reconcile_connected-Converged a c password)

  module _ (a : User) (secret : Returns (get_password out a) (λ _. ⊤)) where
    marked : (cs : List Condition) → Returns (get_password out (with_conditions a cs)) (λ _. ⊤)
    unfolding get_password password_in password_key
    marked cs = secret

    reconcile_ready-Converged : Ends (reconcile_ready out cluster a) (Converged out a)
    unfolding reconcile_ready
    reconcile_ready-Converged = set_condition-Ends out _ _ _ _ _ _ λ time.
        Ends-ok {Good = λ _. ⊤} _ _ _ w.credentials (λ s _.
          Ends-ok {Good = λ _. ⊤} _ _ _ (marked _)
            (λ password _. Ends-weaken (connect_and_upsert-Converged _ password s) (unmarked a _)))

    found-Converged :
        (c : Cluster)
        → c ≡ cluster
        → Ends
            (if not (is_cluster_ready out c)
              then pure (after cluster_not_ready_requeue)
              else reconcile_ready out c a)
            (Converged out a)
    found-Converged c e = rw (e, w.ready) reconcile_ready-Converged

    -- Where the user is not settled, its cluster is ready, the admin credentials and the user's
    -- password can be read, the brokers accept the connection and set the credentials, and the API
    -- server accepts the statuses, the reconcile returns without an error, comes back after five
    -- minutes, and the last that it did, but for closing its client, was to store success of the
    -- user's generation; under the laws of SetStatusCondition.
    pub reconcile_user-converges :
        IsUnsettled out a
        → (tr : Trace) → Converged out a (reconcile_user out a tr).0 (reconcile_user out a tr).1
    unfolding reconcile_user
    reconcile_user-converges h tr = rw (is_reconciled-IsUnsettled out a h) (
        (Ends-ok {Good = λ c. c ≡ cluster} _ _ _ (get_cluster-Returns w _ _) found-Converged).at tr)
