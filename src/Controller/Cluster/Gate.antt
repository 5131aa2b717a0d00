-- ===== src/Controller/Cluster/Gate.antt =====
-- The cluster controller and the others together: what the API server keeps of a cluster after its
-- reconcile decides whether the resources that name it go on.
use bufstream_operator.Prelude.{String, ◌≡◌, refl, ◌⊎◌, inl, inr, true, some, ◌∷◌, ok}
use bufstream_operator.Api.Meta.{NamespacedName, Message, foreign, condition_true, condition_false}
use bufstream_operator.Api.Cluster.{Cluster}
use bufstream_operator.Outside.{Outside, Call, Object, Kind, Trace}
use bufstream_operator.Outside.Action.{pure, ◌>>=◌, ◌>>◌, on_error, ask, called}
use bufstream_operator.Outside.Calls.{update_status, record_event}
use bufstream_operator.Outside.Laws.{ConditionLaws}
use bufstream_operator.Outside.Hoare.{Triple, Triple-bind, Triple-keeps, Triple-on_error, Ignores}
use bufstream_operator.Bufstream.Client.{Client}
use bufstream_operator.Controller.Common.{
  Outcome, after, failed, name_of, type_ready, cluster_health_check_interval,
}
use bufstream_operator.Controller.Conditions.{status_of, status_of-set_self}
use bufstream_operator.Controller.Passive.{get_admin_credentials-Keeps, new_client-Keeps}
use bufstream_operator.Controller.Repeats.{is_named}
use bufstream_operator.Controller.Working.{closing-Triple}
use bufstream_operator.Controller.Cluster.{
  not_ready, finish, reconcile_connected, reconcile_cluster,
}
use bufstream_operator.Controller.Cluster.Health.{IsReachable, IsReachable-reads}
use bufstream_operator.Controller.Cluster.Rules.{
  HealthRules, After, check_health-After, set_condition-Triple,
}
use bufstream_operator.Controller.Cluster.Store.{stored}

module _ (out : Outside) (laws : ConditionLaws out)
    (stores : (tr : Trace) (x : Object) → out.update_status tr x ≡ ok tt) (n : NamespacedName)
    (c₀ c : Cluster) (named : is_named n c.metadata ≡ true) where
  -- The API server keeps a cluster that is not ready; or one that is, and the brokers have answered
  -- a listing of their topics.
  abbrev pub Decided : Outcome → Trace → Type 0
  Decided o tr =
      (o ≡ after cluster_health_check_interval)
      × ((status_of out (stored n c₀ tr).status.conditions type_ready ≡ some condition_false)
          ⊎ ((status_of out (stored n c₀ tr).status.conditions type_ready ≡ some condition_true)
              × IsReachable tr))

  abbrev pub Any : Trace → Type 0
  Any tr = Unit

  Any-Ignores : Ignores Any
  Any-Ignores = record { read = λ _ _ _ _. tt }

  -- Ready is reported as this status.
  abbrev Says : Cluster → String → Type 0
  Says c' status =
      (c'.metadata ≡ c.metadata) × (status_of out c'.status.conditions type_ready ≡ some status)

  stored-Says :
      (c' : Cluster) (status : String) (tr : Trace)
      → Says c' status
      → status_of out
          (stored n c₀ (Call.status_updated (Object.cluster c') (ok tt) ∷ tr)).status.conditions
          type_ready
        ≡ some status
  stored-Says c' status tr (m, e) = rw (m, named) e

  -- The end of each failing branch.
  refused-Decided :
      (c' : Cluster) (reason : String) (m : Message)
      → Says c' condition_false
      → Triple Any
          (do
            update_status out (Object.cluster c')
            record_event Kind.cluster_kind (name_of c.metadata) "Warning" reason m
            pure (after cluster_health_check_interval))
          Decided
  unfolding ◌>>◌ pure ask called
  refused-Decided c' reason m says = record {
    at = λ tr _. rw (stores tr (Object.cluster c')) (refl, inl (stored-Says c' _ tr says));
  }

  not_ready-Decided :
      (reason : String) (m event_message : Message)
      → Triple Any (not_ready out c reason m event_message) Decided
  unfolding not_ready
  not_ready-Decided reason m event_message =
      set_condition-Triple out Any-Ignores c _ _ _ _
        (λ time. refused-Decided _ reason event_message (refl, status_of-set_self out laws _ _))

  -- The end of the healthy branch.
  reported-Decided :
      (c' : Cluster)
      → Says c' condition_true
      → Triple IsReachable
          (do
            updated ← update_status out (Object.cluster c')
            on_error updated
                (λ e. pure (failed (foreign e)))
                λ _. pure (after cluster_health_check_interval))
          Decided
  unfolding ◌>>=◌ on_error pure ask
  reported-Decided c' says = record {
    at = λ tr reached.
        rw (stores tr (Object.cluster c')) (refl, inr (stored-Says c' _ tr says, reached));
  }

  finish-Decided : Triple IsReachable (finish out c) Decided
  unfolding finish
  finish-Decided =
      set_condition-Triple out (record { read = IsReachable-reads }) _ _ _ _ _
        (λ time. reported-Decided _ (refl, status_of-set_self out laws _ _))

  rules : HealthRules out c Any IsReachable
  rules = record {
    ignores = Any-Ignores;
    ignores_after = record { read = IsReachable-reads };
    event = λ _ _ _ _ _. tt;
    listed = λ _ _ _ _. tt;
    failure = λ _ _ _ _ _. tt;
    success = λ _ _ _ _ _ _. tt;
  }

  reconcile_connected-Decided :
      (client : Client) → Triple Any (reconcile_connected out client c) Decided
  unfolding reconcile_connected
  reconcile_connected-Decided client =
      Triple-bind _ _ (check_health-After out laws c rules client) (λ health.
        Triple-on_error (After out laws c rules) health _ _ (λ e _. not_ready-Decided _ _ _)
          (λ _ _. finish-Decided))

  pub reconcile_cluster-Decided : Triple Any (reconcile_cluster out c) Decided
  unfolding reconcile_cluster
  reconcile_cluster-Decided =
      Triple-bind _ _ (Triple-keeps (get_admin_credentials-Keeps out Any-Ignores c)) (λ credentials.
        Triple-on_error (λ _. Any) credentials _ _ (λ e _. not_ready-Decided _ _ _)
          (λ s _.
            Triple-bind _ _
              (Triple-keeps
                (new_client-Keeps out Any-Ignores (record { connection = λ _ _ _ _. tt }) _ s))
              (λ connected.
                Triple-on_error (λ _. Any) connected _ _ (λ e _. not_ready-Decided _ _ _)
                  (λ client _.
                    closing-Triple (reconcile_connected out client c) client (λ o k tr h. h)
                      (reconcile_connected-Decided client)))))
