-- ===== src/Controller/Cluster/Health.antt =====
-- What a reconcile of a cluster does, and when it reports the cluster as ready, which is what the
-- reconciles of topics, users and ACLs wait for.
use bufstream_operator.Prelude.{not, ◌≡◌, refl, List, [], ◌∷◌, ok, err, ◌⊎◌, inl, inr}
use bufstream_operator.Api.Meta.{condition_true, condition_false, NamespacedName}
use bufstream_operator.Api.Cluster.{Cluster}
use bufstream_operator.Outside.{Outside, Call, Object, Kind, Trace, Handle}
use bufstream_operator.Outside.Laws.{ConditionLaws}
use bufstream_operator.Outside.Hoare.{
  read_cases, connection_cases, Keeps, keeps_rules, Keeps-bind, Keeps-on_error, Keeps-ask, Keeps-if,
  IsRead, IsConnection,
}
use bufstream_operator.Controller.Common.{name_of}
use bufstream_operator.Controller.Connections.{session-Open, Open, open_clients, Open-Ignores}
use bufstream_operator.Controller.Cluster.{reconcile_cluster, reconcile}
use bufstream_operator.Controller.Cluster.Rules.{
  IsClusterReport, HealthRules, not_ready-Keeps, reconcile_connected-Keeps, reconcile_cluster-Keeps,
  health-Keeps,
}

-- The brokers have answered a listing of their topics.
abbrev pub IsReachable : Trace → Type 0
IsReachable [] = ⊥
IsReachable (Call.topics_listed _ _ (ok _) ∷ tr) = Unit
IsReachable (_ ∷ tr) = IsReachable tr

-- A read leaves them so.
pub IsReachable-reads : (x : Call) → IsRead x → (tr : Trace) → IsReachable tr → IsReachable (x ∷ tr)
IsReachable-reads (Call.fetched _ _) r tr h = h
IsReachable-reads (Call.secret_fetched _) r tr h = h
IsReachable-reads Call.clock_read r tr h = h
IsReachable-reads (Call.environment_read _) r tr h = h
IsReachable-reads (Call.pinged _ _ _) r tr h = h
IsReachable-reads (Call.topics_listed _ _ (ok _)) r tr h = tt
IsReachable-reads (Call.topics_listed _ _ (err _)) r tr h = h
IsReachable-reads _ r tr h = absurd r

-- The calls that a reconcile of a cluster may make, the latest first: it reads, connects and
-- disconnects, records events on the cluster, and writes a status, in which Ready is true only once
-- the brokers have answered.
abbrev pub ChecksHealth : Outside → Cluster → Trace → Type 0
ChecksHealth out c [] = Unit
ChecksHealth out c (Call.status_updated (Object.cluster c') _ ∷ tr) =
    (IsClusterReport out condition_false c c'
      ⊎ (IsClusterReport out condition_true c c'
          × (c'.status.observed_generation ≡ c.metadata.generation)
          × IsReachable tr))
    × ChecksHealth out c tr
ChecksHealth out c (Call.event k n _ _ _ ∷ tr) =
    (k ≡ Kind.cluster_kind) × (n ≡ name_of c.metadata) × ChecksHealth out c tr
ChecksHealth out c (Call.fetched _ _ ∷ tr) = ChecksHealth out c tr
ChecksHealth out c (Call.secret_fetched _ ∷ tr) = ChecksHealth out c tr
ChecksHealth out c (Call.clock_read ∷ tr) = ChecksHealth out c tr
ChecksHealth out c (Call.environment_read _ ∷ tr) = ChecksHealth out c tr
ChecksHealth out c (Call.pinged _ _ _ ∷ tr) = ChecksHealth out c tr
ChecksHealth out c (Call.topics_listed _ _ _ ∷ tr) = ChecksHealth out c tr
ChecksHealth out c (Call.client_created _ _ ∷ tr) = ChecksHealth out c tr
ChecksHealth out c (Call.kgo_closed _ ∷ tr) = ChecksHealth out c tr
ChecksHealth out c (Call.admin_closed _ ∷ tr) = ChecksHealth out c tr
ChecksHealth out c (_ ∷ tr) = ⊥

module _ (out : Outside) (c : Cluster) where
  reads : (x : Call) → IsRead x → (tr : Trace) → ChecksHealth out c tr → ChecksHealth out c (x ∷ tr)
  reads =
      read_cases (ChecksHealth out c) (λ _ _ _ h. h) (λ _ _ h. h) (λ _ h. h) (λ _ _ h. h)
        (λ _ _ _ _ h. h) (λ _ _ _ _ h. h)

  connections :
      (x : Call)
      → IsConnection x
      → (tr : Trace) → ChecksHealth out c tr
      → ChecksHealth out c (x ∷ tr)
  connections = connection_cases (ChecksHealth out c) (λ _ _ _ h. h) (λ _ _ h. h) (λ _ _ h. h)

  ChecksHealth-HealthRules :
      HealthRules out c (ChecksHealth out c) (λ tr. IsReachable tr × ChecksHealth out c tr)
  ChecksHealth-HealthRules = record {
    ignores = record { read = reads };
    ignores_after = record { read = λ x r tr h. (IsReachable-reads x r tr h.0, reads x r tr h.1) };
    event = λ _ _ _ tr h. (refl, refl, h);
    listed = λ _ topics tr h. (tt, h);
    failure = λ c' _ tr report h. (inl report, h);
    success = λ c' _ tr report e h. (inr (report, e, h.0), h.1);
  }

  -- Under the documented laws of SetStatusCondition, from an empty history: the reconcile of a
  -- cluster that is not being deleted changes nothing in Bufstream, does not
  -- write the object, and writes statuses that keep metadata and spec, in which Ready is False, or
  -- True for the cluster's generation after the brokers have answered a listing of their topics.
  pub reconcile_cluster-ChecksHealth :
      ConditionLaws out → ChecksHealth out c (reconcile_cluster out c []).1
  reconcile_cluster-ChecksHealth laws =
      (health-Keeps out laws c ChecksHealth-HealthRules (record { connection = connections })).at []
        tt

  reconcile_cluster-Open :
      ConditionLaws out → (hs : List Handle) → Keeps (Open hs) (reconcile_cluster out c)
  reconcile_cluster-Open laws hs = reconcile_cluster-Keeps out laws c (rules hs) λ s.
      session-Open out c.spec.bootstrap_servers s _ _
        (λ ks e. not_ready-Keeps out laws c (rules ks) _ _ _)
        (λ ks client. reconcile_connected-Keeps out laws c (rules ks) client) hs
    where
      rules : (hs : List Handle) → HealthRules out c (Open hs) (Open hs)
      rules hs = record {
        ignores = Open-Ignores hs;
        ignores_after = Open-Ignores hs;
        event = λ _ _ _ tr h. h;
        listed = λ _ topics tr h. h;
        failure = λ c' _ tr report h. h;
        success = λ c' _ tr report e h. h;
      }

module _ (out : Outside) (laws : ConditionLaws out) (hs : List Handle) where
  reconcile-Open : (request : NamespacedName) → Keeps (Open hs) (reconcile out request)
  unfolding reconcile
  reconcile-Open request = Keeps-bind _ _ (Keeps-ask _ _ (λ answer tr h. h)) (λ fetched.
      Keeps-on_error fetched _ _ (λ e. search keeps_rules)
        (λ c.
          Keeps-if (not (out.is_zero c.metadata.deletion_timestamp)) _ _ (λ _. search keeps_rules)
            (λ _. reconcile_cluster-Open out c laws hs)))

-- Under the documented laws of SetStatusCondition, every Kafka client that a `Reconcile` of the
-- cluster controller opens is closed when it returns, on each path.
pub cluster_reconcile-closes :
    (out : Outside) (laws : ConditionLaws out) (request : NamespacedName) (tr : Trace)
    → open_clients (reconcile out request tr).1 ≡ open_clients tr
cluster_reconcile-closes out laws request tr =
    (reconcile-Open out laws (open_clients tr) request).at tr refl
