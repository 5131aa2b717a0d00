-- ===== src/Controller/Stuck.antt =====
-- What keeps a finalizer in place: the deletion of what a resource stands for is refused, and the
-- reconciler comes back for another try.
use bufstream_operator.Prelude.{
  ℕ, zero, suc, String, ◌≡◌, refl, List, [], ◌∷◌, ⊤, Option, Result, ok, err, ◌⊎◌, inl, not,
  if◌then◌else◌,
}
use bufstream_operator.Api.Meta.{Fault, Error}
use bufstream_operator.Api.Cluster.{Cluster}
use bufstream_operator.Outside.{Outside, Call, Trace}
use bufstream_operator.Outside.Action.{Action, pure, ◌>>=◌, ◌>>◌, on_error, ask}
use bufstream_operator.Outside.Hoare.{
  Triple, Triple-bind, Triple-then, Triple-pure, Triple-on_error, Triple-if, Triple-keeps, Ignores,
  IgnoresConnections, read_cases, connection_cases,
}
use bufstream_operator.Bufstream.Client.{Client, SaslConfig, close}
use bufstream_operator.Controller.Common.{
  Outcome, after, after_error, requeue_degraded, cluster_not_ready_requeue,
}
use bufstream_operator.Controller.Connections.{session}
use bufstream_operator.Controller.Helpers.{get_cluster, is_cluster_ready, get_admin_credentials}
use bufstream_operator.Controller.Passive.{
  get_cluster-Keeps, get_admin_credentials-Keeps, new_client-Keeps, close-Keeps,
}
use bufstream_operator.Controller.Repeats.{runs}

-- No object and no status has been written.
abbrev pub Unwritten : Trace → Type 0
Unwritten [] = Unit
Unwritten (Call.updated _ _ ∷ tr) = ⊥
Unwritten (Call.status_updated _ _ ∷ tr) = ⊥
Unwritten (_ ∷ tr) = Unwritten tr

-- The reconcile comes back: with an error after thirty seconds, or, for a cluster that is not
-- ready, after ten.
abbrev pub ComesBack : Outcome → Type 0
ComesBack o =
    (o ≡ after cluster_not_ready_requeue) ⊎ ((e : Error) × (o ≡ after_error requeue_degraded e))

abbrev pub Stuck : Outcome → Trace → Type 0
Stuck o tr = ComesBack o × Unwritten tr

-- All outcomes come back.
abbrev pub AllComeBack : List Outcome → Type 0
AllComeBack [] = Unit
AllComeBack (o ∷ os) = ComesBack o × AllComeBack os

-- The request has failed, or its responses are bad.
abbrev pub IsRefused : {A : Type 0} → (A → Type 0) → Result Fault A → Type 0
IsRefused Bad (ok a) = Bad a
IsRefused Bad (err _) = Unit

abbrev Failed : Result Error ⊤ → Trace → Type 0
Failed r tr = (e : Error) × (r ≡ err e) × Unwritten tr

Unwritten-Ignores : Ignores Unwritten
Unwritten-Ignores = record {
  read =
      read_cases Unwritten (λ _ _ _ h. h) (λ _ _ h. h) (λ _ h. h) (λ _ _ h. h) (λ _ _ _ _ h. h)
        (λ _ _ _ _ h. h);
}

Unwritten-IgnoresConnections : IgnoresConnections Unwritten
Unwritten-IgnoresConnections = record {
  connection = connection_cases Unwritten (λ _ _ _ h. h) (λ _ _ h. h) (λ _ _ h. h);
}

-- A request to delete that is refused returns an error.
pub refused-Failed :
    {A : Type 0} {Bad : A → Type 0} (answer : Trace → Result Fault A)
    (shown_as : Result Fault A → Call) (bad : Fault → Error) (verdict : A → Result Error ⊤)
    → ((r : Result Fault A) (tr : Trace) → Unwritten tr → Unwritten (shown_as r ∷ tr))
    → ((a : A) → Bad a → (e : Error) × (verdict a ≡ err e))
    → ((tr : Trace) → IsRefused Bad (answer tr))
    → Triple Unwritten
        (ask answer shown_as >>= λ r. on_error r (λ e. pure (err (bad e))) λ a. pure (verdict a))
        Failed
unfolding ◌>>=◌ ask on_error pure
refused-Failed {A} {Bad} answer shown_as bad verdict silent fails refused = record {
  at = λ tr h. go (answer tr) (refused tr) _ (silent (answer tr) tr h);
}
  where
    go :
        (r : Result Fault A)
        → IsRefused Bad r
        → (tr : Trace) → Unwritten tr
        → let d = on_error r (λ e. pure (err (bad e))) (λ a. pure (verdict a)) tr in Failed d.0 d.1
    go (ok a) b tr h = let f = fails a b in (f.0, f.1, h)
    go (err e) b tr h = (bad e, refl, h)

-- The test of its error, and the rest.
pub on_failure-Stuck :
    (m : Action (Result Error ⊤)) (handler : Error → Action Outcome) (rest : ⊤ → Action Outcome)
    → Triple Unwritten m Failed
    → ((e : Error) → Triple Unwritten (handler e) Stuck)
    → Triple Unwritten (m >>= λ r. on_error r handler rest) Stuck
unfolding ◌>>=◌ on_error
on_failure-Stuck m handler rest km kh = record {
  at = λ tr h. let f = km.at tr h in rw f.1 ((kh f.0).at (m tr).1 f.2);
}

module _ (out : Outside) (fails : String → Error → Action Outcome)
    (kf : (prefix : String) (e : Error) → Triple Unwritten (fails prefix e) Stuck) where
  session-Stuck :
      (servers : String) (s : Option SaslConfig) (prefix : String) (body : Client → Action Outcome)
      → ((c : Client) → Triple Unwritten (body c) Stuck)
      → Triple Unwritten (session out servers s (fails prefix) body) Stuck
  session-Stuck servers s prefix body kb =
      Triple-bind _ _
        (Triple-keeps
          (new_client-Keeps out Unwritten-Ignores Unwritten-IgnoresConnections servers s))
        (λ connected.
          Triple-on_error (λ _. Unwritten) connected _ _ (λ e _. kf prefix e)
            (λ c _. Triple-bind _ _ (kb c) (λ o. closed o c)))
    where
      closed : (o : Outcome) (c : Client) → Triple (Stuck o) (do close c; pure o) Stuck
      closed o c = record {
        at = λ tr h.
            let ends =
              Triple-then {R = Unwritten} _ _
                (Triple-keeps (close-Keeps Unwritten-IgnoresConnections c))
                (Triple-pure {R = λ p tr'. (p ≡ o) × Unwritten tr'} o (λ _ u. (refl, u))) in
            let end = ends.at tr h.1 in (rw end.0 h.0, end.1);
      }

  module _ (p q r : String) (body : Client → Action Outcome)
      (kb : (c : Client) → Triple Unwritten (body c) Stuck) where
    -- What a deletion does in a ready cluster, over a client.
    abbrev in_cluster : Cluster → Action Outcome
    in_cluster cluster = do
      credentials ← get_admin_credentials out cluster
      on_error credentials (fails q)
          λ s. session out cluster.spec.bootstrap_servers s (fails r) body

    in_cluster-Stuck : (cluster : Cluster) → Triple Unwritten (in_cluster cluster) Stuck
    in_cluster-Stuck cluster =
        Triple-bind _ _ (Triple-keeps (get_admin_credentials-Keeps out Unwritten-Ignores cluster))
          (λ credentials.
            Triple-on_error (λ _. Unwritten) credentials _ _ (λ e _. kf q e)
              (λ s _. session-Stuck cluster.spec.bootstrap_servers s r body kb))

    -- A deletion under a cluster, whatever the cluster is and however the outside answers.
    pub removal-Stuck :
        (name namespace : String)
        → Triple Unwritten
            (get_cluster out name namespace >>= λ fetched. on_error fetched (fails p) λ cluster.
              if not (is_cluster_ready out cluster)
              then pure (after cluster_not_ready_requeue)
              else in_cluster cluster)
            Stuck
    removal-Stuck name namespace =
        Triple-bind _ _ (Triple-keeps (get_cluster-Keeps out Unwritten-Ignores name namespace))
          (λ fetched.
            Triple-on_error (λ _. Unwritten) fetched _ _ (λ e _. kf p e)
              (λ cluster _.
                Triple-if (not (is_cluster_ready out cluster))
                  (pure (after cluster_not_ready_requeue)) (in_cluster cluster)
                  (λ _. Triple-pure _ (λ tr u. (inl refl, u))) (λ _. in_cluster-Stuck cluster)))

-- A reconciler that is stuck is stuck however often it is run.
pub runs-Stuck :
    (m : Action Outcome)
    → Triple Unwritten m Stuck
    → (k : ℕ) (tr : Trace) → Unwritten tr
    → AllComeBack (runs k m tr).0 × Unwritten (runs k m tr).1
runs-Stuck m km zero tr u = (tt, u)
runs-Stuck m km (suc k) tr u =
    let now = km.at tr u in
    let later = runs-Stuck m km k (m tr).1 now.1 in ((now.0, later.0), later.1)
