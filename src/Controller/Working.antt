-- ===== src/Controller/Working.antt =====
-- What the reconcilers need from the outside to get through: a ready cluster, the credentials that
-- it refers to, if any, and brokers to which a client can connect.
use bufstream_operator.Prelude.{ℕ, String, ◌≡◌, refl, true, Option, List, ◌∷◌, ⊤, ok}
use bufstream_operator.Api.Meta.{NamespacedName, Error}
use bufstream_operator.Api.Cluster.{Cluster}
use bufstream_operator.Outside.{Outside, Trace, Call, Opt, Handle}
use bufstream_operator.Outside.Action.{Action, pure, ◌>>=◌, ◌>>◌, called}
use bufstream_operator.Outside.Progress.{
  Ends, Returns, IsOk, Returns-ask, Returns-pure, Returns-bind, Returns-ok, Ends-ok, Triple-ok,
  Triple-Returns,
}
use bufstream_operator.Outside.Hoare.{Triple, Ignores, IgnoresConnections}
use bufstream_operator.Controller.Passive.{new_client-Keeps}
use bufstream_operator.Bufstream.Client.{Client, SaslConfig, new_client, close}
use bufstream_operator.Controller.Common.{Outcome}
use bufstream_operator.Controller.Connections.{session}
use bufstream_operator.Controller.Helpers.{get_cluster, is_cluster_ready, get_admin_credentials}

pub record Working (out : Outside) (cluster : Cluster) : Type 0 where
  pub fetched : (tr : Trace) (n : NamespacedName) → out.get_cluster tr n ≡ ok cluster
  pub ready : is_cluster_ready out cluster ≡ true
  pub credentials : Returns (get_admin_credentials out cluster) (λ _. ⊤)
  pub connects : (tr : Trace) (opts : List Opt) → IsOk (λ _. ⊤) (out.new_kgo_client tr opts)
  pub answers : (tr : Trace) (h : Handle) (d : ℕ) → IsOk (λ _. ⊤) (out.ping tr h d)

-- The two calls of `Close` keep what has been reached.
abbrev pub Keeping : (Outcome → Trace → Type 0) → Type 0
Keeping S =
    (o : Outcome) (c : Client) (tr : Trace)
    → S o tr
    → S o (Call.kgo_closed c.kgo_client ∷ Call.admin_closed c.admin_client ∷ tr)

-- The deferred close, after a body: what the body reaches is kept, if the two calls keep it.
pub closing-Triple :
    {P : Trace → Type 0} {S : Outcome → Trace → Type 0} (body : Action Outcome) (c : Client)
    → Keeping S
    → Triple P body S
    → Triple P (body >>= (λ o. close c >> pure o)) S
unfolding close pure ◌>>=◌ ◌>>◌ called
closing-Triple body c keep kb = record { at = λ tr p. keep _ c _ (kb.at tr p) }

module _ {out : Outside} {cluster : Cluster} (w : Working out cluster) where
  pub get_cluster-Returns :
      (name namespace : String) → Returns (get_cluster out name namespace) (λ c. c ≡ cluster)
  unfolding get_cluster
  get_cluster-Returns name namespace =
      Returns-ok {Good = λ c. c ≡ cluster} _ _ _ (Returns-ask _ _ (λ tr. rw (w.fetched tr _) refl))
        (λ c e. Returns-pure _ e)

  pub new_client-Returns :
      (servers : String) (s : Option SaslConfig) → Returns (new_client out servers s) (λ _. ⊤)
  unfolding new_client
  new_client-Returns servers s = Returns-bind _ _ (λ mode.
      Returns-ok {Good = λ _. ⊤} _ _ _ (Returns-ask _ _ (λ tr. w.connects tr _)) (λ h _.
        Returns-ok {Good = λ _. ⊤} _ _ _ (Returns-ask _ _ (λ tr. w.answers tr h _))
          (λ _ _. Returns-pure _ tt)))

  -- The same from any history.
  closing-Ends :
      {S : Outcome → Trace → Type 0} (body : Action Outcome) (c : Client)
      → Keeping S
      → Ends body S
      → Ends (body >>= (λ o. close c >> pure o)) S
  unfolding close pure ◌>>=◌ ◌>>◌ called
  closing-Ends body c keep kb = record { at = λ tr. keep _ c _ (kb.at tr) }

  pub session-Ends :
      {S : Outcome → Trace → Type 0} (servers : String) (s : Option SaslConfig)
      (handler : Error → Action Outcome) (body : Client → Action Outcome)
      → Keeping S
      → ((c : Client) → Ends (body c) S)
      → Ends (session out servers s handler body) S
  session-Ends servers s handler body keep kb =
      Ends-ok {Good = λ _. ⊤} _ _ _ (new_client-Returns servers s)
        (λ c _. closing-Ends (body c) c keep (kb c))

  -- The same from a history with `P`, which no read and no connection breaks.
  pub session-Triple :
      {P : Trace → Type 0} {S : Outcome → Trace → Type 0}
      → Ignores P
      → IgnoresConnections P
      → (servers : String) (s : Option SaslConfig) (handler : Error → Action Outcome)
        (body : Client → Action Outcome)
      → Keeping S
      → ((c : Client) → Triple P (body c) S)
      → Triple P (session out servers s handler body) S
  session-Triple i j servers s handler body keep kb =
      Triple-ok {Good = λ _. ⊤} _ _ _
        (Triple-Returns (new_client-Returns servers s) (new_client-Keeps out i j servers s))
        (λ c _. closing-Triple (body c) c keep (kb c))
