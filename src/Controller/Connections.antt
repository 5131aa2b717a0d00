-- ===== src/Controller/Connections.antt =====
-- Which Kafka clients are open, and that connecting, working and closing leaves none behind.
use bufstream_operator.Prelude.{
  String, ◌≡◌, ap, ◌∙◌, List, [], ◌∷◌, Option, Result, ok, err, arith, ◌==◌, if◌then◌else◌,
}
use bufstream_operator.Api.Meta.{Error}
use bufstream_operator.Outside.{Outside, Call, Handle, Trace}
use bufstream_operator.Outside.Action.{Action, pure, ◌>>=◌, ◌>>◌, on_error, called, ask}
use bufstream_operator.Outside.Hoare.{
  read_cases, Keeps, Triple, Ignores, Triple-bind, Triple-on_error, Triple-keeps, Triple-then,
  Triple-pure, Keeps-triple, IsRead,
}
use bufstream_operator.Bufstream.Client.{Client, SaslConfig, new_client, close}
use bufstream_operator.Controller.Common.{Outcome}

-- Takes the first occurrence out.
abbrev pub erase : Handle → List Handle → List Handle
erase h [] = []
erase h (x ∷ xs) = let rest = erase h xs in if x == h then xs else x ∷ rest

-- The clients that have been opened and not closed.
abbrev pub open_clients : Trace → List Handle
open_clients [] = []
open_clients (Call.client_created _ (ok h) ∷ tr) = h ∷ open_clients tr
open_clients (Call.kgo_closed h ∷ tr) = erase h (open_clients tr)
open_clients (_ ∷ tr) = open_clients tr

abbrev pub Open : List Handle → Trace → Type 0
Open hs tr = open_clients tr ≡ hs

pub Open-Ignores : (hs : List Handle) → Ignores (Open hs)
Open-Ignores hs = record { read = go }
  where
    go : (c : Call) → IsRead c → (tr : Trace) → Open hs tr → Open hs (c ∷ tr)
    go =
        read_cases (Open hs) (λ _ _ _ h. h) (λ _ _ h. h) (λ _ h. h) (λ _ _ h. h) (λ _ _ _ _ h. h)
          (λ _ _ _ _ h. h)

-- Of a connection attempt, the client is open if it succeeded, and nothing is if it failed.
abbrev Connected : List Handle → Result Error Client → Trace → Type 0
Connected hs (ok c) = Open (c.kgo_client ∷ hs)
Connected hs (err _) = Open hs

erase_head : (h : Handle) (hs : List Handle) → erase h (h ∷ hs) ≡ hs
erase_head h hs = ground arith

module _ (out : Outside) (hs : List Handle) (servers : String) (s : Option SaslConfig) where
  new_client-Connected : Triple (Open hs) (new_client out servers s) (Connected hs)
  unfolding new_client ◌>>=◌ ◌>>◌ on_error pure called ask
  new_client-Connected = record { at = λ tr h. ground (arith, h) }

close-Open :
    (hs : List Handle) (c : Client) → Triple (Open (c.kgo_client ∷ hs)) (close c) (λ _. Open hs)
unfolding close called ◌>>◌
close-Open hs c = record { at = λ tr h. ap (erase c.kgo_client) h ∙ erase_head c.kgo_client hs }

module _ (out : Outside) (servers : String) (s : Option SaslConfig)
    (handler : Error → Action Outcome) (body : Client → Action Outcome) where
  -- What follows a connection attempt in each reconcile: the handler of its error, or the body and
  -- the deferred close.
  abbrev pub session : Action Outcome
  session = do
    connected ← new_client out servers s
    on_error connected handler λ client. do outcome ← body client; close client; pure outcome

  pub session-Open :
      ((hs : List Handle) (e : Error) → Keeps (Open hs) (handler e))
      → ((hs : List Handle) (c : Client) → Keeps (Open hs) (body c))
      → (hs : List Handle) → Keeps (Open hs) session
  session-Open kh kb hs = Keeps-triple (
      Triple-bind _ _ (new_client-Connected out hs servers s) (λ connected.
        Triple-on_error (Connected hs) connected _ _ (λ e _. Triple-keeps (kh hs e))
          (λ c _.
            Triple-bind _ _ (Triple-keeps (kb (c.kgo_client ∷ hs) c))
              (λ outcome. Triple-then _ _ (close-Open hs c) (Triple-pure outcome (λ tr h. h))))))
