-- ===== src/Controller/Acl/Rules.antt =====
-- The calls of a reconcile of an ACL that is not being deleted, as rules that a predicate of the
-- history may follow: success is reported only where the broker has accepted the ACL.
use bufstream_operator.Prelude.{◌≡◌, String, List, ◌∷◌, ⊤, Result, ok, Option}
use bufstream_operator.Api.Meta.{Message, Fault, Time, Condition}
use bufstream_operator.Api.Acl.{Acl}
use bufstream_operator.Outside.{Outside, Call, Object, Kind, Trace, Handle, AclStep}
use bufstream_operator.Outside.Action.{Action, ◌>>=◌, pure, ask}
use bufstream_operator.Outside.Hoare.{Triple, Ignores}
use bufstream_operator.Bufstream.Acl.{build_acl, default_host, create_acl_fault}
use bufstream_operator.Controller.Common.{name_of, new_condition}
use bufstream_operator.Controller.Conditions.{condition_at, IsDegraded, IsHealthy}
use bufstream_operator.Controller.Acl.Base.{set_condition}
use bufstream_operator.Controller.Acl.Config.{to_acl_config}

-- What a status update writes where something failed, and where all went well: metadata and spec
-- are those of the ACL.
pub record IsFailure (out : Outside) (a a' : Acl) : Type 0 where
  pub metadata : a'.metadata ≡ a.metadata
  pub spec : a'.spec ≡ a.spec
  pub conditions : IsDegraded out a'.status.conditions

pub record IsSuccess (out : Outside) (a a' : Acl) : Type 0 where
  pub metadata : a'.metadata ≡ a.metadata
  pub spec : a'.spec ≡ a.spec
  pub conditions : IsHealthy out a'.status.conditions
  pub generation : a'.status.observed_generation ≡ a.metadata.generation

-- The builder that the controller sends.
abbrev pub steps_of : Acl → List AclStep
steps_of a = build_acl (to_acl_config a) (default_host (to_acl_config a).host)

-- `Q` holds before the creation is accepted, and after success is reported; `D` between.
pub record LiveRules (out : Outside) (a : Acl) (Q D : Trace → Type 0) : Type 0 where
  pub ignores : Ignores Q
  pub ignores_after : Ignores D
  pub event :
      (severity reason : String) (m : Message) (tr : Trace)
      → Q tr
      → Q (Call.event Kind.acl_kind (name_of a.metadata) severity reason m ∷ tr)
  pub event_after :
      (severity reason : String) (m : Message) (tr : Trace)
      → D tr
      → D (Call.event Kind.acl_kind (name_of a.metadata) severity reason m ∷ tr)
  pub creation :
      (h : Handle) (answer : Result Fault (List (Option Fault))) (tr : Trace)
      → Q tr
      → Q (Call.acls_created h (steps_of a) answer ∷ tr)
  pub accepted :
      (h : Handle) (rs : List (Option Fault)) (tr : Trace)
      → create_acl_fault rs ≡ ok tt
      → Q tr
      → D (Call.acls_created h (steps_of a) (ok rs) ∷ tr)
  pub failure :
      (a' : Acl) (answer : Result Fault ⊤) (tr : Trace)
      → IsFailure out a a'
      → Q tr
      → Q (Call.status_updated (Object.acl a') answer ∷ tr)
  pub success :
      (a' : Acl) (answer : Result Fault ⊤) (tr : Trace)
      → IsSuccess out a a'
      → D tr
      → Q (Call.status_updated (Object.acl a') answer ∷ tr)

abbrev pub with_conditions : Acl → List Condition → Acl
with_conditions a cs = record a { status = record (a.status) { conditions = cs } }

-- Marking an ACL changes nothing that the rules speak of.
pub relabel :
    {out : Outside} {Q D : Trace → Type 0} (a : Acl) (cs : List Condition)
    → LiveRules out a Q D
    → LiveRules out (with_conditions a cs) Q D
unfolding to_acl_config
relabel a cs r = record {
  ignores = r.ignores;
  ignores_after = r.ignores_after;
  event = r.event;
  event_after = r.event_after;
  creation = r.creation;
  accepted = r.accepted;
  failure = λ a' a tr h.
      r.failure a' a tr
        (record { metadata = h.metadata; spec = h.spec; conditions = h.conditions });
  success = λ a' a tr h. r.success a' a tr (record {
    metadata = h.metadata;
    spec = h.spec;
    conditions = h.conditions;
    generation = h.generation;
  });
}

-- `set_condition` reads the clock once, and what follows goes on with the marked user.
pub set_condition-Triple :
    (out : Outside) {Q R : Trace → Type 0}
    → Ignores Q
    → {B : Type 0} (a : Acl) (kind status reason : String) (m : Message) (f : Acl → Action B)
    → ((time : Time)
        → Triple Q
            (f (
              with_conditions a (
                out.set_status_condition a.status.conditions
                  (condition_at a.metadata kind status reason m time))))
            (λ _. R))
    → Triple Q (set_condition out a kind status reason m >>= f) (λ _. R)
unfolding set_condition new_condition ◌>>=◌ ask pure
set_condition-Triple out i a kind status reason m f k = record {
  at = λ tr h. (k (out.now tr)).at _ (i.read Call.clock_read tt tr h);
}
