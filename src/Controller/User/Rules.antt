-- ===== src/Controller/User/Rules.antt =====
-- The calls of a reconcile of a user that is not being deleted, as rules that a predicate of the
-- history may follow: success is reported only where the broker has accepted the credentials.
use bufstream_operator.Prelude.{◌≡◌, refl, String, List, [], ◌∷◌, ⊤, Result, ok}
use bufstream_operator.Api.Meta.{Message, Fault, Time, Condition}
use bufstream_operator.Api.User.{User}
use bufstream_operator.Outside.{Outside, Call, Object, Kind, Trace, Handle, Response, UpsertScram}
use bufstream_operator.Outside.Action.{Action, ◌>>=◌, pure, ask}
use bufstream_operator.Outside.Hoare.{Triple, Ignores}
use bufstream_operator.Bufstream.Topic.{first_fault}
use bufstream_operator.Bufstream.User.{kadm_mechanism, default_iterations}
use bufstream_operator.Controller.Common.{name_of, new_condition}
use bufstream_operator.Controller.Conditions.{condition_at, IsDegraded, IsHealthy}
use bufstream_operator.Controller.User.Names.{
  IsNameOf, IsUpsert, username-IsNameOf, mechanism-IsMechanismOf,
  default_iterations-AreIterationsOf,
}
use bufstream_operator.Controller.User.Base.{set_condition, username, mechanism}

-- What a status update writes where something failed, and where all went well: metadata and spec
-- are those of the user.
pub record IsFailure (out : Outside) (u u' : User) : Type 0 where
  pub metadata : u'.metadata ≡ u.metadata
  pub spec : u'.spec ≡ u.spec
  pub conditions : IsDegraded out u'.status.conditions

pub record IsSuccess (out : Outside) (u u' : User) : Type 0 where
  pub metadata : u'.metadata ≡ u.metadata
  pub spec : u'.spec ≡ u.spec
  pub conditions : IsHealthy out u'.status.conditions
  pub generation : u'.status.observed_generation ≡ u.metadata.generation
  pub username : IsNameOf u u'.status.username

-- The upsert that the controller asks for.
abbrev pub upsert_of : User → String → UpsertScram
upsert_of u password = record {
  user = username u;
  password = password;
  mechanism = kadm_mechanism (mechanism u);
  iterations = default_iterations (default_iterations u.spec.iterations);
}

pub upsert_of-IsUpsert : (u : User) (password : String) → IsUpsert u (upsert_of u password ∷ [])
upsert_of-IsUpsert u password = (
  upsert_of u password,
  refl,
  username-IsNameOf u,
  mechanism-IsMechanismOf u,
  default_iterations-AreIterationsOf u,
)

-- `Q` holds before the upsert is accepted, and after success is reported; `D` between.
pub record LiveRules (out : Outside) (u : User) (Q D : Trace → Type 0) : Type 0 where
  pub ignores : Ignores Q
  pub ignores_after : Ignores D
  pub event :
      (severity reason : String) (m : Message) (tr : Trace)
      → Q tr
      → Q (Call.event Kind.user_kind (name_of u.metadata) severity reason m ∷ tr)
  pub event_after :
      (severity reason : String) (m : Message) (tr : Trace)
      → D tr
      → D (Call.event Kind.user_kind (name_of u.metadata) severity reason m ∷ tr)
  pub upsert :
      (h : Handle) (password : String) (answer : Result Fault (List Response)) (tr : Trace)
      → Q tr
      → Q (Call.scrams_altered h [] (upsert_of u password ∷ []) answer ∷ tr)
  pub accepted :
      (h : Handle) (password : String) (rs : List Response) (tr : Trace)
      → first_fault "failed to upsert credentials for user " rs ≡ ok tt
      → Q tr
      → D (Call.scrams_altered h [] (upsert_of u password ∷ []) (ok rs) ∷ tr)
  pub failure :
      (u' : User) (answer : Result Fault ⊤) (tr : Trace)
      → IsFailure out u u'
      → Q tr
      → Q (Call.status_updated (Object.user u') answer ∷ tr)
  pub success :
      (u' : User) (answer : Result Fault ⊤) (tr : Trace)
      → IsSuccess out u u'
      → D tr
      → Q (Call.status_updated (Object.user u') answer ∷ tr)

abbrev pub with_conditions : User → List Condition → User
with_conditions u cs = record u { status = record (u.status) { conditions = cs } }

-- Marking a user changes nothing that the rules speak of.
pub relabel :
    {out : Outside} {Q D : Trace → Type 0} (u : User) (cs : List Condition)
    → LiveRules out u Q D
    → LiveRules out (with_conditions u cs) Q D
unfolding username mechanism
relabel u cs r = record {
  ignores = r.ignores;
  ignores_after = r.ignores_after;
  event = r.event;
  event_after = r.event_after;
  upsert = r.upsert;
  accepted = r.accepted;
  failure = λ u' a tr h.
      r.failure u' a tr
        (record { metadata = h.metadata; spec = h.spec; conditions = h.conditions });
  success = λ u' a tr h. r.success u' a tr (record {
    metadata = h.metadata;
    spec = h.spec;
    conditions = h.conditions;
    generation = h.generation;
    username = h.username;
  });
}

-- `set_condition` reads the clock once, and what follows goes on with the marked user.
pub set_condition-Triple :
    (out : Outside) {Q R : Trace → Type 0}
    → Ignores Q
    → {B : Type 0} (u : User) (kind status reason : String) (m : Message) (f : User → Action B)
    → ((time : Time)
        → Triple Q
            (f (
              with_conditions u (
                out.set_status_condition u.status.conditions
                  (condition_at u.metadata kind status reason m time))))
            (λ _. R))
    → Triple Q (set_condition out u kind status reason m >>= f) (λ _. R)
unfolding set_condition new_condition ◌>>=◌ ask pure
set_condition-Triple out i u kind status reason m f k = record {
  at = λ tr h. (k (out.now tr)).at _ (i.read Call.clock_read tt tr h);
}
