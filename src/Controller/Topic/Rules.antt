-- ===== src/Controller/Topic/Rules.antt =====
-- The calls of a reconcile of a topic that is not being deleted, as rules that a predicate of the
-- history may follow.
use bufstream_operator.Prelude.{◌≡◌, String, List, ◌∷◌, ⊤, Result, ok, some, true}
use bufstream_operator.Prelude.Int.{int16}
use bufstream_operator.Api.Meta.{Message, Fault, Error, Time, Condition}
use bufstream_operator.Api.Topic.{Topic}
use bufstream_operator.Outside.{Outside, Call, Object, Kind, Trace, Handle, Response}
use bufstream_operator.Outside.Action.{Action, ◌>>=◌, pure, ask}
use bufstream_operator.Outside.Hoare.{Triple, Ignores}
use bufstream_operator.Bufstream.Topic.{
  TopicInfo, default_one, first_fault, found_topic, update_topic,
}
use bufstream_operator.Bufstream.Client.{Client}
use bufstream_operator.Controller.Common.{name_of, new_condition}
use bufstream_operator.Controller.Conditions.{condition_at, IsDegraded, IsHealthy}
use bufstream_operator.Controller.Topic.Base.{set_condition, topic_name}

-- What a status update writes where something failed, and where all went well: metadata and spec
-- are those of the topic.
pub record IsFailure (out : Outside) (t t' : Topic) : Type 0 where
  pub metadata : t'.metadata ≡ t.metadata
  pub spec : t'.spec ≡ t.spec
  pub conditions : IsDegraded out t'.status.conditions

pub record IsSuccess (out : Outside) (t : Topic) (name : String) (t' : Topic) : Type 0 where
  pub metadata : t'.metadata ≡ t.metadata
  pub spec : t'.spec ≡ t.spec
  pub conditions : IsHealthy out t'.status.conditions
  pub generation : t'.status.observed_generation ≡ t.metadata.generation
  pub topic_name : t'.status.topic_name ≡ name

-- The last call was a listing in which the topic has these numbers.
abbrev pub Found : String → TopicInfo → Trace → Type 0
Found name current (Call.topics_listed _ _ (ok topics) ∷ _) = found_topic name topics ≡ some current
Found name current _ = ⊥

-- The update that the controller asks for.
abbrev pub update_of : Outside → Topic → Client → TopicInfo → Trace → Result Error ⊤ × Trace
update_of out t c current =
    update_topic out c (topic_name t) t.spec.partitions
      (default_one (int16 t.spec.replication_factor)) current t.spec.config

-- `Q` holds before a change is accepted, and after success is reported; `D` between.
pub record LiveRules (out : Outside) (t : Topic) (Q D : Trace → Type 0) : Type 0 where
  pub ignores : Ignores Q
  pub ignores_after : Ignores D
  pub event :
      (severity reason : String) (m : Message) (tr : Trace)
      → Q tr
      → Q (Call.event Kind.topic_kind (name_of t.metadata) severity reason m ∷ tr)
  pub event_after :
      (severity reason : String) (m : Message) (tr : Trace)
      → D tr
      → D (Call.event Kind.topic_kind (name_of t.metadata) severity reason m ∷ tr)
  pub creation :
      (h : Handle) (answer : Result Fault (List Response)) (tr : Trace)
      → Q tr
      → Q (
          Call.topics_created h
            (default_one t.spec.partitions)
            (default_one (int16 t.spec.replication_factor))
            t.spec.config
            (topic_name t)
            answer
          ∷ tr)
  pub created :
      (h : Handle) (rs : List Response) (tr : Trace)
      → first_fault "failed to create topic " rs ≡ ok tt
      → Q tr
      → D (
          Call.topics_created h
            (default_one t.spec.partitions)
            (default_one (int16 t.spec.replication_factor))
            t.spec.config
            (topic_name t)
            (ok rs)
          ∷ tr)
  pub extended :
      t.spec.assume_ownership ≡ true
      → (h : Handle) (answer : Result Fault (List Response)) (tr : Trace) → Q tr
      → Q (Call.partitions_created h (default_one t.spec.partitions) (topic_name t) answer ∷ tr)
  pub configured :
      t.spec.assume_ownership ≡ true
      → (h : Handle) (answer : Result Fault (List Response)) (tr : Trace) → Q tr
      → Q (Call.configs_altered h t.spec.config (topic_name t) answer ∷ tr)
  pub updated :
      (c : Client) (current : TopicInfo) (tr : Trace)
      → Found (topic_name t) current tr
      → (update_of out t c current tr).0 ≡ ok tt
      → Q (update_of out t c current tr).1
      → D (update_of out t c current tr).1
  pub failure :
      (t' : Topic) (answer : Result Fault ⊤) (tr : Trace)
      → IsFailure out t t'
      → Q tr
      → Q (Call.status_updated (Object.topic t') answer ∷ tr)
  pub success :
      (t' : Topic) (answer : Result Fault ⊤) (tr : Trace)
      → IsSuccess out t (topic_name t) t'
      → D tr
      → Q (Call.status_updated (Object.topic t') answer ∷ tr)

abbrev pub with_conditions : Topic → List Condition → Topic
with_conditions t cs = record t { status = record (t.status) { conditions = cs } }

-- Marking a topic changes nothing that the rules speak of.
pub relabel :
    {out : Outside} {Q D : Trace → Type 0} (t : Topic) (cs : List Condition)
    → LiveRules out t Q D
    → LiveRules out (with_conditions t cs) Q D
unfolding topic_name
relabel t cs r = record {
  ignores = r.ignores;
  ignores_after = r.ignores_after;
  event = r.event;
  event_after = r.event_after;
  creation = r.creation;
  created = r.created;
  extended = r.extended;
  configured = r.configured;
  updated = r.updated;
  failure = λ t' a tr h.
      r.failure t' a tr
        (record { metadata = h.metadata; spec = h.spec; conditions = h.conditions });
  success = λ t' a tr h. r.success t' a tr (record {
    metadata = h.metadata;
    spec = h.spec;
    conditions = h.conditions;
    generation = h.generation;
    topic_name = h.topic_name;
  });
}

-- `set_condition` reads the clock once, and what follows goes on with the marked topic.
pub set_condition-Triple :
    (out : Outside) {Q : Trace → Type 0}
    → Ignores Q
    → {B : Type 0} {R : B → Trace → Type 0} (t : Topic) (kind status reason : String) (m : Message)
      (f : Topic → Action B)
    → ((time : Time)
        → Triple Q
            (f (
              with_conditions t (
                out.set_status_condition t.status.conditions
                  (condition_at t.metadata kind status reason m time))))
            R)
    → Triple Q (set_condition out t kind status reason m >>= f) R
unfolding set_condition new_condition ◌>>=◌ ask pure
set_condition-Triple out i t kind status reason m f k = record {
  at = λ tr h. (k (out.now tr)).at _ (i.read Call.clock_read tt tr h);
}
