-- ===== src/Bufstream/Topic.antt =====
-- internal/bufstream/topic.go: the operations on topics.
pub mod Update
pub mod Lookup
use bufstream_operator.Prelude.{
  ℕ, ◌==◌, String, List, [], ◌∷◌, Option, none, some, ⊤, Result, ok, err, str_eq, ◌||◌, Bool,
  length, if◌then◌else◌,
}
use bufstream_operator.Prelude.Int.{ℤ, pos, int16, int32, ltb_ℤ, ◌==ℤ◌}
use bufstream_operator.Api.Meta.{Fault, Error, foreign, formatted, wrapped, lit, shown, decimal}
use bufstream_operator.Outside.{Outside, Response, TopicDetail}
use bufstream_operator.Outside.Action.{Action, pure, ◌>>=◌, on_error}
use bufstream_operator.Outside.Calls.{
  list_topics, create_topics, create_partitions, alter_topic_configs, delete_topics,
}
use bufstream_operator.Bufstream.Client.{Client}

pub record TopicConfig : Type 0 where
  pub name : String
  pub partitions : ℤ
  pub replication_factor : ℤ
  pub config : List (String × String)

-- `TopicExists` leaves the field Config unset, and no one reads it.
pub record TopicInfo : Type 0 where
  pub name : String
  pub partitions : ℤ
  pub replication_factor : ℤ

-- `if x == 0 { x = 1 }`
unfoldable pub default_one : ℤ → ℤ
default_one x = if x ==ℤ pos 0 then pos 1 else x

-- `if r.Err != nil { … }` in a loop over a response, with the rest of the loop.
abbrev pub on_fault : Option Fault → Result Error ⊤ → (Fault → Result Error ⊤) → Result Error ⊤
on_fault none rest handler = rest
on_fault (some e) rest handler = handler e

-- The loops over a response, which return the first error in it: `prefix` begins the text.
unfoldable pub first_fault : String → List Response → Result Error ⊤
first_fault prefix [] = ok tt
first_fault prefix (r ∷ rs) =
    on_fault r.fault (first_fault prefix rs)
      (λ e. err (wrapped (lit prefix ∷ shown r.name ∷ lit ": " ∷ []) (foreign e)))

-- `topics[topicName]`
unfoldable pub topic_entry : String → List (String × TopicDetail) → Option TopicDetail
topic_entry name [] = none
topic_entry name ((n, d) ∷ topics) = if str_eq n name then some d else topic_entry name topics

-- `topicDetail.Partitions[k].Replicas`: a missing key gives the zero value, no replicas.
unfoldable pub replicas_of : ℕ → List (ℕ × List ℕ) → List ℕ
replicas_of k [] = []
replicas_of k ((j, replicas) ∷ partitions) =
    let rest = replicas_of k partitions in if j == k then replicas else rest

-- What `TopicExists` returns for a topic that is listed.
unfoldable pub topic_info : String → TopicDetail → Option TopicInfo
topic_info name detail = elim detail.partitions [
  | [] ↦ none
  | partition ∷ rest ↦ some (record {
    name = name;
    partitions = int32 (pos (length (partition ∷ rest)));
    replication_factor = int16 (pos (length (replicas_of 0 (partition ∷ rest))));
  })
]

unfoldable pub found_topic : String → List (String × TopicDetail) → Option TopicInfo
found_topic name [] = none
found_topic name (t ∷ topics) = elim (topic_entry name (t ∷ topics)) [
  | none ↦ none
  | some detail ↦ topic_info name detail
]

-- The test of `DeleteTopic` on an error's text.
unfoldable pub is_gone : Fault → Bool
is_gone e = str_eq e.text "UNKNOWN_TOPIC_OR_PARTITION" || str_eq e.text "UNKNOWN_TOPIC"

-- The loop of `DeleteTopic`.
unfoldable pub delete_fault : List Response → Result Error ⊤
delete_fault [] = ok tt
delete_fault (r ∷ rs) =
    let rest = delete_fault rs in
    on_fault r.fault rest (λ e.
      if is_gone e
      then rest
      else err (wrapped (lit "failed to delete topic " ∷ shown r.name ∷ lit ": " ∷ []) (foreign e)))

module _ (out : Outside) where
  -- `none` is the answer false, `some info` the answer true with the topic's details.
  unfoldable pub topic_exists : Client → String → Action (Result Error (Option TopicInfo))
  topic_exists c name = do
    listed ← list_topics out c.admin_client (name ∷ [])
    on_error listed (λ e. pure (err (wrapped (lit "failed to list topics: " ∷ []) (foreign e))))
        λ topics. pure (ok (found_topic name topics))

  unfoldable pub create_topic : Client → TopicConfig → Action (Result Error ⊤)
  create_topic c config = do
    resp ←
        create_topics out c.admin_client (default_one config.partitions)
          (default_one config.replication_factor) config.config config.name
    on_error resp (λ e. pure (err (wrapped (lit "failed to create topic: " ∷ []) (foreign e))))
        λ rs. pure (first_fault "failed to create topic " rs)

  -- The partition step of `UpdateTopic`.
  unfoldable pub update_partitions : Client → String → ℤ → TopicInfo → Action (Result Error ⊤)
  update_partitions c name desired current =
      if ltb_ℤ current.partitions desired
      then (do
        resp ← create_partitions out c.admin_client desired name
        on_error resp
            (λ e. pure (err (wrapped (lit "failed to increase partitions: " ∷ []) (foreign e))))
            λ rs. pure (first_fault "failed to increase partitions for " rs))
      else if ltb_ℤ desired current.partitions
      then pure (
          err (
            formatted (
              lit "cannot decrease partitions from "
              ∷ decimal current.partitions
              ∷ lit " to "
              ∷ decimal desired
              ∷ [])))
      else pure (ok tt)

  -- The config step of `UpdateTopic`, for a map that may be empty.
  unfoldable pub update_configs : Client → String → List (String × String) → Action (Result Error ⊤)
  update_configs c name [] = pure (ok tt)
  update_configs c name (kv ∷ config) = do
    resp ← alter_topic_configs out c.admin_client (kv ∷ config) name
    on_error resp
        (λ e. pure (err (wrapped (lit "failed to alter topic configs: " ∷ []) (foreign e))))
        λ rs. pure (first_fault "failed to alter config for " rs)

  unfoldable pub update_topic :
      Client → String → ℤ → ℤ → TopicInfo → List (String × String) → Action (Result Error ⊤)
  update_topic c name desired_partitions desired_replicas current config =
      if current.replication_factor ==ℤ desired_replicas
      then (do
        partitioned ← update_partitions c name (default_one desired_partitions) current
        on_error partitioned (λ e. pure (err e)) λ _. update_configs c name config)
      else pure (
          err (
            formatted (
              lit "cannot change replication factor from "
              ∷ decimal current.replication_factor
              ∷ lit " to "
              ∷ decimal desired_replicas
              ∷ lit " (requires partition reassignment)"
              ∷ [])))

  unfoldable pub delete_topic : Client → String → Action (Result Error ⊤)
  delete_topic c name = do
    resp ← delete_topics out c.admin_client name
    on_error resp (λ e. pure (err (wrapped (lit "failed to delete topic: " ∷ []) (foreign e))))
        λ rs. pure (delete_fault rs)
