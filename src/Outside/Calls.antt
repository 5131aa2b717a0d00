-- ===== src/Outside/Calls.antt =====
-- The calls of `Outside` as actions.
use bufstream_operator.Prelude.{ℕ, String, List, Option, ⊤, Result}
use bufstream_operator.Prelude.Int.{ℤ}
use bufstream_operator.Api.Meta.{Time, NamespacedName, Fault, Message}
use bufstream_operator.Api.Topic.{Topic}
use bufstream_operator.Api.User.{User}
use bufstream_operator.Api.Acl.{Acl}
use bufstream_operator.Api.Cluster.{Cluster}
use bufstream_operator.Outside.{
  Outside, Call, Object, Kind, Secret, Opt, Handle, Response, TopicDetail, DeleteScram, UpsertScram,
  ScramDescription, AclStep, AclDescription,
}
use bufstream_operator.Outside.Action.{Action, ask, called}

-- r.Recorder.Event
abbrev pub record_event : Kind → NamespacedName → String → String → Message → Action ⊤
record_event k n severity reason message = called (Call.event k n severity reason message)

module _ (out : Outside) where
  abbrev pub fetch_cluster : NamespacedName → Action (Result Fault Cluster)
  fetch_cluster n = ask (λ tr. out.get_cluster tr n) (λ _. Call.fetched Kind.cluster_kind n)

  abbrev pub fetch_topic : NamespacedName → Action (Result Fault Topic)
  fetch_topic n = ask (λ tr. out.get_topic tr n) (λ _. Call.fetched Kind.topic_kind n)

  abbrev pub fetch_user : NamespacedName → Action (Result Fault User)
  fetch_user n = ask (λ tr. out.get_user tr n) (λ _. Call.fetched Kind.user_kind n)

  abbrev pub fetch_acl : NamespacedName → Action (Result Fault Acl)
  fetch_acl n = ask (λ tr. out.get_acl tr n) (λ _. Call.fetched Kind.acl_kind n)

  abbrev pub fetch_secret : NamespacedName → Action (Result Fault Secret)
  fetch_secret n = ask (λ tr. out.get_secret tr n) (λ _. Call.secret_fetched n)

  abbrev pub update : Object → Action (Result Fault ⊤)
  update x = ask (λ tr. out.update tr x) (λ answer. Call.updated x answer)

  abbrev pub update_status : Object → Action (Result Fault ⊤)
  update_status x = ask (λ tr. out.update_status tr x) (λ answer. Call.status_updated x answer)

  abbrev pub now : Action Time
  now = ask (λ tr. out.now tr) (λ _. Call.clock_read)

  abbrev pub getenv : String → Action String
  getenv name = ask (λ tr. out.getenv tr name) (λ _. Call.environment_read name)

  abbrev pub new_kgo_client : List Opt → Action (Result Fault Handle)
  new_kgo_client opts =
      ask (λ tr. out.new_kgo_client tr opts) (λ answer. Call.client_created opts answer)

  abbrev pub ping : Handle → ℕ → Action (Result Fault ⊤)
  ping h timeout = ask (λ tr. out.ping tr h timeout) (λ answer. Call.pinged h timeout answer)

  abbrev pub list_topics :
      Handle → List String → Action (Result Fault (List (String × TopicDetail)))
  list_topics h names =
      ask (λ tr. out.list_topics tr h names) (λ answer. Call.topics_listed h names answer)

  abbrev pub create_topics :
      Handle → ℤ → ℤ → List (String × String) → String → Action (Result Fault (List Response))
  create_topics h p r configs name =
      ask (λ tr. out.create_topics tr h p r configs name)
        (λ answer. Call.topics_created h p r configs name answer)

  abbrev pub create_partitions : Handle → ℤ → String → Action (Result Fault (List Response))
  create_partitions h n name =
      ask (λ tr. out.create_partitions tr h n name)
        (λ answer. Call.partitions_created h n name answer)

  abbrev pub alter_topic_configs :
      Handle → List (String × String) → String → Action (Result Fault (List Response))
  alter_topic_configs h configs name =
      ask (λ tr. out.alter_topic_configs tr h configs name)
        (λ answer. Call.configs_altered h configs name answer)

  abbrev pub delete_topics : Handle → String → Action (Result Fault (List Response))
  delete_topics h name =
      ask (λ tr. out.delete_topics tr h name) (λ answer. Call.topics_deleted h name answer)

  abbrev pub alter_user_scrams :
      Handle → List DeleteScram → List UpsertScram → Action (Result Fault (List Response))
  alter_user_scrams h deletions upserts =
      ask (λ tr. out.alter_user_scrams tr h deletions upserts)
        (λ answer. Call.scrams_altered h deletions upserts answer)

  abbrev pub describe_user_scrams : Handle → String → Action (Result Fault (List ScramDescription))
  describe_user_scrams h user =
      ask (λ tr. out.describe_user_scrams tr h user) (λ _. Call.scrams_described h user)

  abbrev pub create_acls : Handle → List AclStep → Action (Result Fault (List (Option Fault)))
  create_acls h builder =
      ask (λ tr. out.create_acls tr h builder) (λ answer. Call.acls_created h builder answer)

  abbrev pub delete_acls : Handle → List AclStep → Action (Result Fault (List (Option Fault)))
  delete_acls h builder =
      ask (λ tr. out.delete_acls tr h builder) (λ answer. Call.acls_deleted h builder answer)

  abbrev pub describe_acls : Handle → List AclStep → Action (Result Fault (List AclDescription))
  describe_acls h builder =
      ask (λ tr. out.describe_acls tr h builder) (λ _. Call.acls_described h builder)
