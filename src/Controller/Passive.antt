-- ===== src/Controller/Passive.antt =====
-- The parts of every reconcile that only read, connect and disconnect keep each predicate of the
-- history that ignores such calls.
use bufstream_operator.Prelude.{String, Option}
use bufstream_operator.Api.Cluster.{Cluster, AdminCredentialsReference}
use bufstream_operator.Outside.{Outside, Trace}
use bufstream_operator.Outside.Hoare.{Keeps, Ignores, IgnoresConnections, keeps_rules}
use bufstream_operator.Bufstream.Client.{Client, SaslConfig, new_client, check_health, close}
use bufstream_operator.Bufstream.Topic.{topic_exists}
use bufstream_operator.Controller.Helpers.{
  get_cluster, referenced_credentials, get_admin_credentials,
}

pub close-Keeps : {Q : Trace → Type 0} → IgnoresConnections Q → (c : Client) → Keeps Q (close c)
unfolding close
close-Keeps i c = search (keeps_rules, i.connection, tt)

module _ (out : Outside) {Q : Trace → Type 0} (i : Ignores Q) where
  pub get_cluster-Keeps : (name namespace : String) → Keeps Q (get_cluster out name namespace)
  unfolding get_cluster
  get_cluster-Keeps name namespace = search (keeps_rules, i.read, tt)

  referenced_credentials-Keeps :
      (ref : AdminCredentialsReference) (c : Cluster) → Keeps Q (referenced_credentials out ref c)
  unfolding referenced_credentials
  referenced_credentials-Keeps ref c = search (keeps_rules, i.read, tt)

  pub get_admin_credentials-Keeps : (c : Cluster) → Keeps Q (get_admin_credentials out c)
  unfolding get_admin_credentials
  get_admin_credentials-Keeps c = search (keeps_rules, referenced_credentials-Keeps)

  pub new_client-Keeps :
      IgnoresConnections Q
      → (servers : String) (s : Option SaslConfig) → Keeps Q (new_client out servers s)
  unfolding new_client
  new_client-Keeps j servers s = search (keeps_rules, i.read, j.connection, tt) depth 14

  pub check_health-Keeps : (c : Client) → Keeps Q (check_health out c)
  unfolding check_health
  check_health-Keeps c = search (keeps_rules, i.read, tt)

  pub topic_exists-Keeps : (c : Client) (name : String) → Keeps Q (topic_exists out c name)
  unfolding topic_exists
  topic_exists-Keeps c name = search (keeps_rules, i.read, tt)
