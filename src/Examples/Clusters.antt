-- ===== src/Examples/Clusters.antt =====
-- Clusters in the concrete outside.
use bufstream_operator.Prelude.{◌≡◌, ◌↔◌, [], ◌∷◌, some, ok}
use bufstream_operator.Bufstream.Client.{SaslConfig, scram_sha512}
use bufstream_operator.Outside.{Secret}
use bufstream_operator.Controller.Common.{name_of}
use bufstream_operator.Controller.Helpers.{credentials_in}
use bufstream_operator.Controller.Credentials.{Gives, credentials_in_iff}
use bufstream_operator.Controller.Connections.{open_clients}
use bufstream_operator.Controller.Cluster.{reconcile_cluster, reconcile}
use bufstream_operator.Controller.Cluster.Health.{
  ChecksHealth, reconcile_cluster-ChecksHealth, cluster_reconcile-closes,
}
use bufstream_operator.Examples.World.{world, world-conditions, a_cluster}

reconcile_cluster-ChecksHealth_example :
    ChecksHealth world a_cluster (reconcile_cluster world a_cluster []).1
reconcile_cluster-ChecksHealth_example =
    reconcile_cluster-ChecksHealth world a_cluster world-conditions

cluster_reconcile-closes_example :
    open_clients (reconcile world (name_of a_cluster.metadata) []).1 ≡ open_clients []
cluster_reconcile-closes_example =
    cluster_reconcile-closes world world-conditions (name_of a_cluster.metadata) []

abbrev plain_secret : Secret
plain_secret = ("username", "admin") ∷ ("plaintext", "secret") ∷ []

abbrev admin : SaslConfig
admin = record { username = "admin"; password = "secret"; mechanism = scram_sha512 }

credentials_in_iff_example :
    (credentials_in "admin" plain_secret ≡ ok (some admin)) ↔ Gives plain_secret admin
credentials_in_iff_example = credentials_in_iff "admin" plain_secret admin
