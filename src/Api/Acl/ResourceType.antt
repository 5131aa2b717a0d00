-- ===== src/Api/Acl/ResourceType.antt =====
-- api/v1alpha1/acl_types.go: the constants of ACLResourceType
use bufstream_operator.Prelude.{String}

abbrev pub topic : String
topic = "Topic"

abbrev pub group : String
group = "Group"

abbrev pub cluster : String
cluster = "Cluster"

abbrev pub transactional_id : String
transactional_id = "TransactionalId"
