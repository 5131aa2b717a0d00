-- ===== src/Api/Acl/Operation.antt =====
-- api/v1alpha1/acl_types.go: the constants of ACLOperation
use bufstream_operator.Prelude.{String}

abbrev pub read : String
read = "Read"

abbrev pub write : String
write = "Write"

abbrev pub create : String
create = "Create"

abbrev pub delete : String
delete = "Delete"

abbrev pub alter : String
alter = "Alter"

abbrev pub describe : String
describe = "Describe"

abbrev pub cluster_action : String
cluster_action = "ClusterAction"

abbrev pub describe_configs : String
describe_configs = "DescribeConfigs"

abbrev pub alter_configs : String
alter_configs = "AlterConfigs"

abbrev pub idempotent_write : String
idempotent_write = "IdempotentWrite"

abbrev pub all : String
all = "All"
