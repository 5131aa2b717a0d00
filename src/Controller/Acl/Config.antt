-- ===== src/Controller/Acl/Config.antt =====
-- internal/controller/acl_controller.go: `toACLConfig`, from the strings of the resource to the
-- values of the client.
use bufstream_operator.Prelude.{ℕ, String, str_eq, if◌then◌else◌}
use bufstream_operator.Api.Acl
use bufstream_operator.Api.Acl.{Acl}
use bufstream_operator.Bufstream.Acl as Kafka
use bufstream_operator.Bufstream.Acl.{AclConfig, create_acl, delete_acl}

-- The four switches of `toACLConfig`.
unfoldable pub resource_type : String → ℕ
resource_type kind =
    if str_eq kind Acl.ResourceType.group
    then Kafka.ResourceType.group
    else if str_eq kind Acl.ResourceType.cluster
    then Kafka.ResourceType.cluster
    else if str_eq kind Acl.ResourceType.transactional_id
    then Kafka.ResourceType.transactional_id
    else Kafka.ResourceType.topic

unfoldable pub resource_pattern : String → ℕ
resource_pattern p =
    if str_eq p Acl.PatternType.prefixed
    then Kafka.PatternType.prefixed
    else Kafka.PatternType.literal

unfoldable pub permission : String → ℕ
permission p =
    if str_eq p Acl.Permission.deny then Kafka.Permission.deny else Kafka.Permission.allow

-- The field keeps its zero value where no case fits.
unfoldable pub operation : String → ℕ
operation o =
    if str_eq o Acl.Operation.read
    then Kafka.Operation.read
    else if str_eq o Acl.Operation.write
    then Kafka.Operation.write
    else if str_eq o Acl.Operation.create
    then Kafka.Operation.create
    else if str_eq o Acl.Operation.delete
    then Kafka.Operation.delete
    else if str_eq o Acl.Operation.alter
    then Kafka.Operation.alter
    else if str_eq o Acl.Operation.describe
    then Kafka.Operation.describe
    else if str_eq o Acl.Operation.cluster_action
    then Kafka.Operation.cluster_action
    else if str_eq o Acl.Operation.describe_configs
    then Kafka.Operation.describe_configs
    else if str_eq o Acl.Operation.alter_configs
    then Kafka.Operation.alter_configs
    else if str_eq o Acl.Operation.idempotent_write
    then Kafka.Operation.idempotent_write
    else if str_eq o Acl.Operation.all
    then Kafka.Operation.all
    else 0

-- toACLConfig
unfoldable pub to_acl_config : Acl → AclConfig
unfolding resource_type resource_pattern permission operation
to_acl_config acl = record {
  principal = acl.spec.principal;
  host = acl.spec.host;
  resource_type = resource_type acl.spec.resource.kind;
  resource_name = acl.spec.resource.name;
  resource_pattern = resource_pattern acl.spec.resource.pattern_type;
  operation = operation acl.spec.operation;
  permission = permission acl.spec.permission;
}
