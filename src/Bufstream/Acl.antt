-- ===== src/Bufstream/Acl.antt =====
-- internal/bufstream/acl.go: the operations on ACLs. The enumerations are int8 values, of which the
-- children list the constants; a field that is never set is 0.
pub mod ResourceType
pub mod PatternType
pub mod Permission
pub mod Operation
use bufstream_operator.Prelude.{
  ℕ, String, List, [], ◌∷◌, ◌++◌, Option, none, some, ⊤, Result, ok, err, str_eq, Bool, true, false,
  ◌==◌, if◌then◌else◌,
}
use bufstream_operator.Api.Meta.{Fault, Error, foreign, wrapped, lit}
use bufstream_operator.Outside.{
  Outside, AclStep, allow, allow_hosts, deny, deny_hosts, resource_pattern_type, topics, groups,
  clusters, transactional_ids, operations, pattern_literal, pattern_prefixed, KadmOperation,
  op_unset, op_all, op_read, op_write, op_create, op_delete, op_alter, op_describe,
  op_cluster_action, op_describe_configs, op_alter_configs, op_idempotent_write,
}
use bufstream_operator.Outside.Action.{Action, pure, ◌>>=◌, on_error}
use bufstream_operator.Outside.Calls.{create_acls, delete_acls, describe_acls}
use bufstream_operator.Bufstream.Client.{Client}
use bufstream_operator.Bufstream.Topic.{on_fault}
use bufstream_operator.Bufstream.User.{is_absent}

pub record AclConfig : Type 0 where
  pub principal : String
  pub host : String
  pub resource_type : ℕ
  pub resource_name : String
  pub resource_pattern : ℕ
  pub operation : ℕ
  pub permission : ℕ

-- `host := config.Host; if host == "" { host = "*" }`
unfoldable pub default_host : String → String
default_host host = if str_eq host "" then "*" else host

-- The four parts of `buildACL`, each with its switch.
unfoldable pub permission_steps : AclConfig → String → List AclStep
permission_steps config host =
    if config.permission == Permission.deny
    then deny config.principal ∷ deny_hosts host ∷ []
    else allow config.principal ∷ allow_hosts host ∷ []

unfoldable pub pattern_step : AclConfig → AclStep
pattern_step config =
    if config.resource_pattern == PatternType.prefixed
    then resource_pattern_type pattern_prefixed
    else resource_pattern_type pattern_literal

unfoldable pub resource_step : AclConfig → AclStep
resource_step config =
    if config.resource_type == ResourceType.group
    then groups config.resource_name
    else if config.resource_type == ResourceType.cluster
    then clusters
    else if config.resource_type == ResourceType.transactional_id
    then transactional_ids config.resource_name
    else topics config.resource_name

unfoldable pub kadm_operation : ℕ → KadmOperation
kadm_operation o =
    if o == Operation.read
    then op_read
    else if o == Operation.write
    then op_write
    else if o == Operation.create
    then op_create
    else if o == Operation.delete
    then op_delete
    else if o == Operation.alter
    then op_alter
    else if o == Operation.describe
    then op_describe
    else if o == Operation.cluster_action
    then op_cluster_action
    else if o == Operation.describe_configs
    then op_describe_configs
    else if o == Operation.alter_configs
    then op_alter_configs
    else if o == Operation.idempotent_write
    then op_idempotent_write
    else if o == Operation.all
    then op_all
    else op_unset

unfoldable pub build_acl : AclConfig → String → List AclStep
build_acl config host =
    permission_steps config host
    ++ (pattern_step config
        ∷ resource_step config
        ∷ operations (kadm_operation config.operation)
        ∷ [])

-- The loop of `CreateACL`.
unfoldable pub create_acl_fault : List (Option Fault) → Result Error ⊤
create_acl_fault [] = ok tt
create_acl_fault (r ∷ rs) =
    on_fault r (create_acl_fault rs)
      (λ e. err (wrapped (lit "failed to create ACL: " ∷ []) (foreign e)))

-- The loop of `DeleteACL`.
unfoldable pub delete_acl_fault : List (Option Fault) → Result Error ⊤
delete_acl_fault [] = ok tt
delete_acl_fault (r ∷ rs) =
    let rest = delete_acl_fault rs in
    on_fault r rest (λ e.
      if is_absent e then rest else err (wrapped (lit "failed to delete ACL: " ∷ []) (foreign e)))

module _ (out : Outside) where
  unfoldable pub create_acl : Client → AclConfig → Action (Result Error ⊤)
  create_acl c config = do
    resp ← create_acls out c.admin_client (build_acl config (default_host config.host))
    on_error resp (λ e. pure (err (wrapped (lit "failed to create ACL: " ∷ []) (foreign e))))
        λ rs. pure (create_acl_fault rs)

  unfoldable pub delete_acl : Client → AclConfig → Action (Result Error ⊤)
  delete_acl c config = do
    resp ← delete_acls out c.admin_client (build_acl config (default_host config.host))
    on_error resp (λ e. pure (err (wrapped (lit "failed to delete ACL: " ∷ []) (foreign e))))
        λ rs. pure (delete_acl_fault rs)

  unfoldable pub acl_exists : Client → AclConfig → Action (Result Error Bool)
  acl_exists c config = do
    resp ← describe_acls out c.admin_client (build_acl config (default_host config.host))
    on_error resp (λ e. pure (err (wrapped (lit "failed to describe ACLs: " ∷ []) (foreign e))))
        λ rs. pure (ok (elim rs [ [] ↦ false | _ ∷ _ ↦ true ]))
