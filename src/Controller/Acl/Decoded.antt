-- ===== src/Controller/Acl/Decoded.antt =====
-- The builder of an ACL can be read back: the brokers are told all that the spec says.
use text.Mathlib.TextEquality.{eq_iff}
use bufstream_operator.Prelude.{
  arith, Bool-cases, ◌≡◌, refl, sym, str_eq, if◌then◌else◌, String, ◌⊎◌, inl, inr, List, [], ◌∷◌,
  map, Option, some, none,
}
use bufstream_operator.Api.Acl.{Acl}
use bufstream_operator.Outside.{
  KadmOperation, op_unset, op_all, op_read, op_write, op_create, op_delete, op_alter, op_describe,
  op_cluster_action, op_describe_configs, op_alter_configs, op_idempotent_write, AclStep, allow,
  allow_hosts, deny, deny_hosts, resource_pattern_type, topics, groups, clusters, transactional_ids,
  operations, KadmPattern, pattern_literal, pattern_prefixed,
}
use bufstream_operator.Controller.Acl.Rules.{steps_of}
use bufstream_operator.Controller.Acl.Faithful.{
  Names, operation_names, HostNamed, PatternNamed, Targets, Grants, AllRows-Names,
  steps_of-faithful,
}

-- What an ACL says, in the words of the resource.
pub record View : Type 0 where
  pub permission : String
  pub principal : String
  pub host : String
  pub pattern : String
  pub kind : String
  pub name : String
  pub operation : String

-- A builder read back, part by part.
abbrev granted : AclStep → AclStep → Option (String × String × String)
granted (allow p) (allow_hosts h) = some ("Allow", p, h)
granted (deny p) (deny_hosts h) = some ("Deny", p, h)
granted _ _ = none

abbrev pattern_name : KadmPattern → String
pattern_name pattern_literal = "Literal"
pattern_name pattern_prefixed = "Prefixed"

abbrev target : AclStep → Option (String × String)
target (topics name) = some ("Topic", name)
target (groups name) = some ("Group", name)
target clusters = some ("Cluster", "")
target (transactional_ids name) = some ("TransactionalId", name)
target _ = none

abbrev operation_name : KadmOperation → String
operation_name op_all = "All"
operation_name op_read = "Read"
operation_name op_write = "Write"
operation_name op_create = "Create"
operation_name op_delete = "Delete"
operation_name op_alter = "Alter"
operation_name op_describe = "Describe"
operation_name op_cluster_action = "ClusterAction"
operation_name op_describe_configs = "DescribeConfigs"
operation_name op_alter_configs = "AlterConfigs"
operation_name op_idempotent_write = "IdempotentWrite"
operation_name op_unset = ""

abbrev view :
    Option (String × String × String)
    → KadmPattern
    → Option (String × String)
    → KadmOperation
    → Option View
view (some (permission, principal, host)) p (some (kind, name)) o = some (record {
  permission = permission;
  principal = principal;
  host = host;
  pattern = pattern_name p;
  kind = kind;
  name = name;
  operation = operation_name o;
})
view _ _ _ _ = none

abbrev pub decode : List AclStep → Option View
decode (grant ∷ hosts ∷ resource_pattern_type p ∷ resource ∷ operations o ∷ []) =
    view (granted grant hosts) p (target resource) o
decode _ = none

-- What the spec says: the host is `*` where none is given, and the cluster has no name.
abbrev pub said_by : Acl → View
said_by a = record {
  permission = a.spec.permission;
  principal = a.spec.principal;
  host = if str_eq a.spec.host "" then "*" else a.spec.host;
  pattern = a.spec.resource.pattern_type;
  kind = a.spec.resource.kind;
  name = if str_eq a.spec.resource.kind "Cluster" then "" else a.spec.resource.name;
  operation = a.spec.operation;
}

abbrev IsOneOf : List String → String → Type 0
IsOneOf [] s = ⊥
IsOneOf (t ∷ ts) s = (s ≡ t) ⊎ IsOneOf ts s

-- The enumerations of the CRD admit the strings of the spec.
pub record IsAdmitted (a : Acl) : Type 0 where
  pub permission : IsOneOf ("Allow" ∷ "Deny" ∷ []) a.spec.permission
  pub pattern : IsOneOf ("Literal" ∷ "Prefixed" ∷ []) a.spec.resource.pattern_type
  pub kind : IsOneOf ("Topic" ∷ "Group" ∷ "Cluster" ∷ "TransactionalId" ∷ []) a.spec.resource.kind
  pub operation : IsOneOf (map (λ row. row.0) operation_names) a.spec.operation

host-decodes : (s : String) → HostNamed s (if str_eq s "" then "*" else s)
host-decodes s = elim (Bool-cases (str_eq s "")) [
  | inl y ↦ inl ((eq_iff s "").0 y, rw y refl)
  | inr n ↦ inr (λ e. ground (arith, eq_iff s "", n, e), rw n refl)
]

permission-decodes :
    (s principal host : String)
    → IsOneOf ("Allow" ∷ "Deny" ∷ []) s
    → (grant : AclStep) × (hosts : AclStep) × Grants s principal host (grant ∷ hosts ∷ [])
      × (granted grant hosts ≡ some (s, principal, host))
permission-decodes s p h (inl e) = (allow p, allow_hosts h, inl (e, refl), rw e refl)
permission-decodes s p h (inr (inl e)) = (deny p, deny_hosts h, inr (e, refl), rw e refl)
permission-decodes s p h (inr (inr x)) = elim x [ ]

pattern-decodes :
    (s : String)
    → IsOneOf ("Literal" ∷ "Prefixed" ∷ []) s
    → (p : KadmPattern) × PatternNamed s p × (pattern_name p ≡ s)
pattern-decodes s (inl e) = (pattern_literal, inl (e, refl), sym e)
pattern-decodes s (inr (inl e)) = (pattern_prefixed, inr (e, refl), sym e)
pattern-decodes s (inr (inr x)) = elim x [ ]

kind-decodes :
    (s name : String)
    → IsOneOf ("Topic" ∷ "Group" ∷ "Cluster" ∷ "TransactionalId" ∷ []) s
    → (t : AclStep) × Targets s name t
      × (target t ≡ some (s, (if str_eq s "Cluster" then "" else name)))
kind-decodes s name (inl e) = (topics name, inl (e, refl), rw e refl)
kind-decodes s name (inr (inl e)) = (groups name, inr (inl (e, refl)), rw e refl)
kind-decodes s name (inr (inr (inl e))) = (clusters, inr (inr (inl (e, refl))), rw e refl)
kind-decodes s name (inr (inr (inr (inl e)))) =
    (transactional_ids name, inr (inr (inr (e, refl))), rw e refl)
kind-decodes s name (inr (inr (inr (inr x)))) = elim x [ ]

-- A string of a table's first column stands in it with an operation.
IsOneOf-Names :
    (table : List (String × KadmOperation)) (s : String)
    → IsOneOf (map (λ row. row.0) table) s
    → (o : KadmOperation) × Names table s o
IsOneOf-Names [] s n = absurd n
IsOneOf-Names ((t, p) ∷ table) s (inl e) = (p, inl (e, refl))
IsOneOf-Names ((t, p) ∷ table) s (inr n) =
    let rest = IsOneOf-Names table s n in (rest.0, inr rest.1)

operation-decodes :
    (s : String) (o : KadmOperation) → Names operation_names s o → operation_name o ≡ s
operation-decodes =
    AllRows-Names (λ s o. operation_name o ≡ s) operation_names
      (refl, (refl, (refl, (refl, (refl, (refl, (refl, (refl, (refl, (refl, (refl, tt)))))))))))

-- Where the enumerations of the CRD admit the strings of the spec, the builder that is sent to the
-- brokers can be read back to all that the spec says: permission, principal, host, pattern type,
-- kind and name of the resource, and operation, where a host that is not given is `*` and a cluster
-- has no name. So two ACLs that say different things are never sent as the same builder.
pub steps_of-decodes : (a : Acl) → IsAdmitted a → decode (steps_of a) ≡ some (said_by a)
steps_of-decodes a v =
    let g =
      permission-decodes a.spec.permission a.spec.principal
        (if str_eq a.spec.host "" then "*" else a.spec.host) v.permission in
    let p = pattern-decodes a.spec.resource.pattern_type v.pattern in
    let t = kind-decodes a.spec.resource.kind a.spec.resource.name v.kind in
    let o = IsOneOf-Names operation_names a.spec.operation v.operation in
    rw
      (
        steps_of-faithful a _ (g.0 ∷ g.1 ∷ []) p.0 t.0 o.0 (host-decodes a.spec.host) g.2 p.1 t.1
            o.1,
        g.3,
        t.2,
        p.2,
        operation-decodes a.spec.operation o.0 o.1,
      )
      refl
