-- ===== src/Controller/Acl/Faithful.antt =====
-- The two translations of an ACL, `toACLConfig` and `buildACL`, taken together.
use text.Mathlib.TextEquality.{eq_iff}
use bufstream_operator.Prelude.{◌≡◌, ◌≢◌, refl, arith, String, ◌⊎◌, inl, inr, List, [], ◌∷◌, ◌++◌}
use bufstream_operator.Api.Acl.{Acl}
use bufstream_operator.Outside.{
  KadmOperation, op_all, op_read, op_write, op_create, op_delete, op_alter, op_describe,
  op_cluster_action, op_describe_configs, op_alter_configs, op_idempotent_write, AclStep, allow,
  allow_hosts, deny, deny_hosts, resource_pattern_type, topics, groups, clusters, transactional_ids,
  operations, KadmPattern, pattern_literal, pattern_prefixed,
}
use bufstream_operator.Bufstream.Acl.{
  AclConfig, default_host, kadm_operation, build_acl, pattern_step, resource_step, permission_steps,
}
use bufstream_operator.Controller.Acl.Config.{
  operation, resource_pattern, resource_type, permission, to_acl_config,
}
use bufstream_operator.Controller.Acl.Rules.{steps_of}

-- The Kafka operation that each string of the CRD's enumeration names.
abbrev pub operation_names : List (String × KadmOperation)
operation_names =
    ("Read", op_read)
    ∷ ("Write", op_write)
    ∷ ("Create", op_create)
    ∷ ("Delete", op_delete)
    ∷ ("Alter", op_alter)
    ∷ ("Describe", op_describe)
    ∷ ("ClusterAction", op_cluster_action)
    ∷ ("DescribeConfigs", op_describe_configs)
    ∷ ("AlterConfigs", op_alter_configs)
    ∷ ("IdempotentWrite", op_idempotent_write)
    ∷ ("All", op_all)
    ∷ []

-- `(s, o)` stands in the table.
abbrev pub Names : List (String × KadmOperation) → String → KadmOperation → Type 0
Names [] s o = ⊥
Names ((t, p) ∷ table) s o = ((s ≡ t) × (o ≡ p)) ⊎ Names table s o

-- A relation that holds for each row of a table holds for what stands in it.
abbrev pub AllRows : (String → KadmOperation → Type 0) → List (String × KadmOperation) → Type 0
AllRows Q [] = Unit
AllRows Q ((s, o) ∷ table) = Q s o × AllRows Q table

pub AllRows-Names :
    (Q : String → KadmOperation → Type 0) (table : List (String × KadmOperation))
    → AllRows Q table
    → (s : String) (o : KadmOperation) → Names table s o
    → Q s o
AllRows-Names Q [] rows s o n = absurd n
AllRows-Names Q ((t, p) ∷ table) (q, rest) s o (inl (e, f)) = rw (e, f) q
AllRows-Names Q ((t, p) ∷ table) (q, rest) s o (inr n) = AllRows-Names Q table rest s o n

kadm_operation-Names :
    (s : String) (o : KadmOperation) → Names operation_names s o → kadm_operation (operation s) ≡ o
unfolding kadm_operation operation
kadm_operation-Names =
    AllRows-Names (λ s o. kadm_operation (operation s) ≡ o) operation_names
      (refl, (refl, (refl, (refl, (refl, (refl, (refl, (refl, (refl, (refl, (refl, tt)))))))))))

-- The two settings of the pattern type.
abbrev pub PatternNamed : String → KadmPattern → Type 0
PatternNamed s p =
    ((s ≡ "Literal") × (p ≡ pattern_literal)) ⊎ ((s ≡ "Prefixed") × (p ≡ pattern_prefixed))

-- The four types of resource; a cluster has no name.
abbrev pub Targets : String → String → AclStep → Type 0
Targets kind name step =
    ((kind ≡ "Topic") × (step ≡ topics name))
    ⊎ (((kind ≡ "Group") × (step ≡ groups name))
        ⊎ (((kind ≡ "Cluster") × (step ≡ clusters))
            ⊎ ((kind ≡ "TransactionalId") × (step ≡ transactional_ids name))))

-- The host that a spec asks for: the one that it gives, and `*`, which stands for every host, where
-- it gives none.
abbrev pub HostNamed : String → String → Type 0
HostNamed s host = ((s ≡ "") × (host ≡ "*")) ⊎ ((s ≢ "") × (host ≡ s))

default_host-HostNamed : (s host : String) → HostNamed s host → default_host s ≡ host
unfolding default_host
default_host-HostNamed s host (inl (e, f)) = rw (e, f) refl
default_host-HostNamed s host (inr (n, f)) = ground (arith, eq_iff s "", n, f)

-- The permission, for a principal and a host.
abbrev pub Grants : String → String → String → List AclStep → Type 0
Grants permission principal host steps =
    ((permission ≡ "Allow") × (steps ≡ allow principal ∷ allow_hosts host ∷ []))
    ⊎ ((permission ≡ "Deny") × (steps ≡ deny principal ∷ deny_hosts host ∷ []))

pattern_step-named :
    (c : AclConfig) (s : String) (p : KadmPattern)
    → c.resource_pattern ≡ resource_pattern s
    → PatternNamed s p
    → pattern_step c ≡ resource_pattern_type p
unfolding pattern_step resource_pattern
pattern_step-named c s p r (inl (e, f)) = rw (r, e, f) refl
pattern_step-named c s p r (inr (e, f)) = rw (r, e, f) refl

resource_step-Targets :
    (c : AclConfig) (s : String) (step : AclStep)
    → c.resource_type ≡ resource_type s
    → Targets s c.resource_name step
    → resource_step c ≡ step
unfolding resource_step resource_type
resource_step-Targets c s step r (inl (e, f)) = rw (r, e, f) refl
resource_step-Targets c s step r (inr (inl (e, f))) = rw (r, e, f) refl
resource_step-Targets c s step r (inr (inr (inl (e, f)))) = rw (r, e, f) refl
resource_step-Targets c s step r (inr (inr (inr (e, f)))) = rw (r, e, f) refl

permission_steps-Grants :
    (c : AclConfig) (s host : String) (steps : List AclStep)
    → c.permission ≡ permission s
    → Grants s c.principal host steps
    → permission_steps c host ≡ steps
unfolding permission_steps permission
permission_steps-Grants c s host steps r (inl (e, f)) = rw (r, e, f) refl
permission_steps-Grants c s host steps r (inr (e, f)) = rw (r, e, f) refl

-- For each setting that the CRD admits, the builder that is sent to the brokers, to create and to
-- delete the ACL, holds the permission, the principal and the host (`*` where none is given), the
-- pattern type, the resource and the operation that the strings of the spec name.
pub steps_of-faithful :
    (a : Acl) (host : String) (grant : List AclStep) (pattern : KadmPattern) (target : AclStep)
    (o : KadmOperation)
    → HostNamed a.spec.host host
    → Grants a.spec.permission a.spec.principal host grant
    → PatternNamed a.spec.resource.pattern_type pattern
    → Targets a.spec.resource.kind a.spec.resource.name target
    → Names operation_names a.spec.operation o
    → steps_of a ≡ grant ++ (resource_pattern_type pattern ∷ target ∷ operations o ∷ [])
unfolding build_acl to_acl_config
steps_of-faithful a host grant pattern target o h g p t n =
    rw
      (
        default_host-HostNamed a.spec.host host h,
        permission_steps-Grants (to_acl_config a) _ _ grant refl g,
        pattern_step-named (to_acl_config a) _ pattern refl p,
        resource_step-Targets (to_acl_config a) _ target refl t,
        kadm_operation-Names _ o n,
      )
      refl
