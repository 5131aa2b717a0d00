-- ===== src/Api/Acl/Permission.antt =====
-- api/v1alpha1/acl_types.go: the constants of ACLPermission
use bufstream_operator.Prelude.{String}

abbrev pub allow : String
allow = "Allow"

abbrev pub deny : String
deny = "Deny"
