-- ===== src/Bufstream/Acl/Permission.antt =====
-- internal/bufstream/acl.go: the int8 constants of ACLPermission
use bufstream_operator.Prelude.{ℕ}

abbrev pub deny : ℕ
deny = 2

abbrev pub allow : ℕ
allow = 3
