-- ===== src/Bufstream/Acl/PatternType.antt =====
-- internal/bufstream/acl.go: the int8 constants of ACLPatternType
use bufstream_operator.Prelude.{ℕ}

abbrev pub literal : ℕ
literal = 3

abbrev pub prefixed : ℕ
prefixed = 4
