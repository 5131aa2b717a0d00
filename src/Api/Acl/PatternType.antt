-- ===== src/Api/Acl/PatternType.antt =====
-- api/v1alpha1/acl_types.go: the constants of ACLPatternType
use bufstream_operator.Prelude.{String}

abbrev pub literal : String
literal = "Literal"

abbrev pub prefixed : String
prefixed = "Prefixed"
