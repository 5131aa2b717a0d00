-- ===== src/Bufstream/Acl/ResourceType.antt =====
-- internal/bufstream/acl.go: the int8 constants of ACLResourceType
use bufstream_operator.Prelude.{ℕ}

abbrev pub topic : ℕ
topic = 2

abbrev pub group : ℕ
group = 3

abbrev pub cluster : ℕ
cluster = 4

abbrev pub transactional_id : ℕ
transactional_id = 5
