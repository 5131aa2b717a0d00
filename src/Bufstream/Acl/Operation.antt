-- ===== src/Bufstream/Acl/Operation.antt =====
-- internal/bufstream/acl.go: the int8 constants of ACLOperation
use bufstream_operator.Prelude.{ℕ}

abbrev pub all : ℕ
all = 1

abbrev pub read : ℕ
read = 2

abbrev pub write : ℕ
write = 3

abbrev pub create : ℕ
create = 4

abbrev pub delete : ℕ
delete = 5

abbrev pub alter : ℕ
alter = 6

abbrev pub describe : ℕ
describe = 7

abbrev pub cluster_action : ℕ
cluster_action = 8

abbrev pub describe_configs : ℕ
describe_configs = 9

abbrev pub alter_configs : ℕ
alter_configs = 10

abbrev pub idempotent_write : ℕ
idempotent_write = 11
