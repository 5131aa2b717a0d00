-- ===== src/Examples/World.antt =====
-- A concrete outside: one ready cluster, no topics, brokers that accept what is asked, and the
-- helper functions of apimachinery and controller-runtime as lists.
use bufstream_operator.Prelude.{
  ℕ, String, ◌≡◌, ◌≢◌, refl, Bool, true, false, ⊤, Option, none, some, List, [], ◌∷◌, ok, arith,
  eq_iff, str_eq, ◌==◌, if◌then◌else◌,
}
use bufstream_operator.Prelude.Int.{pos}
use bufstream_operator.Api.Meta.{
  ObjectMeta, Time, Condition, condition_true, condition_false, plain,
}
use bufstream_operator.Api.Cluster.{Cluster}
use bufstream_operator.Api.Topic.{Topic}
use bufstream_operator.Api.User.{User, scram_sha256}
use bufstream_operator.Api.Acl.{Acl}
use bufstream_operator.Outside.{Outside}
use bufstream_operator.Outside.Action.{on_option, pure}
use bufstream_operator.Outside.Progress.{Returns}
use bufstream_operator.Controller.Topic.Store as TopicStore
use bufstream_operator.Controller.User.Store as UserStore
use bufstream_operator.Controller.Acl.Store as AclStore
use bufstream_operator.Controller.Helpers.{is_cluster_ready, is_true, get_admin_credentials}
use bufstream_operator.Controller.Working.{Working}
use bufstream_operator.Outside.Laws.{Agrees, ConditionLaws, FinalizerLaws}

-- Whether a time is the zero time.
abbrev pub no_time : Option Time → Bool
no_time none = true
no_time (some _) = false

abbrev pub holds : List String → String → Bool
holds [] f = false
holds (g ∷ gs) f = let rest = holds gs f in if str_eq g f then true else rest

abbrev pub add : List String → String → List String
add fs f = if holds fs f then fs else f ∷ fs

abbrev pub remove : List String → String → List String
remove [] f = []
remove (g ∷ gs) f = let rest = remove gs f in if str_eq g f then rest else g ∷ rest

abbrev pub find : List Condition → String → Option Condition
find [] kind = none
find (c ∷ cs) kind = let rest = find cs kind in if str_eq c.kind kind then some c else rest

abbrev pub set : List Condition → Condition → List Condition
set [] c = c ∷ []
set (d ∷ ds) c = let rest = set ds c in if str_eq d.kind c.kind then c ∷ ds else d ∷ rest

abbrev pub meta : String → List String → Option Time → ObjectMeta
meta name finalizers deleted = record {
  name = name;
  namespace = "default";
  generation = 2;
  deletion_timestamp = deleted;
  finalizers = finalizers;
}

abbrev pub condition : String → String → Condition
condition kind status = record {
  kind = kind;
  status = status;
  reason = "Set";
  message = plain "set";
  observed_generation = 2;
  last_transition_time = 7;
}

-- The conditions of a resource that is in order.
abbrev pub healthy : List Condition
healthy =
    condition "Ready" condition_true
    ∷ condition "Degraded" condition_false
    ∷ condition "Progressing" condition_false
    ∷ []

abbrev pub a_cluster : Cluster
a_cluster = record {
  metadata = meta "main" [] none;
  spec = record { bootstrap_servers = "localhost:9092"; admin_credentials_ref = none };
  status = record { observed_generation = 2; conditions = healthy };
}

-- A topic with the given finalizers, time of deletion, observed generation and conditions.
abbrev pub a_topic : List String → Option Time → ℕ → List Condition → Topic
a_topic finalizers deleted observed conditions = record {
  metadata = meta "orders" finalizers deleted;
  spec = record {
    topic_name = "";
    partitions = pos 3;
    replication_factor = pos 1;
    config = ("retention.ms", "1000") ∷ [];
    cluster = "main";
    assume_ownership = false;
  };
  status = record {
    observed_generation = observed;
    topic_name = "orders";
    partitions = pos 3;
    replication_factor = pos 1;
    conditions = conditions;
  };
}

abbrev pub a_user : List String → Option Time → ℕ → List Condition → User
a_user finalizers deleted observed conditions = record {
  metadata = meta "ada" finalizers deleted;
  spec = record {
    cluster = "main";
    username = "";
    mechanism = scram_sha256;
    secret_ref = record { name = "ada-password"; key = "password" };
    iterations = pos 4096;
  };
  status = record {
    observed_generation = observed;
    username = "ada";
    mechanism = scram_sha256;
    conditions = conditions;
  };
}

abbrev pub an_acl : List String → Option Time → ℕ → List Condition → Acl
an_acl finalizers deleted observed conditions = record {
  metadata = meta "ada-reads" finalizers deleted;
  spec = record {
    cluster = "main";
    principal = "User:ada";
    resource = record { kind = "Topic"; name = "orders"; pattern_type = "Prefixed" };
    permission = "Allow";
    operation = "Read";
    host = "";
  };
  status = record { observed_generation = observed; conditions = conditions };
}

abbrev pub world : Outside
world = record {
  is_not_found = λ e. e.code == 404;
  is_zero = no_time;
  contains_finalizer = holds;
  add_finalizer = add;
  remove_finalizer = remove;
  find_status_condition = find;
  set_status_condition = set;
  get_cluster = λ _ _. ok a_cluster;
  get_topic = λ tr n. ok (TopicStore.stored n (a_topic [] none 0 []) tr);
  get_user = λ tr n. ok (UserStore.stored n (a_user [] none 0 []) tr);
  get_acl = λ tr n. ok (AclStore.stored n (an_acl [] none 0 []) tr);
  get_secret = λ _ _. ok (("username", "admin") ∷ ("password", "secret") ∷ []);
  update = λ _ _. ok tt;
  update_status = λ _ _. ok tt;
  now = λ _. 9;
  getenv = λ _ _. "";
  new_kgo_client = λ _ _. ok 1;
  ping = λ _ _ _. ok tt;
  list_topics = λ _ _ _. ok [];
  create_topics = λ _ _ _ _ _ name. ok (record { name = name; fault = none } ∷ []);
  create_partitions = λ _ _ _ name. ok (record { name = name; fault = none } ∷ []);
  alter_topic_configs = λ _ _ _ name. ok (record { name = name; fault = none } ∷ []);
  delete_topics = λ _ _ name. ok (record { name = name; fault = none } ∷ []);
  alter_user_scrams = λ _ _ _ _. ok (record { name = "ada"; fault = none } ∷ []);
  describe_user_scrams = λ _ _ _. ok [];
  create_acls = λ _ _ _. ok (none ∷ []);
  delete_acls = λ _ _ _. ok (none ∷ []);
  describe_acls = λ _ _ _. ok [];
}

Agrees-refl : (c : Condition) → Agrees c c
Agrees-refl c = record {
  kind = refl;
  status = refl;
  reason = refl;
  message = refl;
  generation = refl;
}

find-set_self : (cs : List Condition) (c : Condition) → find (set cs c) c.kind ≡ some c
find-set_self [] c = ground (arith, eq_iff c.kind c.kind)
find-set_self (d ∷ ds) c =
    let rest = find-set_self ds c in
    ground (arith, eq_iff c.kind c.kind, eq_iff d.kind c.kind, rest)

find-set_ne :
    (cs : List Condition) (c : Condition) (kind : String)
    → kind ≢ c.kind
    → find (set cs c) kind ≡ find cs kind
find-set_ne [] c kind ne = ground (arith, eq_iff c.kind kind, ne)
find-set_ne (d ∷ ds) c kind ne =
    let rest = find-set_ne ds c kind ne in
    ground (arith, eq_iff c.kind kind, eq_iff d.kind c.kind, eq_iff d.kind kind, ne, rest)

pub world-conditions : ConditionLaws world
world-conditions = record {
  find-set_self = λ cs c. (c, find-set_self cs c, Agrees-refl c);
  find-set_ne = find-set_ne;
}

holds-add : (fs : List String) (f : String) → holds (add fs f) f ≡ true
holds-add fs f = ground (arith, eq_iff f f)

holds-remove : (fs : List String) (f : String) → holds (remove fs f) f ≡ false
holds-remove [] f = refl
holds-remove (g ∷ gs) f = let rest = holds-remove gs f in ground (arith, eq_iff g f, rest)

pub world-finalizers : FinalizerLaws world
world-finalizers = record { contains-add = holds-add; contains-remove = holds-remove }

cluster-ready : is_cluster_ready world a_cluster ≡ true
unfolding is_cluster_ready is_true
cluster-ready = refl

world-credentials : Returns (get_admin_credentials world a_cluster) (λ _. ⊤)
unfolding get_admin_credentials on_option pure
world-credentials = record { at = λ tr. tt }

pub world-Working : Working world a_cluster
world-Working = record {
  fetched = λ _ _. refl;
  ready = cluster-ready;
  credentials = world-credentials;
  connects = λ _ _. tt;
  answers = λ _ _ _. tt;
}
