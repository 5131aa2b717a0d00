-- ===== src/Examples/Refusals.antt =====
-- Resources that are being deleted, under brokers that have nothing of them left and say so in the
-- words of the Kafka clients: the name of the code, and a description.
use bufstream_operator.Prelude.{◌≢◌, refl, some, [], ◌∷◌, ok, inl, arith, eq_iff}
use bufstream_operator.Api.Meta.{Fault}
use bufstream_operator.Api.Topic.{Topic}
use bufstream_operator.Api.User.{User}
use bufstream_operator.Api.Acl.{Acl}
use bufstream_operator.Outside.{Outside}
use bufstream_operator.Controller.Common.{name_of}
use bufstream_operator.Controller.Repeats.{runs}
use bufstream_operator.Controller.Stuck.{Unwritten, AllComeBack}
use bufstream_operator.Controller.Topic.Base.{topic_finalizer}
use bufstream_operator.Controller.User.Base.{user_finalizer}
use bufstream_operator.Controller.Acl.Base.{acl_finalizer}
use bufstream_operator.Controller.Topic.Reconcile as TopicReconcile
use bufstream_operator.Controller.User.Reconcile as UserReconcile
use bufstream_operator.Controller.Acl.Reconcile as AclReconcile
use bufstream_operator.Controller.Topic.Held.{topic-held}
use bufstream_operator.Controller.User.Held.{user-held}
use bufstream_operator.Controller.Acl.Held.{acl-held}
use bufstream_operator.Examples.World.{world, a_topic, a_user, an_acl, healthy}

abbrev leaving_topic : Topic
leaving_topic = a_topic (topic_finalizer ∷ []) (some 5) 2 healthy

abbrev leaving_user : User
leaving_user = a_user (user_finalizer ∷ []) (some 5) 2 healthy

abbrev leaving_acl : Acl
leaving_acl = an_acl (acl_finalizer ∷ []) (some 5) 2 healthy

abbrev no_topic : Fault
no_topic = record {
  code = 3;
  text = "UNKNOWN_TOPIC_OR_PARTITION: This server does not host this topic-partition.";
}

abbrev not_found : Fault
not_found = record {
  code = 91;
  text = "RESOURCE_NOT_FOUND: A request illegally referred to a resource that does not exist.";
}

abbrev refusing : Outside
refusing = record world {
  get_topic = λ _ _. ok leaving_topic;
  get_user = λ _ _. ok leaving_user;
  get_acl = λ _ _. ok leaving_acl;
  delete_topics = λ _ _ name. ok (record { name = name; fault = some no_topic } ∷ []);
  alter_user_scrams = λ _ _ _ _. ok (record { name = "ada"; fault = some not_found } ∷ []);
  delete_acls = λ _ _ _. ok (some not_found ∷ []);
}

no_topic-text : ◌≢◌ no_topic.text "UNKNOWN_TOPIC_OR_PARTITION"
no_topic-text e = absurd (ground (arith, eq_iff no_topic.text "UNKNOWN_TOPIC_OR_PARTITION", e))

no_topic-code : ◌≢◌ no_topic.text "UNKNOWN_TOPIC"
no_topic-code e = absurd (ground (arith, eq_iff no_topic.text "UNKNOWN_TOPIC", e))

not_found-text : ◌≢◌ not_found.text "RESOURCE_NOT_FOUND"
not_found-text e = absurd (ground (arith, eq_iff not_found.text "RESOURCE_NOT_FOUND", e))

topic-held_example :
    let late = runs 4 (TopicReconcile.reconcile refusing (name_of leaving_topic.metadata)) [] in
    AllComeBack late.0 × Unwritten late.1
topic-held_example =
    topic-held refusing leaving_topic (λ _ _ _ _. inl (no_topic-text, no_topic-code)) refl
      (name_of leaving_topic.metadata) refl (λ _ _. refl) 4

user-held_example :
    let late = runs 4 (UserReconcile.reconcile refusing (name_of leaving_user.metadata)) [] in
    AllComeBack late.0 × Unwritten late.1
user-held_example =
    user-held refusing leaving_user (λ _ _ _ _. inl not_found-text) refl
      (name_of leaving_user.metadata) refl (λ _ _. refl) 4

acl-held_example :
    let late = runs 4 (AclReconcile.reconcile refusing (name_of leaving_acl.metadata)) [] in
    AllComeBack late.0 × Unwritten late.1
acl-held_example =
    acl-held refusing leaving_acl (λ _ _. inl not_found-text) refl (name_of leaving_acl.metadata)
      refl (λ _ _. refl) 4
