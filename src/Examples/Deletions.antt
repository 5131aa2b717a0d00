-- ===== src/Examples/Deletions.antt =====
-- Resources that are being deleted, in an API server that forgets them once the finalizer is gone.
use bufstream_operator.Prelude.{
  ◌≡◌, refl, Bool, true, false, some, [], ◌∷◌, Result, ok, err, ⊤, inl, inr, if◌then◌else◌,
}
use bufstream_operator.Api.Meta.{Fault}
use bufstream_operator.Api.Topic.{Topic}
use bufstream_operator.Api.User.{User}
use bufstream_operator.Api.Acl.{Acl}
use bufstream_operator.Outside.{Outside, Call, Object, Kind, Trace}
use bufstream_operator.Outside.Action.{on_option, pure}
use bufstream_operator.Outside.Progress.{Returns, Some}
use bufstream_operator.Controller.Common.{done, name_of}
use bufstream_operator.Controller.Helpers.{is_cluster_ready, is_true, get_admin_credentials}
use bufstream_operator.Controller.Repeats.{runs, replicate, calls}
use bufstream_operator.Controller.Working.{Working}
use bufstream_operator.Controller.Topic.Base.{topic_finalizer}
use bufstream_operator.Controller.User.Base.{user_finalizer}
use bufstream_operator.Controller.Acl.Base.{acl_finalizer}
use bufstream_operator.Controller.Topic.Reconcile as TopicReconcile
use bufstream_operator.Controller.User.Reconcile as UserReconcile
use bufstream_operator.Controller.Acl.Reconcile as AclReconcile
use bufstream_operator.Controller.Topic.Leaves as TopicLeaves
use bufstream_operator.Controller.User.Leaves as UserLeaves
use bufstream_operator.Controller.Acl.Leaves as AclLeaves
use bufstream_operator.Examples.World.{
  world, world-Working, a_cluster, a_topic, a_user, an_acl, healthy,
}

abbrev gone : Fault
gone = record { code = 404; text = "not found" }

-- The object has been written.
abbrev is_written : Trace → Bool
is_written [] = false
is_written (Call.updated _ (ok _) ∷ tr) = true
is_written (_ ∷ tr) = is_written tr

abbrev served : {A : Type 0} → Trace → A → Result Fault A
served tr a = if is_written tr then err gone else ok a

written-updated :
    (x : Object) (tr : Trace) → Some (λ c. c ≡ Call.updated x (ok tt)) tr → is_written tr ≡ true
written-updated x [] h = absurd h
written-updated x (c ∷ tr) (inl e) = rw e refl
written-updated x (c ∷ tr) (inr s) = later c tr (written-updated x tr s)
  where
    later : (c : Call) (tr : Trace) → is_written tr ≡ true → is_written (c ∷ tr) ≡ true
    later (Call.updated _ (ok _)) tr h = refl
    later _ tr h = h

abbrev deleted_topic : Topic
deleted_topic = a_topic (topic_finalizer ∷ []) (some 5) 2 healthy

abbrev deleted_user : User
deleted_user = a_user (user_finalizer ∷ []) (some 5) 2 healthy

abbrev deleted_acl : Acl
deleted_acl = an_acl (acl_finalizer ∷ []) (some 5) 2 healthy

abbrev departing : Outside
departing = record world {
  get_topic = λ tr _. served tr deleted_topic;
  get_user = λ tr _. served tr deleted_user;
  get_acl = λ tr _. served tr deleted_acl;
}

departing-credentials : Returns (get_admin_credentials departing a_cluster) (λ _. ⊤)
unfolding get_admin_credentials on_option pure
departing-credentials = record { at = λ tr. tt }

departing-ready : is_cluster_ready departing a_cluster ≡ true
unfolding is_cluster_ready is_true
departing-ready = refl

departing-Working : Working departing a_cluster
departing-Working = record {
  fetched = world-Working.fetched;
  ready = departing-ready;
  credentials = departing-credentials;
  connects = world-Working.connects;
  answers = world-Working.answers;
}

topic-leaves_example :
    let step = TopicReconcile.reconcile departing (name_of deleted_topic.metadata) in
    let late = runs 4 step [] in
    (late.0 ≡ replicate 4 done)
    × (late.1 ≡ calls 3 (Call.fetched Kind.topic_kind (name_of deleted_topic.metadata)) (step []).1)
    × TopicLeaves.Freed departing deleted_topic (step []).1
topic-leaves_example =
    TopicLeaves.topic-leaves departing a_cluster departing-Working deleted_topic (λ _ _ _. (tt, tt))
      (λ _. refl) (name_of deleted_topic.metadata) gone refl refl
      (λ tr freed. rw (written-updated _ tr freed) refl) refl refl 3

user-leaves_example :
    let step = UserReconcile.reconcile departing (name_of deleted_user.metadata) in
    let late = runs 4 step [] in
    (late.0 ≡ replicate 4 done)
    × (late.1 ≡ calls 3 (Call.fetched Kind.user_kind (name_of deleted_user.metadata)) (step []).1)
    × UserLeaves.Freed departing deleted_user (step []).1
user-leaves_example =
    UserLeaves.user-leaves departing a_cluster departing-Working deleted_user (λ _ _ _ _. (tt, tt))
      (λ _. refl) (name_of deleted_user.metadata) gone refl refl
      (λ tr freed. rw (written-updated _ tr freed) refl) refl refl 3

acl-leaves_example :
    let step = AclReconcile.reconcile departing (name_of deleted_acl.metadata) in
    let late = runs 4 step [] in
    (late.0 ≡ replicate 4 done)
    × (late.1 ≡ calls 3 (Call.fetched Kind.acl_kind (name_of deleted_acl.metadata)) (step []).1)
    × AclLeaves.Freed departing deleted_acl (step []).1
acl-leaves_example =
    AclLeaves.acl-leaves departing a_cluster departing-Working deleted_acl (λ _ _ _. (tt, tt))
      (λ _. refl) (name_of deleted_acl.metadata) gone refl refl
      (λ tr freed. rw (written-updated _ tr freed) refl) refl refl 3
