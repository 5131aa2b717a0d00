-- ===== src/Examples/Users.antt =====
-- Users in the concrete outside.
use bufstream_operator.Prelude.{inl, arith, ◌≡◌, ◌↔◌, refl, [], ◌∷◌, none, some, ok, true, ⊤, List}
use bufstream_operator.Api.User.{User}
use bufstream_operator.Outside.{Call, Response, ScramDescription, Kind}
use bufstream_operator.Outside.Action.{◌>>=◌, on_error, pure, ask}
use bufstream_operator.Outside.Progress.{Returns}
use bufstream_operator.Bufstream.Client.{Client}
use bufstream_operator.Bufstream.User.{user_exists, delete_user_fault}
use bufstream_operator.Bufstream.User.Lookup.{Describes, user_exists-Describes}
use bufstream_operator.Controller.Helpers.{secret_entry}
use bufstream_operator.Bufstream.Responses.{
  AllResponses, NoneOrNotFound, delete_user_fault-NoneOrNotFound,
}
use bufstream_operator.Controller.Common.{name_of, after, requeued, requeue_healthy}
use bufstream_operator.Controller.Connections.{open_clients}
use bufstream_operator.Controller.User.Base.{user_finalizer, password_in, password_key}
use bufstream_operator.Controller.User.Apply.{reconcile_user, get_password}
use bufstream_operator.Controller.User.Remove.{reconcile_delete}
use bufstream_operator.Controller.User.Reconcile.{reconcile}
use bufstream_operator.Controller.User.Readiness.{ReportsInOrder, reconcile_user-ReportsInOrder}
use bufstream_operator.Controller.User.Finalizer.{RemovesInOrder, user_removal-RemovesInOrder}
use bufstream_operator.Controller.Repeats.{runs, replicate, calls}
use bufstream_operator.Controller.User.Rules.{IsSuccess}
use bufstream_operator.Controller.User.Store.{stored}
use bufstream_operator.Controller.User.Settles.{user-settles}
use bufstream_operator.Controller.User.Closes.{user_reconcile-closes}
use bufstream_operator.Controller.User.Converges.{Converged, reconcile_user-converges}
use bufstream_operator.Controller.User.Lifecycle.{IsUnsettled, adopted}
use bufstream_operator.Examples.World.{
  world, a_cluster, world-Working, world-conditions, world-finalizers, a_user, healthy,
}

abbrev new_user : User
new_user = a_user [] none 0 []

abbrev live_user : User
live_user = a_user (user_finalizer ∷ []) none 1 []

abbrev settled_user : User
settled_user = a_user (user_finalizer ∷ []) none 2 healthy

abbrev deleted_user : User
deleted_user = a_user (user_finalizer ∷ []) (some 5) 2 healthy

reconcile_user-ReportsInOrder_example :
    ReportsInOrder world live_user (reconcile_user world live_user []).1
reconcile_user-ReportsInOrder_example =
    reconcile_user-ReportsInOrder world live_user world-conditions

user_removal-RemovesInOrder_example :
    RemovesInOrder world deleted_user (reconcile_delete world deleted_user []).1
user_removal-RemovesInOrder_example = user_removal-RemovesInOrder world deleted_user

live_user-IsUnsettled : IsUnsettled world live_user
live_user-IsUnsettled = inl (ground arith)

password-Returns : Returns (get_password world live_user) (λ _. ⊤)
unfolding get_password password_in password_key secret_entry ◌>>=◌ on_error pure ask
password-Returns = record { at = λ tr. tt }

reconcile_user-converges_example :
    Converged world live_user
      (reconcile_user world live_user []).0
      (reconcile_user world live_user []).1
reconcile_user-converges_example =
    reconcile_user-converges world world-conditions a_cluster world-Working (λ _ _ _ _. (tt, tt))
      (λ _ _. refl) live_user password-Returns live_user-IsUnsettled []

new_user-IsUnsettled : IsUnsettled world new_user
new_user-IsUnsettled = inl (ground arith)

new_user-password : Returns (get_password world new_user) (λ _. ⊤)
unfolding get_password password_in password_key secret_entry ◌>>=◌ on_error pure ask
new_user-password = record { at = λ tr. tt }

user-settles_example :
    let step = reconcile world (name_of new_user.metadata) in
    let late = runs 7 step [] in
    (late.0 ≡ requeued ∷ replicate 6 (after requeue_healthy))
    × (late.1
        ≡ calls 5 (Call.fetched Kind.user_kind (name_of new_user.metadata)) (runs 2 step []).1)
    × IsSuccess world (adopted world new_user) (stored (name_of new_user.metadata) new_user late.1)
user-settles_example =
    user-settles world world-conditions world-finalizers a_cluster world-Working new_user
      (λ _ _ _ _. (tt, tt)) (λ _ _. refl) (λ _ _. refl) (λ _. refl) new_user-password refl refl
      new_user-IsUnsettled 5

user_reconcile-closes_example :
    open_clients (reconcile world (name_of live_user.metadata) []).1 ≡ open_clients []
user_reconcile-closes_example =
    user_reconcile-closes world world-conditions (name_of live_user.metadata) []

abbrev gone : Response
gone = record { name = "ada"; fault = some (record { code = 3; text = "RESOURCE_NOT_FOUND" }) }

delete_user_fault-NoneOrNotFound_example :
    (delete_user_fault (gone ∷ []) ≡ ok tt) ↔ AllResponses NoneOrNotFound (gone ∷ [])
delete_user_fault-NoneOrNotFound_example = delete_user_fault-NoneOrNotFound (gone ∷ [])

abbrev client : Client
client = record { admin_client = 1; kgo_client = 1 }

user_exists-Describes_example : ((user_exists world client "ada" []).0 ≡ ok true) ↔ (
    (rs : List ScramDescription) × (world.describe_user_scrams [] client.admin_client "ada" ≡ ok rs)
    × Describes "ada" rs)
user_exists-Describes_example = user_exists-Describes world client "ada" []
