-- ===== src/Controller/User/Leaves.antt =====
-- The end of a user, where nothing fails: what it stands for is deleted, the finalizer is
-- removed, and then there is nothing left to reconcile.
use bufstream_operator.Prelude.{ℕ, suc, ◌≡◌, refl, true, false, List, [], ◌∷◌, ok, err, inr}
use bufstream_operator.Api.Meta.{NamespacedName, Fault}
use bufstream_operator.Api.Cluster.{Cluster}
use bufstream_operator.Api.User.{User}
use bufstream_operator.Outside.{
  Outside, Call, Object, Kind, Trace, Handle, DeleteScram, UpsertScram,
}
use bufstream_operator.Outside.Action.{◌>>=◌, on_error, pure, ask}
use bufstream_operator.Outside.Progress.{IsOk, Some}
use bufstream_operator.Bufstream.Responses.{AllResponses, NoneOrNotFound}
use bufstream_operator.Controller.Common.{done}
use bufstream_operator.Controller.Repeats.{runs, replicate, calls, runs-rest}
use bufstream_operator.Controller.Working.{Working}
use bufstream_operator.Controller.User.Base.{user_finalizer}
use bufstream_operator.Controller.User.Remove.{reconcile_delete}
use bufstream_operator.Controller.User.Removal.{released}
use bufstream_operator.Controller.User.Reconcile.{reconcile_fetched, reconcile}
use bufstream_operator.Controller.User.Completes.{Released, user_removal-completes}

abbrev fetch : NamespacedName → Call
fetch n = Call.fetched Kind.user_kind n

-- The object has been written without the finalizer.
abbrev pub Freed : Outside → User → Trace → Type 0
Freed out x tr = Some (λ c. c ≡ Call.updated (Object.user (released out x)) (ok tt)) tr

module _ (out : Outside) (cluster : Cluster) (w : Working out cluster) (x : User)
    (deletes : (tr : Trace) (h : Handle) (ds : List DeleteScram) (us : List UpsertScram)
      → IsOk (AllResponses NoneOrNotFound) (out.alter_user_scrams tr h ds us))
    (updates : (tr : Trace) → out.update tr (Object.user (released out x)) ≡ ok tt)
    (n : NamespacedName) (gone : Fault) (not_found : out.is_not_found gone ≡ true)
    (serves : out.get_user [] n ≡ ok x)
    (forgets : (tr : Trace) → Freed out x tr → out.get_user tr n ≡ err gone) where
  rests : (tr : Trace) → Freed out x tr → reconcile out n tr ≡ (done, fetch n ∷ tr)
  unfolding reconcile ◌>>=◌ on_error ask pure
  rests tr freed = rw (forgets tr freed, not_found) refl

  module _ (deleted : out.is_zero x.metadata.deletion_timestamp ≡ false)
      (owned : out.contains_finalizer x.metadata.finalizers user_finalizer ≡ true) where
    reconcile-first : reconcile out n [] ≡ reconcile_delete out x (fetch n ∷ [])
    unfolding reconcile reconcile_fetched ◌>>=◌ on_error ask
    reconcile-first = rw (serves, deleted) refl

    first-Released : Released out x (reconcile out n []).0 (reconcile out n []).1
    first-Released =
        rw reconcile-first
          (user_removal-completes out cluster w x deletes updates owned (fetch n ∷ []))

    -- A user that is being deleted and has the finalizer, in an API server that serves it, accepts
    -- the write that removes the finalizer and serves nothing of this name from then on; its
    -- cluster is ready, the credentials can be read, and the brokers accept the connection and
    -- answer the deletion of the credentials without an error, or with errors whose text is exactly
    -- RESOURCE_NOT_FOUND. From an empty history, each of any number of reconciles of its name, at
    -- least one, returns with nothing left to do; the first one writes the object without the
    -- finalizer, and the later ones make no call but the fetch of the user.
    pub user-leaves :
        (k : ℕ)
        → let late = runs (suc k) (reconcile out n) [] in
          (late.0 ≡ replicate (suc k) done)
          × (late.1 ≡ calls k (fetch n) (reconcile out n []).1)
          × Freed out x (reconcile out n []).1
    user-leaves k =
        let later =
          runs-rest (reconcile out n) done (fetch n) (Freed out x) rests (λ tr h. inr h) k
            (reconcile out n []).1 first-Released.1 in
        rw (later.0, first-Released.0) (refl, refl, first-Released.1)
