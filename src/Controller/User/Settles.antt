-- ===== src/Controller/User/Settles.antt =====
-- The life of a user from its creation on, where nobody but the controller writes it and nothing
-- fails: it is adopted, its credentials are set, and then left alone.
use bufstream_operator.Prelude.{ℕ, suc, ◌≡◌, refl, sym, ap, ◌∙◌, true, false, List, [], ◌∷◌, ⊤, ok}
use bufstream_operator.Api.Meta.{NamespacedName}
use bufstream_operator.Api.Cluster.{Cluster}
use bufstream_operator.Api.User.{User}
use bufstream_operator.Outside.{
  Outside, Call, Object, Kind, Trace, Handle, DeleteScram, UpsertScram,
}
use bufstream_operator.Outside.Action.{◌>>=◌, on_error, pure, ask}
use bufstream_operator.Outside.Laws.{FinalizerLaws, ConditionLaws}
use bufstream_operator.Outside.Progress.{IsOk, Wrote, Returns}
use bufstream_operator.Bufstream.Responses.{AllResponses, NoFault}
use bufstream_operator.Controller.User.Apply.{get_password, reconcile_user}
use bufstream_operator.Controller.User.Base.{password_in, password_key, user_finalizer}
use bufstream_operator.Controller.Common.{after, requeued, requeue_healthy, name_of}
use bufstream_operator.Controller.Repeats.{
  runs, replicate, calls, is_named, is_named_self, runs-rest,
}
use bufstream_operator.Controller.Working.{Working}
use bufstream_operator.Controller.User.Reconcile.{adopt, reconcile_fetched, reconcile}
use bufstream_operator.Controller.User.Rules.{IsSuccess}
use bufstream_operator.Controller.User.Store.{stored, reconcile_user-Same, stored-Wrote}
use bufstream_operator.Controller.User.Lifecycle.{IsUnsettled, adopted, reconcile_user-settled}
use bufstream_operator.Controller.User.Converges.{reconcile_user-converges}

abbrev fetch : NamespacedName → Call
fetch n = Call.fetched Kind.user_kind n

module _ (out : Outside) (n : NamespacedName) (t : User)
    (serves : (tr : Trace) → out.get_user tr n ≡ ok (stored n t tr)) where
  -- A reconcile starts with what the API server keeps.
  reconcile-stored :
      (tr : Trace) → reconcile out n tr ≡ reconcile_fetched out (stored n t tr) (fetch n ∷ tr)
  unfolding reconcile ◌>>=◌ on_error ask
  reconcile-stored tr = rw (serves tr) refl

  module _ (x : User) (live : out.is_zero x.metadata.deletion_timestamp ≡ true)
      (owned : out.contains_finalizer x.metadata.finalizers user_finalizer ≡ true) where
    -- A stored user with the finalizer goes through `reconcileUser`.
    fetched-live :
        (y : User) (tr : Trace)
        → y.metadata ≡ x.metadata
        → reconcile_fetched out y tr ≡ reconcile_user out y tr
    unfolding reconcile_fetched
    fetched-live y tr e = rw (e, live, owned) refl

    abbrev Done : Trace → Type 0
    Done tr = IsSuccess out x (stored n t tr)

    -- Once success is stored, a reconcile only fetches the user.
    rests : (tr : Trace) → Done tr → reconcile out n tr ≡ (after requeue_healthy, fetch n ∷ tr)
    rests tr d =
        reconcile-stored tr
        ∙ fetched-live (stored n t tr) _ d.metadata
        ∙ reconcile_user-settled out (stored n t tr) _
            (d.generation ∙ ap (λ m. m.generation) (sym d.metadata)) d.conditions

    -- What the reconcile stored last is what is stored then.
    stored-Done :
        (x' : User) (tr : Trace)
        → is_named n x.metadata ≡ true
        → ConditionLaws out
        → IsSuccess out x x'
        → ((stored n t tr).metadata ≡ x.metadata) × ((stored n t tr).spec ≡ x.spec)
        → Wrote (Object.user x') tr
        → Done tr
    stored-Done x' tr named laws success same wrote =
        let status =
          stored-Wrote n t x' tr (ap (λ m. is_named n m) success.metadata ∙ named) wrote in
        record {
          metadata = same.0;
          spec = same.1;
          conditions = rw status success.conditions;
          generation = rw status success.generation;
          username = rw status success.username;
        }

module _ (out : Outside) (t : User) (new : out.is_zero t.metadata.deletion_timestamp ≡ true)
    (unowned : out.contains_finalizer t.metadata.finalizers user_finalizer ≡ false)
    (updates : (tr : Trace) (x : Object) → out.update tr x ≡ ok tt) where
  adopts :
      (tr : Trace)
      → reconcile_fetched out t tr
        ≡ (requeued, Call.updated (Object.user (adopted out t)) (ok tt) ∷ tr)
  unfolding reconcile_fetched adopt ◌>>=◌ on_error pure ask
  adopts tr = rw (new, unowned, updates tr (Object.user (adopted out t))) refl

stored-adopted :
    (out : Outside) (t : User)
    → let n = name_of t.metadata in
      stored n t (Call.updated (Object.user (adopted out t)) (ok tt) ∷ fetch n ∷ []) ≡ adopted out t
stored-adopted out t = rw (is_named_self t.metadata) refl

secret-adopted :
    (out : Outside) (t : User)
    → Returns (get_password out t) (λ _. ⊤)
    → Returns (get_password out (adopted out t)) (λ _. ⊤)
unfolding get_password password_in password_key
secret-adopted out t h = h

module _ (out : Outside) (conditions : ConditionLaws out) (finalizers : FinalizerLaws out)
    (cluster : Cluster) (w : Working out cluster) (t : User)
    (alters : (tr : Trace) (h : Handle) (ds : List DeleteScram) (us : List UpsertScram)
      → IsOk (AllResponses NoFault) (out.alter_user_scrams tr h ds us))
    (stores : (tr : Trace) (x : Object) → out.update_status tr x ≡ ok tt)
    (updates : (tr : Trace) (x : Object) → out.update tr x ≡ ok tt)
    (serves : (tr : Trace)
      → out.get_user tr (name_of t.metadata) ≡ ok (stored (name_of t.metadata) t tr)) where
  -- A new user that nobody but the controller writes: it is not being deleted, has no finalizer
  -- and is not settled; its cluster is ready, the admin credentials and the password can be read,
  -- the brokers accept the connection and set the credentials, and the API server accepts every
  -- write and serves what was written. From an empty history, of any number of reconciles of its
  -- name, at least two, the first one asks to come back at once, and all later ones return without
  -- an error and come back after five minutes; those after the second one make no call but the
  -- fetch of the user; and what the API server keeps reports success of the user with the
  -- finalizer. Under the documented laws of AddFinalizer and SetStatusCondition.
  pub user-settles :
      Returns (get_password out t) (λ _. ⊤)
      → out.is_zero t.metadata.deletion_timestamp ≡ true
      → out.contains_finalizer t.metadata.finalizers user_finalizer ≡ false
      → IsUnsettled out t
      → (k : ℕ)
      → let step = reconcile out (name_of t.metadata) in
        let late = runs (suc (suc k)) step [] in
        (late.0 ≡ requeued ∷ replicate (suc k) (after requeue_healthy))
        × (late.1 ≡ calls k (fetch (name_of t.metadata)) (runs 2 step []).1)
        × IsSuccess out (adopted out t) (stored (name_of t.metadata) t late.1)
  user-settles secret new unowned unsettled k =
      let n = name_of t.metadata in
      let x = adopted out t in
      let tr₁ : Trace = Call.updated (Object.user x) (ok tt) ∷ fetch n ∷ [] in
      let first : reconcile out n [] ≡ (requeued, tr₁) =
        reconcile-stored out n t serves [] ∙ adopts out t new unowned updates _ in
      let held : stored n t tr₁ ≡ x = stored-adopted out t in
      let owned = finalizers.contains-add t.metadata.finalizers user_finalizer in
      let second : reconcile out n tr₁ ≡ reconcile_user out x (fetch n ∷ tr₁) =
        reconcile-stored out n t serves tr₁
        ∙ ap (λ y. reconcile_fetched out y (fetch n ∷ tr₁)) held
        ∙ fetched-live out n t serves x new owned x (fetch n ∷ tr₁) refl in
      let converged =
        reconcile_user-converges out conditions cluster w alters stores x
          (secret-adopted out t secret) unsettled (fetch n ∷ tr₁) in
      let tr₂ = (reconcile_user out x (fetch n ∷ tr₁)).1 in
      let same =
        (reconcile_user-Same n t x out conditions).at (fetch n ∷ tr₁)
          (ap (λ y. y.metadata) held, ap (λ y. y.spec) held) in
      let settled =
        stored-Done out n t serves x new owned converged.1 tr₂ (is_named_self t.metadata) conditions
          converged.2 same converged.3 in
      let later =
        runs-rest (reconcile out n) (after requeue_healthy) (fetch n)
          (Done out n t serves x new owned) (rests out n t serves x new owned) (λ tr d. d) k tr₂
          settled in
      rw (first, second, converged.0, later.0) (refl, refl, later.1)
