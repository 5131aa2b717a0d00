-- ===== src/Outside/Laws.antt =====
-- What the operator relies on in the helper functions of apimachinery and controller-runtime, as
-- their documentation has it.
use bufstream_operator.Prelude.{String, ◌≡◌, ◌≢◌, true, false, List, some}
use bufstream_operator.Api.Meta.{Condition}
use bufstream_operator.Outside.{Outside}

-- A condition says the same as another, but for the time of its last transition.
pub record Agrees (c d : Condition) : Type 0 where
  pub kind : c.kind ≡ d.kind
  pub status : c.status ≡ d.status
  pub reason : c.reason ≡ d.reason
  pub message : c.message ≡ d.message
  pub generation : c.observed_generation ≡ d.observed_generation

pub record FinalizerLaws (out : Outside) : Type 0 where
  -- AddFinalizer: the finalizer is there afterwards. RemoveFinalizer: it is not.
  pub contains-add :
      (fs : List String) (f : String) → out.contains_finalizer (out.add_finalizer fs f) f ≡ true
  pub contains-remove :
      (fs : List String) (f : String) → out.contains_finalizer (out.remove_finalizer fs f) f ≡ false

pub record ConditionLaws (out : Outside) : Type 0 where
  -- SetStatusCondition: the condition of the new one's type is the new one, but for its time.
  pub find-set_self :
      (cs : List Condition) (c : Condition)
      → (d : Condition) × (out.find_status_condition (out.set_status_condition cs c) c.kind
          ≡ some d)
        × Agrees d c
  -- Those of other types stay as they are.
  pub find-set_ne :
      (cs : List Condition) (c : Condition) (kind : String)
      → kind ≢ c.kind
      → out.find_status_condition (out.set_status_condition cs c) kind
        ≡ out.find_status_condition cs kind
