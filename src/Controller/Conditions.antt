-- ===== src/Controller/Conditions.antt =====
-- What the reconcilers make of the list of conditions, under the laws of SetStatusCondition.
use bufstream_operator.Prelude.{
  String, ◌≡◌, ◌≢◌, ap, ◌∙◌, true, false, List, Option, none, some, arith, eq_iff, inl, inr,
  Option-cases, Bool-cases, str_eq, ◌⊎◌, ℕ,
}
use bufstream_operator.Api.Meta.{
  Condition, Message, Time, ObjectMeta, condition_true, condition_false,
}
use bufstream_operator.Outside.{Outside}
use bufstream_operator.Outside.Laws.{ConditionLaws}
use bufstream_operator.Controller.Common.{type_ready, type_degraded, type_progressing}
use bufstream_operator.Controller.Helpers.{is_true}

abbrev pub status_in : Option Condition → Option String
status_in none = none
status_in (some c) = some c.status

module _ (out : Outside) where
  -- The status of the condition of a type.
  abbrev pub status_of : List Condition → String → Option String
  status_of cs kind = status_in (out.find_status_condition cs kind)

  -- The conditions report a failure; they report success.
  abbrev pub IsDegraded : List Condition → Type 0
  IsDegraded cs =
      (status_of cs type_ready ≡ some condition_false)
      × (status_of cs type_degraded ≡ some condition_true)

  abbrev pub IsHealthy : List Condition → Type 0
  IsHealthy cs =
      (status_of cs type_ready ≡ some condition_true)
      × (status_of cs type_degraded ≡ some condition_false)
      × (status_of cs type_progressing ≡ some condition_false)

  -- A list whose Ready condition is true passes the test of the reconcilers.
  pub is_true-of_status :
      (cs : List Condition)
      → status_of cs type_ready ≡ some condition_true
      → is_true (out.find_status_condition cs type_ready) ≡ true
  unfolding is_true
  is_true-of_status cs h = elim (Option-cases (out.find_status_condition cs type_ready)) [
    | inl missing ↦ absurd (ground arith)
    | inr (c, e) ↦ ground (arith, eq_iff c.status condition_true)
  ]

  -- The status is not one of success: it is of another generation, or Ready is missing or not True.
  abbrev pub IsStale : ObjectMeta → ℕ → List Condition → Type 0
  IsStale metadata observed cs =
      (observed ≢ metadata.generation) ⊎ (status_of cs type_ready ≢ some condition_true)

  -- A list whose Ready condition is missing or not true does not.
  pub is_true-of_status_ne :
      (cs : List Condition)
      → status_of cs type_ready ≢ some condition_true
      → is_true (out.find_status_condition cs type_ready) ≡ false
  unfolding is_true
  is_true-of_status_ne cs h = elim (Option-cases (out.find_status_condition cs type_ready)) [
    | inl missing ↦ ground (arith, missing)
    | inr (c, e) ↦ rw e (elim (Bool-cases (str_eq c.status condition_true)) [
      | inl y ↦ absurd (h (rw e (ap some ((eq_iff c.status condition_true).0 y))))
      | inr n ↦ n
    ])
  ]

  -- A list whose Ready condition is false does not.
  pub is_true-of_status_false :
      (cs : List Condition)
      → status_of cs type_ready ≡ some condition_false
      → is_true (out.find_status_condition cs type_ready) ≡ false
  unfolding is_true
  is_true-of_status_false cs h = elim (Option-cases (out.find_status_condition cs type_ready)) [
    | inl missing ↦ ground (arith, missing)
    | inr (c, e) ↦
        ground (arith, eq_iff c.status condition_true, eq_iff condition_false condition_true)
  ]

abbrev pub condition_at : ObjectMeta → String → String → String → Message → Time → Condition
condition_at metadata kind status reason message time = record {
  kind = kind;
  status = status;
  reason = reason;
  message = message;
  observed_generation = metadata.generation;
  last_transition_time = time;
}

Ready-ne-Degraded : ◌≢◌ {A = String} type_ready type_degraded
Ready-ne-Degraded = ground (arith, eq_iff type_ready type_degraded)

Ready-ne-Progressing : ◌≢◌ {A = String} type_ready type_progressing
Ready-ne-Progressing = ground (arith, eq_iff type_ready type_progressing)

Degraded-ne-Ready : ◌≢◌ {A = String} type_degraded type_ready
Degraded-ne-Ready = ground (arith, eq_iff type_degraded type_ready)

Degraded-ne-Progressing : ◌≢◌ {A = String} type_degraded type_progressing
Degraded-ne-Progressing = ground (arith, eq_iff type_degraded type_progressing)

Progressing-ne-Ready : ◌≢◌ {A = String} type_progressing type_ready
Progressing-ne-Ready = ground (arith, eq_iff type_progressing type_ready)

Progressing-ne-Degraded : ◌≢◌ {A = String} type_progressing type_degraded
Progressing-ne-Degraded = ground (arith, eq_iff type_progressing type_degraded)

module _ (out : Outside) (laws : ConditionLaws out) where
  abbrev pub set : List Condition → Condition → List Condition
  set = out.set_status_condition

  pub status_of-set_self :
      (cs : List Condition) (c : Condition) → status_of out (set cs c) c.kind ≡ some c.status
  status_of-set_self cs c =
      let (d, found, same) = laws.find-set_self cs c in ap status_in found ∙ ap some same.status

  status_of-set_ne :
      (cs : List Condition) (c : Condition) (kind : String)
      → kind ≢ c.kind
      → status_of out (set cs c) kind ≡ status_of out cs kind
  status_of-set_ne cs c kind ne = ap status_in (laws.find-set_ne cs c kind ne)

  module _ (metadata : ObjectMeta) (cs : List Condition) where
    -- The two conditions of a failing branch.
    pub degrade-IsDegraded :
        (reason reason' : String) (message message' : Message) (time time' : Time)
        → IsDegraded out (
            set
              (set cs (condition_at metadata type_degraded condition_true reason message time))
              (condition_at metadata type_ready condition_false reason' message' time'))
    degrade-IsDegraded reason reason' message message' time time' =
        (status_of-set_self _ _, status_of-set_ne _ _ _ Degraded-ne-Ready ∙ status_of-set_self _ _)

    -- The three conditions of success, in the order of the topic's and the user's reconciler.
    pub finish-IsHealthy :
        (r₁ r₂ r₃ : String) (m₁ m₂ m₃ : Message) (t₁ t₂ t₃ : Time)
        → IsHealthy out (
            set
              (set
                (set cs (condition_at metadata type_degraded condition_false r₁ m₁ t₁))
                (condition_at metadata type_progressing condition_false r₂ m₂ t₂))
              (condition_at metadata type_ready condition_true r₃ m₃ t₃))
    finish-IsHealthy r₁ r₂ r₃ m₁ m₂ m₃ t₁ t₂ t₃ = (
      status_of-set_self _ _,
      status_of-set_ne _ _ _ Degraded-ne-Ready
          ∙ status_of-set_ne _ _ _ Degraded-ne-Progressing
          ∙ status_of-set_self _ _,
      status_of-set_ne _ _ _ Progressing-ne-Ready ∙ status_of-set_self _ _,
    )

    -- The same in the order of the ACL's reconciler.
    pub finish-IsHealthy_swapped :
        (r₁ r₂ r₃ : String) (m₁ m₂ m₃ : Message) (t₁ t₂ t₃ : Time)
        → IsHealthy out (
            set
              (set
                (set cs (condition_at metadata type_progressing condition_false r₁ m₁ t₁))
                (condition_at metadata type_degraded condition_false r₂ m₂ t₂))
              (condition_at metadata type_ready condition_true r₃ m₃ t₃))
    finish-IsHealthy_swapped r₁ r₂ r₃ m₁ m₂ m₃ t₁ t₂ t₃ = (
      status_of-set_self _ _,
      status_of-set_ne _ _ _ Degraded-ne-Ready ∙ status_of-set_self _ _,
      status_of-set_ne _ _ _ Progressing-ne-Ready
          ∙ status_of-set_ne _ _ _ Progressing-ne-Degraded
          ∙ status_of-set_self _ _,
    )
