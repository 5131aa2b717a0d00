-- ===== src/Bufstream/Responses.antt =====
-- What the loops over the brokers' responses accept, stated of the responses themselves.
use text.Mathlib.TextEquality.{eq_iff}
use bufstream_operator.Prelude.{
  String, ◌≡◌, ◌≢◌, refl, ◌⊎◌, ◌↔◌, inl, inr, Bool-cases, List, [], ◌∷◌, Option, none, some, Bool,
  true, if◌then◌else◌, ok, Result, ⊤, arith, err,
}
use bufstream_operator.Api.Meta.{Fault, Error}
use bufstream_operator.Outside.{Response}
use bufstream_operator.Bufstream.Topic.{on_fault, first_fault, delete_fault, is_gone}
use bufstream_operator.Bufstream.User.{delete_user_fault, is_absent}
use bufstream_operator.Bufstream.Acl.{create_acl_fault, delete_acl_fault}

-- No error, or an error whose text is exactly the bare name UNKNOWN_TOPIC_OR_PARTITION or
-- UNKNOWN_TOPIC: an error with a longer text, a name with a description, is neither.
abbrev pub NoneOrUnknownTopic : Option Fault → Type 0
NoneOrUnknownTopic none = Unit
NoneOrUnknownTopic (some e) = (e.text ≡ "UNKNOWN_TOPIC_OR_PARTITION") ⊎ (e.text ≡ "UNKNOWN_TOPIC")

-- No error, or an error whose text is exactly the bare name RESOURCE_NOT_FOUND: an error with a
-- longer text, a name with a description, is neither.
abbrev pub NoneOrNotFound : Option Fault → Type 0
NoneOrNotFound none = Unit
NoneOrNotFound (some e) = e.text ≡ "RESOURCE_NOT_FOUND"

abbrev pub NoFault : Option Fault → Type 0
NoFault none = Unit
NoFault (some _) = ⊥

-- An error of another text than the two.
abbrev pub OtherThanUnknownTopic : Option Fault → Type 0
OtherThanUnknownTopic none = ⊥
OtherThanUnknownTopic (some e) =
    (e.text ≢ "UNKNOWN_TOPIC_OR_PARTITION") × (e.text ≢ "UNKNOWN_TOPIC")

-- An error of another text than that one.
abbrev pub OtherThanNotFound : Option Fault → Type 0
OtherThanNotFound none = ⊥
OtherThanNotFound (some e) = e.text ≢ "RESOURCE_NOT_FOUND"

abbrev pub AllFaults : (Option Fault → Type 0) → List (Option Fault) → Type 0
AllFaults P [] = Unit
AllFaults P (f ∷ fs) = P f × AllFaults P fs

abbrev pub AllResponses : (Option Fault → Type 0) → List Response → Type 0
AllResponses P [] = Unit
AllResponses P (r ∷ rs) = P r.fault × AllResponses P rs

abbrev pub SomeFault : (Option Fault → Type 0) → List (Option Fault) → Type 0
SomeFault P [] = ⊥
SomeFault P (f ∷ fs) = P f ⊎ SomeFault P fs

abbrev pub SomeResponse : (Option Fault → Type 0) → List Response → Type 0
SomeResponse P [] = ⊥
SomeResponse P (r ∷ rs) = P r.fault ⊎ SomeResponse P rs

is_gone_iff : (e : Fault) → (is_gone e ≡ true) ↔ NoneOrUnknownTopic (some e)
unfolding is_gone
is_gone_iff e = (
  λ h. ground (arith, eq_iff e.text "UNKNOWN_TOPIC_OR_PARTITION", eq_iff e.text "UNKNOWN_TOPIC"),
  λ h. ground (arith, eq_iff e.text "UNKNOWN_TOPIC_OR_PARTITION", eq_iff e.text "UNKNOWN_TOPIC"),
)

is_absent_iff : (e : Fault) → (is_absent e ≡ true) ↔ NoneOrNotFound (some e)
unfolding is_absent
is_absent_iff e = (
  λ h. ground (arith, eq_iff e.text "RESOURCE_NOT_FOUND"),
  λ h. ground (arith, eq_iff e.text "RESOURCE_NOT_FOUND"),
)

-- One round of a loop that goes on past the errors that `t` accepts: `if t(e) { continue }`.
tolerates_iff :
    (P : Option Fault → Type 0) (t : Fault → Bool) (bad : Fault → Error) {B : Type 0}
    → P none
    → ((e : Fault) → (t e ≡ true) ↔ P (some e))
    → (f : Option Fault) (rest : Result Error ⊤) → (rest ≡ ok tt) ↔ B
    → (on_fault f rest (λ e. if t e then rest else err (bad e)) ≡ ok tt) ↔ (P f × B)
tolerates_iff P t bad n i none rest b = (λ h. (n, b.0 h), λ h. b.1 h.1)
tolerates_iff P t bad n i (some e) rest b = elim (Bool-cases (t e)) [
  | inl y ↦ (λ h. ((i e).0 y, b.0 (ground (arith, h))), λ h. rw y (b.1 h.1))
  | inr y ↦ (λ h. absurd (ground (arith, h)), λ h. absurd (cc ((i e).1 h.0)))
]

-- One round of a loop that returns each error.
refuses_iff :
    (bad : Fault → Error) {B : Type 0} (f : Option Fault) (rest : Result Error ⊤)
    → (rest ≡ ok tt) ↔ B
    → (on_fault f rest (λ e. err (bad e)) ≡ ok tt) ↔ (NoFault f × B)
refuses_iff bad none rest b = (λ h. (tt, b.0 h), λ h. b.1 h.1)
refuses_iff bad (some e) rest b = (λ h. absurd (cc h), λ h. absurd h.0)

-- A deletion of topics counts as done exactly when each response has no error or an error whose
-- text is exactly UNKNOWN_TOPIC_OR_PARTITION or UNKNOWN_TOPIC.
pub delete_fault-NoneOrUnknownTopic :
    (rs : List Response) → (delete_fault rs ≡ ok tt) ↔ AllResponses NoneOrUnknownTopic rs
unfolding delete_fault
delete_fault-NoneOrUnknownTopic [] = (λ _. tt, λ _. refl)
delete_fault-NoneOrUnknownTopic (r ∷ rs) =
    tolerates_iff NoneOrUnknownTopic is_gone _ tt is_gone_iff r.fault (delete_fault rs)
      (delete_fault-NoneOrUnknownTopic rs)

-- A deletion of credentials counts as done exactly when each response has no error or an error
-- whose text is exactly RESOURCE_NOT_FOUND.
pub delete_user_fault-NoneOrNotFound :
    (rs : List Response) → (delete_user_fault rs ≡ ok tt) ↔ AllResponses NoneOrNotFound rs
unfolding delete_user_fault
delete_user_fault-NoneOrNotFound [] = (λ _. tt, λ _. refl)
delete_user_fault-NoneOrNotFound (r ∷ rs) =
    tolerates_iff NoneOrNotFound is_absent _ tt is_absent_iff r.fault (delete_user_fault rs)
      (delete_user_fault-NoneOrNotFound rs)

-- A deletion of ACLs counts as done exactly when each response has no error or an error whose text
-- is exactly RESOURCE_NOT_FOUND.
pub delete_acl_fault-NoneOrNotFound :
    (rs : List (Option Fault)) → (delete_acl_fault rs ≡ ok tt) ↔ AllFaults NoneOrNotFound rs
unfolding delete_acl_fault
delete_acl_fault-NoneOrNotFound [] = (λ _. tt, λ _. refl)
delete_acl_fault-NoneOrNotFound (r ∷ rs) =
    tolerates_iff NoneOrNotFound is_absent _ tt is_absent_iff r (delete_acl_fault rs)
      (delete_acl_fault-NoneOrNotFound rs)

other-unknown_topic : (f : Option Fault) → OtherThanUnknownTopic f → NoneOrUnknownTopic f → ⊥
other-unknown_topic none o h = o
other-unknown_topic (some e) o (inl h) = o.0 h
other-unknown_topic (some e) o (inr h) = o.1 h

other-not_found : (f : Option Fault) → OtherThanNotFound f → NoneOrNotFound f → ⊥
other-not_found none o h = o
other-not_found (some e) o h = o h

-- What holds of every response fails of none.
AllResponses-SomeResponse :
    (P B : Option Fault → Type 0)
    → ((f : Option Fault) → B f → P f → ⊥)
    → (rs : List Response) → SomeResponse B rs
    → AllResponses P rs
    → ⊥
AllResponses-SomeResponse P B c [] s a = s
AllResponses-SomeResponse P B c (r ∷ rs) (inl b) a = c r.fault b a.0
AllResponses-SomeResponse P B c (r ∷ rs) (inr s) a = AllResponses-SomeResponse P B c rs s a.1

AllFaults-SomeFault :
    (P B : Option Fault → Type 0)
    → ((f : Option Fault) → B f → P f → ⊥)
    → (fs : List (Option Fault)) → SomeFault B fs
    → AllFaults P fs
    → ⊥
AllFaults-SomeFault P B c [] s a = s
AllFaults-SomeFault P B c (f ∷ fs) (inl b) a = c f b a.0
AllFaults-SomeFault P B c (f ∷ fs) (inr s) a = AllFaults-SomeFault P B c fs s a.1

-- A loop that does not count its responses as done returns an error.
not_done : (r : Result Error ⊤) → ((r ≡ ok tt) → ⊥) → (e : Error) × (r ≡ err e)
not_done (ok tt) n = absurd (n refl)
not_done (err e) n = (e, refl)

-- An error of another text makes the deletion fail.
pub delete_fault-other :
    (rs : List Response)
    → SomeResponse OtherThanUnknownTopic rs
    → (e : Error) × (delete_fault rs ≡ err e)
delete_fault-other rs s = not_done _ (λ h.
    AllResponses-SomeResponse _ _ other-unknown_topic rs s
      ((delete_fault-NoneOrUnknownTopic rs).0 h))

pub delete_user_fault-other :
    (rs : List Response)
    → SomeResponse OtherThanNotFound rs
    → (e : Error) × (delete_user_fault rs ≡ err e)
delete_user_fault-other rs s = not_done _ (λ h.
    AllResponses-SomeResponse _ _ other-not_found rs s ((delete_user_fault-NoneOrNotFound rs).0 h))

pub delete_acl_fault-other :
    (rs : List (Option Fault))
    → SomeFault OtherThanNotFound rs
    → (e : Error) × (delete_acl_fault rs ≡ err e)
delete_acl_fault-other rs s =
    not_done _
      (λ h. AllFaults-SomeFault _ _ other-not_found rs s ((delete_acl_fault-NoneOrNotFound rs).0 h))

-- A creation or alteration of topics or credentials counts as done exactly when no response has an
-- error.
pub first_fault-NoFault :
    (prefix : String) (rs : List Response)
    → (first_fault prefix rs ≡ ok tt) ↔ AllResponses NoFault rs
unfolding first_fault
first_fault-NoFault prefix [] = (λ _. tt, λ _. refl)
first_fault-NoFault prefix (r ∷ rs) =
    refuses_iff _ r.fault (first_fault prefix rs) (first_fault-NoFault prefix rs)

-- A creation of ACLs counts as done exactly when no response has an error.
pub create_acl_fault-NoFault :
    (rs : List (Option Fault)) → (create_acl_fault rs ≡ ok tt) ↔ AllFaults NoFault rs
unfolding create_acl_fault
create_acl_fault-NoFault [] = (λ _. tt, λ _. refl)
create_acl_fault-NoFault (r ∷ rs) =
    refuses_iff _ r (create_acl_fault rs) (create_acl_fault-NoFault rs)
