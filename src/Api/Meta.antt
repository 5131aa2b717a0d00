-- ===== src/Api/Meta.antt =====
-- What the controllers use of metav1 (k8s.io/apimachinery): object metadata, names, conditions;
-- and the error values and message texts, which are kept as the formatting calls that make them.
use bufstream_operator.Prelude.{ℕ, String, Option, List, [], ◌∷◌}
use bufstream_operator.Prelude.Int.{ℤ}

-- A point in time, as metav1.Time holds it.
abbrev pub Time : Type 0
Time = ℕ

pub record ObjectMeta : Type 0 where
  pub name : String
  pub namespace : String
  pub generation : ℕ
  pub deletion_timestamp : Option Time
  pub finalizers : List String

pub record NamespacedName : Type 0 where
  pub name : String
  pub namespace : String

-- An error value that a library returned: its identity, and what its `Error()` returns.
pub record Fault : Type 0 where
  pub code : ℕ
  pub text : String

-- The parts of a format string: literal text, and the verbs %q, %s and %d with their operands.
pub data Arg : Type 0 where
  lit : String → Arg
  quoted : String → Arg
  shown : String → Arg
  decimal : ℤ → Arg

abbrev pub Format : Type 0
Format = List Arg

-- An `error`: a library's, or one made by `fmt.Errorf` without and with a final %w.
pub data Error : Type 0 where
  foreign : Fault → Error
  formatted : Format → Error
  wrapped : Format → Error → Error

-- The text of an event or a condition: formatted, with a final %v of an error in the second case.
pub data Message : Type 0 where
  text : Format → Message
  about : Format → Error → Message

abbrev pub plain : String → Message
plain s = text (lit s ∷ [])

-- metav1.Condition
pub record Condition : Type 0 where
  pub kind : String
  pub status : String
  pub reason : String
  pub message : Message
  pub observed_generation : ℕ
  pub last_transition_time : Time

abbrev pub condition_true : String
condition_true = "True"

abbrev pub condition_false : String
condition_false = "False"
