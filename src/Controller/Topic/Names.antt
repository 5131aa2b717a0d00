-- ===== src/Controller/Topic/Names.antt =====
-- The broker's name of a topic, said without `getTopicName`.
use bufstream_operator.Prelude.{
  ◌≡◌, ◌≢◌, refl, sym, ◌∙◌, String, ◌⊎◌, inl, inr, arith, eq_iff, str_eq, Bool-cases,
}
use bufstream_operator.Api.Topic.{Topic}
use bufstream_operator.Controller.Topic.Base.{topic_name}

-- The name that the spec gives, and the resource's own where it gives none.
abbrev pub IsNameOf : Topic → String → Type 0
IsNameOf t name =
    ((t.spec.topic_name ≢ "") × (name ≡ t.spec.topic_name))
    ⊎ ((t.spec.topic_name ≡ "") × (name ≡ t.metadata.name))

pub topic_name-IsNameOf : (t : Topic) → IsNameOf t (topic_name t)
unfolding topic_name
topic_name-IsNameOf t = elim (Bool-cases (str_eq t.spec.topic_name "")) [
  | inl y ↦ inr (ground (arith, eq_iff t.spec.topic_name "", y), rw y refl)
  | inr n ↦ inl (λ e. ground (arith, eq_iff t.spec.topic_name "", n, e), rw n refl)
]

pub IsNameOf-topic_name : (t : Topic) (name : String) → IsNameOf t name → topic_name t ≡ name
IsNameOf-topic_name t name h = elim (topic_name-IsNameOf t) [
  | inl (n, d) ↦ elim h [ inl (_, e) ↦ d ∙ sym e | inr (z, _) ↦ absurd (n z) ]
  | inr (z, d) ↦ elim h [ inl (n, _) ↦ absurd (n z) | inr (_, e) ↦ d ∙ sym e ]
]
