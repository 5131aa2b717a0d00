-- ===== src/Bufstream/Topic/Update.antt =====
-- `UpdateTopic` against what it promises: it refuses what the brokers cannot do, before any call,
-- and success means that each change that was needed has been made and accepted.
use bufstream_operator.Prelude.{
  ◌≡◌, ◌≢◌, refl, sym, ap, ◌∙◌, true, String, List, [], ◌∷◌, ◌⊎◌, inl, inr, ok, arith, Bool-cases,
  Result-cases,
}
use bufstream_operator.Prelude.Int.{ℤ, pos, negsuc, ◌<ℤ◌, ◌==ℤ◌, ltb_ℤ}
use bufstream_operator.Outside.{Outside, Call, Trace, Response}
use bufstream_operator.Outside.Action.{◌>>=◌, on_error, pure, ask}
use bufstream_operator.Bufstream.Client.{Client}
use bufstream_operator.Bufstream.Responses.{AllResponses, NoFault, first_fault-NoFault}
use bufstream_operator.Bufstream.Topic.{
  TopicInfo, default_one, update_partitions, update_configs, update_topic,
}

-- The second number is the first one, or 1 where that is 0.
abbrev pub IsOneByDefault : ℤ → ℤ → Type 0
IsOneByDefault x y = ((x ≡ pos 0) × (y ≡ pos 1)) ⊎ ((x ≢ pos 0) × (y ≡ x))

zero_only : (x : ℤ) → (x ==ℤ pos 0) ≡ true → x ≡ pos 0
zero_only (pos n) h = ap pos (ground (arith, h))
zero_only (negsuc n) h = absurd (ground (arith, h))

pub default_one-IsOneByDefault : (x : ℤ) → IsOneByDefault x (default_one x)
unfolding default_one
default_one-IsOneByDefault x = elim (Bool-cases (x ==ℤ pos 0)) [
  | inl y ↦ inl (zero_only x y, rw y refl)
  | inr n ↦ inr (λ e. absurd (ground (arith, n, e)), rw n refl)
]

pub IsOneByDefault-default_one : (x y : ℤ) → IsOneByDefault x y → default_one x ≡ y
IsOneByDefault-default_one x y h = elim (default_one-IsOneByDefault x) [
  | inl (z, d) ↦ elim h [ inl (_, e) ↦ d ∙ sym e | inr (n, _) ↦ absurd (n z) ]
  | inr (n, d) ↦ elim h [ inl (z, _) ↦ absurd (n z) | inr (_, e) ↦ d ∙ sym e ]
]

module _ (c : Client) (name : String) where
  -- The partitions are as many as desired, or they were fewer and the brokers have added the rest.
  abbrev pub Grown : ℤ → ℤ → Trace → Trace → Type 0
  Grown current desired tr tr' =
      ((current ≡ desired) × (tr' ≡ tr))
      ⊎ ((current <ℤ desired)
          × ((rs : List Response) × (tr'
                ≡ Call.partitions_created c.admin_client desired name (ok rs) ∷ tr)
              × AllResponses NoFault rs))

  -- There is no configuration to set, or the brokers have set it.
  abbrev pub Configured : List (String × String) → Trace → Trace → Type 0
  Configured [] tr tr' = tr' ≡ tr
  Configured (kv ∷ config) tr tr' =
      (rs : List Response) × (tr'
        ≡ Call.configs_altered c.admin_client (kv ∷ config) name (ok rs) ∷ tr)
      × AllResponses NoFault rs

module _ (out : Outside) (c : Client) (name : String) (tr : Trace) where
  update_partitions-Grown :
      (desired : ℤ) (current : TopicInfo)
      → (update_partitions out c name desired current tr).0 ≡ ok tt
      → Grown c name current.partitions desired tr
          (update_partitions out c name desired current tr).1
  unfolding update_partitions ◌>>=◌ on_error pure ask
  update_partitions-Grown desired current h = elim (Bool-cases (ltb_ℤ current.partitions desired)) [
    | inl more ↦ elim (Result-cases (out.create_partitions tr c.admin_client desired name)) [
      | inl (rs, e) ↦ inr (
        ground arith,
        (
          rs,
          ground (arith, more, e),
          (first_fault-NoFault "failed to increase partitions for " rs).0
              (ground (arith, more, e, h)),
        ),
      )
      | inr (f, e) ↦ absurd (ground (arith, more, e, h))
    ]
    | inr enough ↦ inl (ground (arith, enough, h), ground (arith, enough, h))
  ]

  update_configs-Configured :
      (config : List (String × String))
      → (update_configs out c name config tr).0 ≡ ok tt
      → Configured c name config tr (update_configs out c name config tr).1
  unfolding update_configs ◌>>=◌ on_error pure ask
  update_configs-Configured [] h = refl
  update_configs-Configured (kv ∷ config) h =
      elim (Result-cases (out.alter_topic_configs tr c.admin_client (kv ∷ config) name)) [
        | inl (rs, e) ↦ (
          rs,
          ground (arith, e),
          (first_fault-NoFault "failed to alter config for " rs).0 (ground (arith, e, h)),
        )
        | inr (f, e) ↦ absurd (ground (arith, e, h))
      ]

module _ (out : Outside) (c : Client) (name : String) (tr : Trace) (partitions replicas : ℤ)
    (current : TopicInfo) (config : List (String × String)) where
  refuses :
      (current.replication_factor ≢ replicas) ⊎ (default_one partitions <ℤ current.partitions)
      → (update_topic out c name partitions replicas current config tr).1 ≡ tr
        × ((update_topic out c name partitions replicas current config tr).0 ≢ ok tt)
  unfolding update_topic update_partitions ◌>>=◌ on_error pure
  refuses h = ground (arith, h)

  -- A change of the replication factor, or to fewer partitions, is refused, and no call is made; 0
  -- partitions are taken as 1.
  pub update_topic-refuses :
      (desired : ℤ)
      → IsOneByDefault partitions desired
      → (current.replication_factor ≢ replicas) ⊎ (desired <ℤ current.partitions)
      → (update_topic out c name partitions replicas current config tr).1 ≡ tr
        × ((update_topic out c name partitions replicas current config tr).0 ≢ ok tt)
  update_topic-refuses desired d h =
      refuses (rw (IsOneByDefault-default_one partitions desired d) h)

  -- Where `UpdateTopic` returns no error, the replication factor was the desired one, the topic had
  -- the desired partitions (1 for 0) or fewer and then the brokers have added the rest, and then
  -- the configuration, where there is one, has been set; each answer was without an error, and
  -- there was no other call.
  pub update_topic-Applied :
      (update_topic out c name partitions replicas current config tr).0 ≡ ok tt
      → (current.replication_factor ≡ replicas)
        × (desired : ℤ) × IsOneByDefault partitions desired
        × (grown : Trace) × Grown c name current.partitions desired tr grown
        × Configured c name config grown
            (update_topic out c name partitions replicas current config tr).1
  unfolding update_topic ◌>>=◌ on_error pure
  update_topic-Applied h = elim (Bool-cases (current.replication_factor ==ℤ replicas)) [
    | inl same ↦
        elim (Result-cases (update_partitions out c name (default_one partitions) current tr).0) [
          | inl (u, e) ↦
              let grown = (update_partitions out c name (default_one partitions) current tr).1 in
              (
                ground arith,
                default_one partitions,
                default_one-IsOneByDefault partitions,
                grown,
                update_partitions-Grown out c name tr (default_one partitions) current e,
                rw (same, e)
                    (update_configs-Configured out c name grown config
                      (ground (arith, same, e, h))),
              )
          | inr (x, e) ↦ absurd (ground (arith, same, e, h))
        ]
    | inr other ↦ absurd (ground (arith, other, h))
  ]
