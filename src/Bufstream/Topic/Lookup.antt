-- ===== src/Bufstream/Topic/Lookup.antt =====
-- `TopicExists`: when a topic counts as existing, and what is reported of it.
use bufstream_operator.Prelude.{
  ℕ, ◌≡◌, ◌≢◌, ◌^◌, ◌==◌, ◌↔◌, refl, String, List, [], ◌∷◌, none, some, arith, length, Option-cases,
  List-cases, Bool-cases, ◌⊎◌, inl, inr,
}
use bufstream_operator.Prelude.Int.{pos, int16, int32}
use bufstream_operator.Prelude.Int.Wraps.{Wraps, int16-Wraps, int32-Wraps}
use bufstream_operator.Outside.{TopicDetail}
use bufstream_operator.Bufstream.Topic.{
  TopicInfo, topic_entry, topic_info, found_topic, replicas_of,
}

-- What a listing says of a topic: its details, at the first entry of its name.
abbrev pub Lists : String → List (String × TopicDetail) → TopicDetail → Type 0
Lists name topics detail = topic_entry name topics ≡ some detail

topic_entry-nil : (name : String) (detail : TopicDetail) → ◌≢◌ (topic_entry name []) (some detail)
unfolding topic_entry
topic_entry-nil name detail h = cc

found_topic-entry :
    (name : String) (topics : List (String × TopicDetail)) (detail : TopicDetail)
    → Lists name topics detail
    → found_topic name topics ≡ topic_info name detail
unfolding found_topic
found_topic-entry name [] detail h = absurd (topic_entry-nil name detail h)
found_topic-entry name (t ∷ topics) detail h = ground (arith, h)

found_topic-missing :
    (name : String) (topics : List (String × TopicDetail))
    → topic_entry name topics ≡ none
    → found_topic name topics ≡ none
unfolding found_topic
found_topic-missing name [] h = refl
found_topic-missing name (t ∷ topics) h = ground (arith, h)

topic_info-none :
    (name : String) (detail : TopicDetail) → topic_info name detail ≡ none → detail.partitions ≡ []
unfolding topic_info
topic_info-none name detail h = ground (arith, h)

topic_info-nil :
    (name : String) (detail : TopicDetail) → detail.partitions ≡ [] → topic_info name detail ≡ none
unfolding topic_info
topic_info-nil name detail h = ground (arith, h)

-- The entry of this key, as a relation.
abbrev pub Holds : ℕ → List (ℕ × List ℕ) → List ℕ → Type 0
Holds k [] rs = ⊥
Holds k ((j, rs') ∷ ps) rs = ((j ≡ k) × (rs ≡ rs')) ⊎ Holds k ps rs

-- There is no entry of this key.
abbrev pub Lacks : ℕ → List (ℕ × List ℕ) → Type 0
Lacks k [] = Unit
Lacks k ((j, rs) ∷ ps) = (j ≢ k) × Lacks k ps

replicas_of-Holds :
    (k : ℕ) (ps : List (ℕ × List ℕ))
    → Holds k ps (replicas_of k ps) ⊎ (Lacks k ps × (replicas_of k ps ≡ []))
unfolding replicas_of
replicas_of-Holds k [] = inr (tt, refl)
replicas_of-Holds k ((j, rs) ∷ ps) = elim (Bool-cases (j == k)) [
  | inl y ↦ rw y (inl (inl (ground (arith, y), refl)))
  | inr n ↦ rw n (elim (replicas_of-Holds k ps) [
    | inl h ↦ inl (inr h)
    | inr (l, e) ↦ inr ((ground (arith, n), l), e)
  ])
]

-- What is reported of a topic with these details: its name, the number of its partitions as an
-- int32, and that of the replicas of partition 0, or 0 where there is no such partition, as an
-- int16; each conversion keeps the number up to a multiple of 2 ^ 32 and of 2 ^ 16.
abbrev pub Counts : String → TopicDetail → TopicInfo → Type 0
Counts name detail info =
    (detail.partitions ≢ [])
    × (info.name ≡ name)
    × Wraps (2 ^ 31) (length detail.partitions) info.partitions
    × (rs : List ℕ) × (Holds 0 detail.partitions rs ⊎ (Lacks 0 detail.partitions × (rs ≡ [])))
    × Wraps (2 ^ 15) (length rs) info.replication_factor

topic_info-Counts :
    (name : String) (detail : TopicDetail) (info : TopicInfo)
    → topic_info name detail ≡ some info
    → Counts name detail info
unfolding topic_info
topic_info-Counts name detail info h = elim (List-cases detail.partitions) [
  | inl e ↦ absurd (ground (arith, h, e))
  | inr (p, rest, e) ↦
      let same : info ≡ record {
        name = name;
        partitions = int32 (pos (length (p ∷ rest)));
        replication_factor = int16 (pos (length (replicas_of 0 (p ∷ rest))));
      } =
        ground (arith, h, e) in
      rw (same, e)
        (
          (λ c. cc),
          refl,
          int32-Wraps (length (p ∷ rest)),
          replicas_of 0 (p ∷ rest),
          replicas_of-Holds 0 (p ∷ rest),
          int16-Wraps (length (replicas_of 0 (p ∷ rest))),
        )
]

-- Where a topic exists, it is listed with at least one partition, and what is reported of it is its
-- name, the number of its partitions as an int32, and the number of replicas of partition 0, or 0
-- where the listing has no partition of number 0, as an int16: a number beyond the range of its
-- type is off by a multiple of 2 ^ 32 or of 2 ^ 16.
pub found_topic-Counts :
    (name : String) (topics : List (String × TopicDetail)) (info : TopicInfo)
    → found_topic name topics ≡ some info
    → (detail : TopicDetail) × Lists name topics detail × Counts name detail info
found_topic-Counts name topics info h = elim (Option-cases (topic_entry name topics)) [
  | inl missing ↦ absurd (cc (found_topic-missing name topics missing, h))
  | inr (detail, listed) ↦ (
    detail,
    listed,
    topic_info-Counts name detail info (rw (← found_topic-entry name topics detail listed) h),
  )
]

-- A topic counts as missing exactly when it is not listed or is listed with no partition.
pub found_topic-none :
    (name : String) (topics : List (String × TopicDetail))
    → (found_topic name topics ≡ none)
      ↔ ((detail : TopicDetail) → Lists name topics detail → detail.partitions ≡ [])
found_topic-none name topics = (
  λ h detail listed.
      topic_info-none name detail (rw (← found_topic-entry name topics detail listed) h),
  λ h. elim (Option-cases (topic_entry name topics)) [
    | inl missing ↦ found_topic-missing name topics missing
    | inr (detail, listed) ↦
        rw (found_topic-entry name topics detail listed)
          (topic_info-nil name detail (h detail listed))
  ],
)
