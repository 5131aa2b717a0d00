-- ===== src/Controller/Repeats.antt =====
-- A reconciler that is run again and again, as the work queue does, and the objects' names.
use bufstream_operator.Prelude.{
  ℕ, zero, suc, ◌≡◌, refl, Bool, true, ◌&&◌, List, [], ◌∷◌, arith, eq_iff, str_eq,
}
use bufstream_operator.Api.Meta.{NamespacedName, ObjectMeta}
use bufstream_operator.Outside.{Trace, Call}
use bufstream_operator.Outside.Action.{Action}
use bufstream_operator.Controller.Common.{Outcome, name_of}

-- The outcomes of so many runs, the first one first, and the history after them.
abbrev pub runs : ℕ → Action Outcome → Action (List Outcome)
runs zero m tr = ([], tr)
runs (suc k) m tr =
    let (outcome, tr') = m tr in let (outcomes, tr'') = runs k m tr' in (outcome ∷ outcomes, tr'')

-- So many times the same.
abbrev pub replicate : {A : Type 0} → ℕ → A → List A
replicate zero a = []
replicate (suc k) a = a ∷ replicate k a

-- So many times the same call after a history.
abbrev pub calls : ℕ → Call → Trace → Trace
calls zero c tr = tr
calls (suc k) c tr = calls k c (c ∷ tr)

-- The object with this metadata has this name.
abbrev pub is_named : NamespacedName → ObjectMeta → Bool
is_named n m = str_eq m.name n.name && str_eq m.namespace n.namespace

pub is_named_self : (m : ObjectMeta) → is_named (name_of m) m ≡ true
is_named_self m = ground (arith, eq_iff m.name m.name, eq_iff m.namespace m.namespace)

module _ (m : Action Outcome) (o : Outcome) (c : Call) (Q : Trace → Type 0)
    (rests : (tr : Trace) → Q tr → m tr ≡ (o, c ∷ tr))
    (stays : (tr : Trace) → Q tr → Q (c ∷ tr)) where
  -- A reconciler that only makes one call, and will again, does so as often as it is run.
  pub runs-rest :
      (k : ℕ) (tr : Trace) → Q tr → (runs k m tr ≡ (replicate k o, calls k c tr)) × Q (calls k c tr)
  runs-rest zero tr q = (refl, q)
  runs-rest (suc k) tr q =
      let rest = runs-rest k (c ∷ tr) (stays tr q) in (rw (rests tr q, rest.0) refl, rest.1)
