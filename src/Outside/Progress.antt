-- ===== src/Outside/Progress.antt =====
-- Rules for what an action reaches, from any history: `Ends m S` says that its value and the
-- history that it leaves are related by `S`, and `Returns m Good` that it succeeds with a value in
-- `Good`.
use bufstream_operator.Prelude.{
  ◌≡◌, refl, Bool, true, false, if◌then◌else◌, ◌⊎◌, [], ◌∷◌, Result, ok, err,
}
use bufstream_operator.Outside.{Trace, Call, Object}
use bufstream_operator.Outside.Hoare.{Triple, Keeps}
use bufstream_operator.Outside.Action.{Action, pure, ◌>>=◌, ◌>>◌, on_error, ask}

pub record Ends {A : Type 0} (m : Action A) (S : A → Trace → Type 0) : Type 0 where
  pub at : (tr : Trace) → S (m tr).0 (m tr).1

abbrev pub IsOk : {E A : Type 0} → (A → Type 0) → Result E A → Type 0
IsOk Good (ok a) = Good a
IsOk Good (err e) = ⊥

pub record Returns {E A : Type 0} (m : Action (Result E A)) (Good : A → Type 0) : Type 0 where
  pub at : (tr : Trace) → IsOk Good (m tr).0

-- The last call, but for the closing of a client, is a write of the status of this object, which
-- the API server has accepted.
abbrev pub Wrote : Object → Trace → Type 0
Wrote x (Call.status_updated y (ok _) ∷ _) = y ≡ x
Wrote x (Call.kgo_closed _ ∷ tr) = Wrote x tr
Wrote x (Call.admin_closed _ ∷ tr) = Wrote x tr
Wrote x _ = ⊥

-- Some call of the history has the property.
abbrev pub Some : (Call → Type 0) → Trace → Type 0
Some P [] = ⊥
Some P (c ∷ tr) = P c ⊎ Some P tr

module _ {A : Type 0} where
  -- A weaker end.
  pub Ends-weaken :
      {S R : A → Trace → Type 0} {m : Action A}
      → Ends m S
      → ((a : A) (tr : Trace) → S a tr → R a tr)
      → Ends m R
  Ends-weaken e k = record { at = λ tr. k _ _ (e.at tr) }

  pub Triple-Ends :
      {P : Trace → Type 0} {S : A → Trace → Type 0} {m : Action A} → Ends m S → Triple P m S
  Triple-Ends e = record { at = λ tr _. e.at tr }

  pub Returns-ask :
      {E : Type 0} {Good : A → Type 0} (answer : Trace → Result E A) (shown_as : Result E A → Call)
      → ((tr : Trace) → IsOk Good (answer tr))
      → Returns (ask answer shown_as) Good
  unfolding ask
  Returns-ask answer shown_as k = record { at = k }

  pub Returns-pure :
      {E : Type 0} {Good : A → Type 0} (r : Result E A) → IsOk Good r → Returns (pure r) Good
  unfolding pure
  Returns-pure r k = record { at = λ tr. k }

  pub Ends-pure : {S : A → Trace → Type 0} (a : A) → ((tr : Trace) → S a tr) → Ends (pure a) S
  unfolding pure
  Ends-pure a k = record { at = k }

pub Ends-if :
    {A : Type 0} {S : A → Trace → Type 0} (b : Bool) (m n : Action A)
    → (b ≡ true → Ends m S)
    → (b ≡ false → Ends n S)
    → Ends (if b then m else n) S
Ends-if true m n km kn = km refl
Ends-if false m n km kn = kn refl

module _ {A B : Type 0} {S : B → Trace → Type 0} where
  pub Ends-bind : (m : Action A) (f : A → Action B) → ((a : A) → Ends (f a) S) → Ends (m >>= f) S
  unfolding ◌>>=◌
  Ends-bind m f k = record { at = λ tr. (k (m tr).0).at (m tr).1 }

  pub Ends-then : (m : Action A) (k : Action B) → Ends k S → Ends (m >> k) S
  unfolding ◌>>◌
  Ends-then m k ek = record { at = λ tr. ek.at (m tr).1 }

module _ {E A : Type 0} {Good : A → Type 0} where
  on_error-ok :
      {B : Type 0} {S : B → Trace → Type 0} (r : Result E A) (handler : E → Action B)
      (rest : A → Action B)
      → IsOk Good r
      → ((a : A) → Good a → Ends (rest a) S)
      → Ends (on_error r handler rest) S
  unfolding on_error
  on_error-ok (ok a) handler rest good k = k a good
  on_error-ok (err e) handler rest good k = absurd good

  on_error-Triple :
      {P : Trace → Type 0} {B : Type 0} {S : B → Trace → Type 0} (r : Result E A)
      (handler : E → Action B) (rest : A → Action B)
      → IsOk Good r
      → ((a : A) → Good a → Triple P (rest a) S)
      → Triple P (on_error r handler rest) S
  unfolding on_error
  on_error-Triple (ok a) handler rest good k = k a good
  on_error-Triple (err e) handler rest good k = absurd good

  -- A call that succeeds, the test of its error, and the rest.
  pub Ends-ok :
      {B : Type 0} {S : B → Trace → Type 0} (m : Action (Result E A)) (handler : E → Action B)
      (rest : A → Action B)
      → Returns m Good
      → ((a : A) → Good a → Ends (rest a) S)
      → Ends (m >>= (λ r. on_error r handler rest)) S
  unfolding ◌>>=◌
  Ends-ok m handler rest km k = record {
    at = λ tr. (on_error-ok (m tr).0 handler rest (km.at tr) k).at (m tr).1;
  }

  -- The same from a history with `P`, which the call keeps.
  pub Triple-ok :
      {P : Trace → Type 0} {B : Type 0} {S : B → Trace → Type 0} (m : Action (Result E A))
      (handler : E → Action B) (rest : A → Action B)
      → Triple P m (λ r tr. IsOk Good r × P tr)
      → ((a : A) → Good a → Triple P (rest a) S)
      → Triple P (m >>= (λ r. on_error r handler rest)) S
  unfolding ◌>>=◌
  Triple-ok m handler rest km k = record {
    at = λ tr p.
        let next = km.at tr p in
        (on_error-Triple (m tr).0 handler rest next.0 k).at (m tr).1 next.1;
  }

  pub Triple-Returns :
      {P : Trace → Type 0} {m : Action (Result E A)}
      → Returns m Good
      → Keeps P m
      → Triple P m (λ r tr. IsOk Good r × P tr)
  Triple-Returns good keeps = record { at = λ tr p. (good.at tr, keeps.at tr p) }

  on_error-Returns :
      {F B : Type 0} {Best : B → Type 0} (r : Result E A) (handler : E → Action (Result F B))
      (rest : A → Action (Result F B))
      → IsOk Good r
      → ((a : A) → Good a → Returns (rest a) Best)
      → Returns (on_error r handler rest) Best
  unfolding on_error
  on_error-Returns (ok a) handler rest good k = k a good
  on_error-Returns (err e) handler rest good k = absurd good

  pub Returns-ok :
      {F B : Type 0} {Best : B → Type 0} (m : Action (Result E A))
      (handler : E → Action (Result F B)) (rest : A → Action (Result F B))
      → Returns m Good
      → ((a : A) → Good a → Returns (rest a) Best)
      → Returns (m >>= (λ r. on_error r handler rest)) Best
  unfolding ◌>>=◌
  Returns-ok m handler rest km k = record {
    at = λ tr. (on_error-Returns (m tr).0 handler rest (km.at tr) k).at (m tr).1;
  }

pub Returns-bind :
    {A F B : Type 0} {Best : B → Type 0} (m : Action A) (f : A → Action (Result F B))
    → ((a : A) → Returns (f a) Best)
    → Returns (m >>= f) Best
unfolding ◌>>=◌
Returns-bind m f k = record { at = λ tr. (k (m tr).0).at (m tr).1 }
