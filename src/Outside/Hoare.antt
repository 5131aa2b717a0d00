-- ===== src/Outside/Hoare.antt =====
-- Rules for actions: `Keeps Q m` says that `m` keeps a predicate of the calls made so far, and
-- `Triple Q m R` that from a history with `Q` it ends with a value and a history related by `R`.
use bufstream_operator.Prelude.{
  ℕ, String, List, ⊤, ◌≡◌, refl, Bool, true, false, [], ◌∷◌, Option, none, some, Result, ok, err,
  if◌then◌else◌,
}
use bufstream_operator.Api.Meta.{NamespacedName, Fault}
use bufstream_operator.Outside.{Trace, Call, Kind, Handle, Opt, TopicDetail}
use bufstream_operator.Outside.Action.{Action, pure, ◌>>=◌, ◌>>◌, on_error, on_option, ask, called}

pub record Keeps {A : Type 0} (Q : Trace → Type 0) (m : Action A) : Type 0 where
  pub at : (tr : Trace) → Q tr → Q (m tr).1

pub record Triple {A : Type 0} (Q : Trace → Type 0) (m : Action A) (R : A → Trace → Type 0)
    : Type 0 where
  pub at : (tr : Trace) → Q tr → R (m tr).0 (m tr).1

-- Every call in the history has the property.
abbrev pub Every : (Call → Type 0) → Trace → Type 0
Every P [] = Unit
Every P (c ∷ tr) = P c × Every P tr

module _ {Q : Trace → Type 0} {A : Type 0} where
  pub Keeps-pure : (a : A) → Keeps Q (pure a)
  unfolding pure
  Keeps-pure a = record { at = λ tr h. h }

  pub Keeps-if :
      (b : Bool) (m n : Action A)
      → (b ≡ true → Keeps Q m)
      → (b ≡ false → Keeps Q n)
      → Keeps Q (if b then m else n)
  Keeps-if true m n km kn = km refl
  Keeps-if false m n km kn = kn refl

  pub Keeps-ask :
      (answer : Trace → A) (shown_as : A → Call)
      → ((a : A) (tr : Trace) → Q tr → Q (shown_as a ∷ tr))
      → Keeps Q (ask answer shown_as)
  unfolding ask
  Keeps-ask answer shown_as k = record { at = λ tr h. k (answer tr) tr h }

pub Keeps-called :
    {Q : Trace → Type 0} (c : Call) → ((tr : Trace) → Q tr → Q (c ∷ tr)) → Keeps Q (called c)
unfolding called
Keeps-called c k = record { at = k }

module _ {Q : Trace → Type 0} {A B : Type 0} where
  pub Keeps-bind :
      (m : Action A) (f : A → Action B) → Keeps Q m → ((a : A) → Keeps Q (f a)) → Keeps Q (m >>= f)
  unfolding ◌>>=◌
  Keeps-bind m f km kf = record { at = λ tr h. (kf (m tr).0).at (m tr).1 (km.at tr h) }

  pub Keeps-then : (m : Action A) (k : Action B) → Keeps Q m → Keeps Q k → Keeps Q (m >> k)
  unfolding ◌>>◌
  Keeps-then m k km kk = record { at = λ tr h. kk.at (m tr).1 (km.at tr h) }

  pub Keeps-on_option :
      (o : Option A) (missing : Action B) (rest : A → Action B)
      → Keeps Q missing
      → ((a : A) → Keeps Q (rest a))
      → Keeps Q (on_option o missing rest)
  unfolding on_option
  Keeps-on_option none missing rest km kr = km
  Keeps-on_option (some a) missing rest km kr = kr a

pub Keeps-on_error :
    {Q : Trace → Type 0} {E A B : Type 0} (r : Result E A) (handler : E → Action B)
    (rest : A → Action B)
    → ((e : E) → Keeps Q (handler e))
    → ((a : A) → Keeps Q (rest a))
    → Keeps Q (on_error r handler rest)
unfolding on_error
Keeps-on_error (ok a) handler rest kh kr = kr a
Keeps-on_error (err e) handler rest kh kr = kh e

pub ruleset keeps_rules = (
  Keeps-pure, Keeps-if, Keeps-ask, Keeps-called, Keeps-bind, Keeps-then, Keeps-on_option,
  Keeps-on_error,
)

module _ {Q : Trace → Type 0} where
  pub Triple-pure :
      {A : Type 0} {R : A → Trace → Type 0} (a : A)
      → ((tr : Trace) → Q tr → R a tr)
      → Triple Q (pure a) R
  unfolding pure
  Triple-pure a k = record { at = k }

  pub Triple-ask :
      {A : Type 0} {R : A → Trace → Type 0} (answer : Trace → A) (shown_as : A → Call)
      → ((a : A) (tr : Trace) → Q tr → R a (shown_as a ∷ tr))
      → Triple Q (ask answer shown_as) R
  unfolding ask
  Triple-ask answer shown_as k = record { at = λ tr h. k (answer tr) tr h }

  pub Triple-bind :
      {A B : Type 0} {R : A → Trace → Type 0} {S : B → Trace → Type 0} (m : Action A)
      (f : A → Action B)
      → Triple Q m R
      → ((a : A) → Triple (R a) (f a) S)
      → Triple Q (m >>= f) S
  unfolding ◌>>=◌
  Triple-bind m f km kf = record { at = λ tr h. (kf (m tr).0).at (m tr).1 (km.at tr h) }

  pub Triple-then :
      {A B : Type 0} {R : Trace → Type 0} {S : B → Trace → Type 0} (m : Action A) (k : Action B)
      → Triple Q m (λ _. R)
      → Triple R k S
      → Triple Q (m >> k) S
  unfolding ◌>>◌
  Triple-then m k km kk = record { at = λ tr h. kk.at (m tr).1 (km.at tr h) }

  -- An action that keeps the history's predicate, whatever it returns.
  pub Triple-keeps : {A : Type 0} {m : Action A} → Keeps Q m → Triple Q m (λ _. Q)
  Triple-keeps k = record { at = k.at }

  pub Keeps-triple : {A : Type 0} {m : Action A} → Triple Q m (λ _. Q) → Keeps Q m
  Keeps-triple k = record { at = k.at }

  -- A weaker end.
  pub Triple-weaken :
      {A : Type 0} {R S : A → Trace → Type 0} {m : Action A}
      → Triple Q m R
      → ((a : A) (tr : Trace) → R a tr → S a tr)
      → Triple Q m S
  Triple-weaken k w = record { at = λ tr h. w _ _ (k.at tr h) }

pub Triple-if :
    {Q : Trace → Type 0} {A : Type 0} {R : A → Trace → Type 0} (b : Bool) (m n : Action A)
    → (b ≡ true → Triple Q m R)
    → (b ≡ false → Triple Q n R)
    → Triple Q (if b then m else n) R
Triple-if true m n km kn = km refl
Triple-if false m n km kn = kn refl

-- A stronger start.
pub Triple-strengthen :
    {P Q : Trace → Type 0} {A : Type 0} {R : A → Trace → Type 0} {m : Action A}
    → ((tr : Trace) → P tr → Q tr)
    → Triple Q m R
    → Triple P m R
Triple-strengthen k t = record { at = λ tr h. t.at tr (k tr h) }

-- On an error the history has what the failed call left, otherwise what it left on success.
pub Triple-on_error :
    {E A B : Type 0} (R : Result E A → Trace → Type 0) {S : B → Trace → Type 0} (r : Result E A)
    (handler : E → Action B) (rest : A → Action B)
    → ((e : E) → r ≡ err e → Triple (R (err e)) (handler e) S)
    → ((a : A) → r ≡ ok a → Triple (R (ok a)) (rest a) S)
    → Triple (R r) (on_error r handler rest) S
unfolding on_error
Triple-on_error R (ok a) handler rest kh kr = kr a refl
Triple-on_error R (err e) handler rest kh kr = kh e refl

-- The calls by which a reconciler reads: they change nothing.
abbrev pub IsRead : Call → Type 0
IsRead (Call.fetched _ _) = Unit
IsRead (Call.secret_fetched _) = Unit
IsRead Call.clock_read = Unit
IsRead (Call.environment_read _) = Unit
IsRead (Call.pinged _ _ _) = Unit
IsRead (Call.topics_listed _ _ _) = Unit
IsRead _ = ⊥

-- The calls by which it connects and disconnects.
abbrev pub IsConnection : Call → Type 0
IsConnection (Call.client_created _ _) = Unit
IsConnection (Call.kgo_closed _) = Unit
IsConnection (Call.admin_closed _) = Unit
IsConnection _ = ⊥

-- What no kind of read breaks, no read breaks; and what no kind of connection breaks.
pub read_cases :
    (Q : Trace → Type 0)
    → ((k : Kind) (n : NamespacedName) (tr : Trace) → Q tr → Q (Call.fetched k n ∷ tr))
    → ((n : NamespacedName) (tr : Trace) → Q tr → Q (Call.secret_fetched n ∷ tr))
    → ((tr : Trace) → Q tr → Q (Call.clock_read ∷ tr))
    → ((name : String) (tr : Trace) → Q tr → Q (Call.environment_read name ∷ tr))
    → ((h : Handle) (d : ℕ) (r : Result Fault ⊤) (tr : Trace) → Q tr → Q (Call.pinged h d r ∷ tr))
    → ((h : Handle) (names : List String) (r : Result Fault (List (String × TopicDetail)))
          (tr : Trace)
        → Q tr
        → Q (Call.topics_listed h names r ∷ tr))
    → (c : Call) → IsRead c
    → (tr : Trace) → Q tr
    → Q (c ∷ tr)
read_cases Q f s t e p l (Call.fetched k n) r tr h = f k n tr h
read_cases Q f s t e p l (Call.secret_fetched n) r tr h = s n tr h
read_cases Q f s t e p l Call.clock_read r tr h = t tr h
read_cases Q f s t e p l (Call.environment_read name) r tr h = e name tr h
read_cases Q f s t e p l (Call.pinged i d a) r tr h = p i d a tr h
read_cases Q f s t e p l (Call.topics_listed i names a) r tr h = l i names a tr h
read_cases Q f s t e p l _ r tr h = absurd r

pub connection_cases :
    (Q : Trace → Type 0)
    → ((opts : List Opt) (r : Result Fault Handle) (tr : Trace)
        → Q tr
        → Q (Call.client_created opts r ∷ tr))
    → ((h : Handle) (tr : Trace) → Q tr → Q (Call.kgo_closed h ∷ tr))
    → ((h : Handle) (tr : Trace) → Q tr → Q (Call.admin_closed h ∷ tr))
    → (c : Call) → IsConnection c
    → (tr : Trace) → Q tr
    → Q (c ∷ tr)
connection_cases Q o k a (Call.client_created opts r) x tr h = o opts r tr h
connection_cases Q o k a (Call.kgo_closed i) x tr h = k i tr h
connection_cases Q o k a (Call.admin_closed i) x tr h = a i tr h
connection_cases Q o k a _ x tr h = absurd x

-- A predicate of the history that no read breaks; one that no connection breaks.
pub record Ignores (Q : Trace → Type 0) : Type 0 where
  pub read : (c : Call) → IsRead c → (tr : Trace) → Q tr → Q (c ∷ tr)

pub record IgnoresConnections (Q : Trace → Type 0) : Type 0 where
  pub connection : (c : Call) → IsConnection c → (tr : Trace) → Q tr → Q (c ∷ tr)
