-- ===== src/Outside/Action.antt =====
-- An action takes the calls made so far, and returns its value with the calls made then. A Go
-- function that can fail returns a `Result` as its value. The operators are shut: what a proof
-- needs of them are the rules of Outside/Hoare, and a test names them on its `unfolding` line.
use bufstream_operator.Prelude.{◌∷◌, Option, none, some, ⊤, Result, ok, err}
use bufstream_operator.Outside.{Trace, Call}

abbrev pub Action : Type 0 → Type 0
Action A = Trace → A × Trace

unfoldable pub pure : {A : Type 0} → A → Action A
pure a tr = (a, tr)

infixl 5 ◌>>=◌ ◌>>◌
unfoldable pub ◌>>=◌ : {A B : Type 0} → Action A → (A → Action B) → Action B
◌>>=◌ m f tr = let (a, tr') = m tr in f a tr'

unfoldable pub ◌>>◌ : {A B : Type 0} → Action A → Action B → Action B
◌>>◌ m k tr = k (m tr).1

-- `if err != nil { return … }` and what follows it.
unfoldable pub on_error : {E A B : Type 0} → Result E A → (E → Action B) → (A → Action B) → Action B
on_error (err e) handler rest = handler e
on_error (ok a) handler rest = rest a

-- `if p == nil { … } else { … }`
unfoldable pub on_option : {A B : Type 0} → Option A → Action B → (A → Action B) → Action B
on_option none missing rest = missing
on_option (some a) missing rest = rest a

-- A call whose answer may depend on the calls before it.
unfoldable pub ask : {A : Type 0} → (Trace → A) → (A → Call) → Action A
ask answer shown_as tr = let a = answer tr in (a, shown_as a ∷ tr)

-- A call with no answer.
unfoldable pub called : Call → Action ⊤
called c tr = (tt, c ∷ tr)
