-- ===== src/Process/Run.antt =====
-- A run of the program takes the steps taken so far, the latest first, and returns its value or the
-- code with which the process ends, with the steps taken then.
use bufstream_operator.Prelude.{ℕ, List, ◌∷◌, ⊤, Result, ok, err}
use bufstream_operator.Api.Meta.{Fault}
use bufstream_operator.Process.{Step}

abbrev pub Run : Type 0 → Type 0
Run A = List Step → Result ℕ A × List Step

-- What follows a step that did not end the process.
unfoldable pub proceed :
    {A B : Type 0} → Result ℕ A × List Step → (A → Run B) → Result ℕ B × List Step
proceed (ok a, tr) f = f a tr
proceed (err code, tr) f = (err code, tr)

infixl 5 ◌>>=◌ ◌>>◌
unfoldable pub ◌>>=◌ : {A B : Type 0} → Run A → (A → Run B) → Run B
m >>= f = λ tr. proceed (m tr) f

unfoldable pub ◌>>◌ : {A B : Type 0} → Run A → Run B → Run B
m >> k = λ tr. proceed (m tr) (λ _. k)

-- A value that needs no step, or the end of the process.
unfoldable pub given : {A : Type 0} → Result ℕ A → Run A
given r tr = (r, tr)

-- A call, with its answer.
unfoldable pub ask : (List Step → Result Fault ⊤) → (Result Fault ⊤ → Step) → Run (Result Fault ⊤)
ask answer shown_as tr = let r = answer tr in (ok r, shown_as r ∷ tr)

-- `if err != nil { os.Exit(code) }`
unfoldable pub exit_on_error : ℕ → Result Fault ⊤ → Run ⊤
exit_on_error code (ok a) tr = (ok tt, tr)
exit_on_error code (err e) tr = (err code, tr)

-- A call that can fail, and the test of its error.
unfoldable pub attempt : ℕ → Run (Result Fault ⊤) → Run ⊤
attempt code m = m >>= exit_on_error code
