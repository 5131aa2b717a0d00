-- ===== src/Bufstream/DevMode.antt =====
-- internal/bufstream/client.go: `devModeDialer`. A network address is the list of its code points,
-- since the code walks it; on what it looks for, ToLower only matters for the letters A to Z.
pub mod Redirects
use Prim.Native.Char.{code}
use bufstream_operator.Prelude.{
  ℕ, ◌+◌, ◌*◌, String, Bool, true, false, ◌&&◌, ◌||◌, List, [], ◌∷◌, ◌++◌, map, leb, ◌==◌,
  if◌then◌else◌,
}
use bufstream_operator.Bufstream.Client.{second}

-- The code points of a literal.
abbrev pub codes : String → List ℕ
codes String.[] = []
codes (String.◌∷◌ c s) = code c ∷ codes s

abbrev pub colon : ℕ
colon = 58

-- strings.ToLower on one code point
unfoldable pub to_lower : ℕ → ℕ
to_lower c = if leb 65 c && leb c 90 then c + 32 else c

-- strings.HasPrefix and strings.Contains
unfoldable pub has_prefix : List ℕ → List ℕ → Bool
has_prefix s [] = true
has_prefix [] (d ∷ t) = false
has_prefix (c ∷ s) (d ∷ t) = let rest = has_prefix s t in c == d && rest

unfoldable pub contains : List ℕ → List ℕ → Bool
contains [] t = has_prefix [] t
contains (c ∷ s) t = let rest = contains s t in has_prefix (c ∷ s) t || rest

-- strings.Split at a colon: one part, and the list of the others.
unfoldable pub split : List ℕ → List ℕ × List (List ℕ)
split [] = ([], [])
split (c ∷ s) =
    let (part, parts) = split s in if c == colon then ([], part ∷ parts) else (c ∷ part, parts)

-- `"localhost:" + parts[1]`, where there are two parts
unfoldable pub local_part : List ℕ → List (List ℕ) → List ℕ
local_part address (port ∷ []) = codes "localhost:" ++ port
local_part address _ = address

-- The address that is dialed.
unfoldable pub dialed_address : List ℕ → List ℕ
unfolding local_part
dialed_address address =
    if contains (map to_lower address) (codes ".svc.cluster.local:")
    then local_part address (split address).1
    else address

-- The dialer's function, of DialContext with the timeout of the dialer.
unfoldable pub dev_mode_dial : {A : Type 0} → (ℕ → List ℕ → List ℕ → A) → List ℕ → List ℕ → A
dev_mode_dial dial_context network address =
    dial_context (5 * second) network (dialed_address address)
