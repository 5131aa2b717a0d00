-- ===== src/Bufstream/DevMode/Redirects.antt =====
-- Which addresses the dialer of the development mode redirects.
use bufstream_operator.Prelude.{
  ℕ, ◌≡◌, refl, ap, ◌∙◌, Bool, true, false, ◌&&◌, ◌||◌, List, [], ◌∷◌, ◌++◌, map, arith, ◌==◌,
  if◌then◌else◌,
}
use bufstream_operator.Bufstream.DevMode.{
  codes, colon, to_lower, has_prefix, contains, split, local_part, dialed_address,
}

-- A part of an address between two colons.
abbrev pub NoColon : List ℕ → Type 0
NoColon [] = Unit
NoColon (c ∷ s) = ((c == colon) ≡ false) × NoColon s

abbrev pub NoColons : List (List ℕ) → Type 0
NoColons [] = Unit
NoColons (s ∷ ss) = NoColon s × NoColons ss

-- The parts with a colon before each but the first one.
abbrev pub join : List ℕ → List (List ℕ) → List ℕ
join part [] = part
join part (next ∷ parts) = part ++ (colon ∷ join next parts)

abbrev same : List ℕ → List ℕ → Bool
same [] [] = true
same [] (d ∷ t) = false
same (c ∷ s) [] = false
same (c ∷ s) (d ∷ t) = let rest = same s t in c == d && rest

abbrev pub ends_with : List ℕ → List ℕ → Bool
ends_with [] t = same [] t
ends_with (c ∷ s) t = let rest = ends_with s t in same (c ∷ s) t || rest

-- Where a part and its port go: a name in the cluster, in upper or lower case, to localhost, all
-- else to itself.
abbrev pub redirected : List ℕ → List (List ℕ) → List ℕ
redirected host (port ∷ []) =
    if ends_with (map to_lower host) (codes ".svc.cluster.local")
    then codes "localhost:" ++ port
    else join host (port ∷ [])
redirected host ports = join host ports

has_prefix-colon :
    (h p t : List ℕ)
    → NoColon h
    → NoColon t
    → has_prefix (h ++ (colon ∷ p)) (t ++ (colon ∷ [])) ≡ same h t
unfolding has_prefix
has_prefix-colon [] p [] nh nt = refl
has_prefix-colon [] p (d ∷ t) nh (nd, nt) = ground (arith, nd)
has_prefix-colon (c ∷ h) p [] (nc, nh) nt = ground (arith, nc)
has_prefix-colon (c ∷ h) p (d ∷ t) (nc, nh) (nd, nt) =
    ap (λ b. c == d && b) (has_prefix-colon h p t nh nt)

has_prefix-NoColon : (s t : List ℕ) → NoColon s → has_prefix s (t ++ (colon ∷ [])) ≡ false
unfolding has_prefix
has_prefix-NoColon [] [] n = refl
has_prefix-NoColon [] (d ∷ t) n = refl
has_prefix-NoColon (c ∷ s) [] (nc, n) = ground (arith, nc)
has_prefix-NoColon (c ∷ s) (d ∷ t) (nc, n) =
    let rest = has_prefix-NoColon s t n in ground (arith, rest)

contains-NoColon : (s t : List ℕ) → NoColon s → contains s (t ++ (colon ∷ [])) ≡ false
unfolding contains
contains-NoColon [] t n = has_prefix-NoColon [] t n
contains-NoColon (c ∷ s) t (nc, n) =
    rw (has_prefix-NoColon (c ∷ s) t (nc, n), contains-NoColon s t n) refl

or_false : (b : Bool) → (b || false) ≡ b
or_false true = refl
or_false false = refl

-- In a host and a port, a name with a colon after it is found where the host ends with the name.
contains-ends_with :
    (h p t : List ℕ)
    → NoColon h
    → NoColon p
    → NoColon t
    → contains (h ++ (colon ∷ p)) (t ++ (colon ∷ [])) ≡ ends_with h t
unfolding contains
contains-ends_with [] p t nh np nt =
    rw (has_prefix-colon [] p t nh nt, contains-NoColon p t np) (or_false (same [] t))
contains-ends_with (c ∷ h) p t (nc, nh) np nt =
    rw (has_prefix-colon (c ∷ h) p t (nc, nh) nt, contains-ends_with h p t nh np nt) refl

lower-colon : (s : List ℕ) → NoColon s → NoColon (map to_lower s)
unfolding to_lower
lower-colon [] n = tt
lower-colon (c ∷ s) (nc, n) = (ground (arith, nc), lower-colon s n)

map-++ : (s t : List ℕ) → map to_lower (s ++ t) ≡ map to_lower s ++ map to_lower t
map-++ [] t = refl
map-++ (c ∷ s) t = ap (λ r. to_lower c ∷ r) (map-++ s t)

lower-join :
    (h p : List ℕ) → map to_lower (join h (p ∷ [])) ≡ map to_lower h ++ (colon ∷ map to_lower p)
unfolding to_lower
lower-join h p = map-++ h (colon ∷ p)

split-part : (s : List ℕ) → NoColon s → split s ≡ (s, [])
unfolding split
split-part [] n = refl
split-part (c ∷ s) (nc, n) = rw (nc, split-part s n) refl

split-++ :
    (s rest : List ℕ)
    → NoColon s
    → split (s ++ (colon ∷ rest)) ≡ (s, (split rest).0 ∷ (split rest).1)
unfolding split
split-++ [] rest n = refl
split-++ (c ∷ s) rest (nc, n) = rw (nc, split-++ s rest n) refl

-- Splitting takes a joined address apart.
split-join :
    (part : List ℕ) (parts : List (List ℕ))
    → NoColon part
    → NoColons parts
    → split (join part parts) ≡ (part, parts)
split-join part [] n ns = split-part part n
split-join part (next ∷ parts) n (m, ns) =
    split-++ part (join next parts) n ∙ rw (split-join next parts m ns) refl

cluster_dns-NoColon : NoColon (codes ".svc.cluster.local")
cluster_dns-NoColon = search tt depth 30

if_same : (b : Bool) (s : List ℕ) → (if b then s else s) ≡ s
if_same true s = refl
if_same false s = refl

in_cluster :
    (h p : List ℕ)
    → NoColon h
    → NoColon p
    → contains (map to_lower (join h (p ∷ []))) (codes ".svc.cluster.local:")
      ≡ ends_with (map to_lower h) (codes ".svc.cluster.local")
in_cluster h p nh np =
    ap (λ s. contains s (codes ".svc.cluster.local:")) (lower-join h p)
    ∙ contains-ends_with (map to_lower h) (map to_lower p) (codes ".svc.cluster.local")
        (lower-colon h nh) (lower-colon p np) cluster_dns-NoColon

-- An address of a name and a port goes to that port of localhost exactly where the name ends with
-- .svc.cluster.local, in upper or lower case; each other address, with no colon or with several, as
-- an IPv6 address has, is dialed as it is. An address is given by its parts between the colons.
pub dialed_address-redirected :
    (part : List ℕ) (parts : List (List ℕ))
    → NoColon part
    → NoColons parts
    → dialed_address (join part parts) ≡ redirected part parts
unfolding dialed_address local_part
dialed_address-redirected part [] n ns = rw (split-join part [] n ns) (if_same _ part)
dialed_address-redirected part (port ∷ []) n ns = rw (split-join part (port ∷ []) n ns) (
    ap (λ b. if b then codes "localhost:" ++ port else join part (port ∷ []))
      (in_cluster part port n ns.0))
dialed_address-redirected part (port ∷ more ∷ parts) n ns =
    rw (split-join part (port ∷ more ∷ parts) n ns) (if_same _ (join part (port ∷ more ∷ parts)))
