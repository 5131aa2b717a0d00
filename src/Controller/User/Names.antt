-- ===== src/Controller/User/Names.antt =====
-- The name, the mechanism and the iterations of a user's credentials, said without `getUsername`,
-- `getMechanism` and the tests of `UpsertUserCredentials`.
use bufstream_operator.Prelude.{
  ◌≡◌, ◌≢◌, refl, String, ◌⊎◌, inl, inr, arith, eq_iff, str_eq, Bool-cases, List, [], ◌∷◌, true, ap,
}
use bufstream_operator.Prelude.Int.{ℤ, pos, negsuc, ◌==ℤ◌}
use bufstream_operator.Api.User.{User}
use bufstream_operator.Outside.{KadmMechanism, kadm_sha256, kadm_sha512, DeleteScram, UpsertScram}
use bufstream_operator.Bufstream.User.{kadm_mechanism, default_iterations}
use bufstream_operator.Controller.User.Base.{username, mechanism}

-- The name that the spec gives, and the resource's own where it gives none.
abbrev pub IsNameOf : User → String → Type 0
IsNameOf u name =
    ((u.spec.username ≢ "") × (name ≡ u.spec.username))
    ⊎ ((u.spec.username ≡ "") × (name ≡ u.metadata.name))

-- SHA-256 where the spec says so, and SHA-512 otherwise.
abbrev pub IsMechanismOf : User → KadmMechanism → Type 0
IsMechanismOf u m =
    ((u.spec.mechanism ≡ "SCRAM-SHA-256") × (m ≡ kadm_sha256))
    ⊎ ((u.spec.mechanism ≢ "SCRAM-SHA-256") × (m ≡ kadm_sha512))

-- The number that the spec gives, and 4096 where it gives none.
abbrev pub AreIterationsOf : User → ℤ → Type 0
AreIterationsOf u i =
    ((u.spec.iterations ≡ pos 0) × (i ≡ pos 4096))
    ⊎ ((u.spec.iterations ≢ pos 0) × (i ≡ u.spec.iterations))

-- The one deletion is that of the credentials of the user's name and mechanism.
abbrev pub IsDeletion : User → List DeleteScram → Type 0
IsDeletion u deletions =
    (d : DeleteScram) × (deletions ≡ d ∷ []) × IsNameOf u d.user × IsMechanismOf u d.mechanism

-- The one upsert is that of the user's name, mechanism and iterations, with some password.
abbrev pub IsUpsert : User → List UpsertScram → Type 0
IsUpsert u upserts =
    (s : UpsertScram) × (upserts ≡ s ∷ [])
    × IsNameOf u s.user
    × IsMechanismOf u s.mechanism
    × AreIterationsOf u s.iterations

pub username-IsNameOf : (u : User) → IsNameOf u (username u)
unfolding username
username-IsNameOf u = elim (Bool-cases (str_eq u.spec.username "")) [
  | inl y ↦ inr (ground (arith, eq_iff u.spec.username "", y), rw y refl)
  | inr n ↦ inl (λ e. ground (arith, eq_iff u.spec.username "", n, e), rw n refl)
]

pub mechanism-IsMechanismOf : (u : User) → IsMechanismOf u (kadm_mechanism (mechanism u))
unfolding mechanism kadm_mechanism
mechanism-IsMechanismOf u = elim (Bool-cases (str_eq u.spec.mechanism "SCRAM-SHA-256")) [
  | inl y ↦ inl (ground (arith, eq_iff u.spec.mechanism "SCRAM-SHA-256", y), rw y refl)
  | inr n ↦
      inr (λ e. ground (arith, eq_iff u.spec.mechanism "SCRAM-SHA-256", n, e), rw n (ground arith))
]

pub default_iterations-AreIterationsOf :
    (u : User) → AreIterationsOf u (default_iterations (default_iterations u.spec.iterations))
unfolding default_iterations
default_iterations-AreIterationsOf u = elim (Bool-cases (u.spec.iterations ==ℤ pos 0)) [
  | inl y ↦ inl (zero_only u.spec.iterations y, rw y refl)
  | inr n ↦ inr (λ e. absurd (ground (arith, n, e)), rw (n, n) refl)
]
  where
    zero_only : (z : ℤ) → (z ==ℤ pos 0) ≡ true → z ≡ pos 0
    zero_only (pos k) h = ap pos (ground (arith, h))
    zero_only (negsuc k) h = absurd (ground (arith, h))
