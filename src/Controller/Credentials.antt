-- ===== src/Controller/Credentials.antt =====
-- Which credentials a secret gives.
use bufstream_operator.Prelude.{
  ◌≡◌, ◌↔◌, ◌⊎◌, String, none, some, ok, arith, inl, inr, Option-cases,
}
use bufstream_operator.Outside.{Secret}
use bufstream_operator.Bufstream.Client.{SaslConfig, scram_sha512}
use bufstream_operator.Controller.Helpers.{secret_entry, credentials_in}

-- The secret gives these credentials: its `username`, its `password` or, if it has none, its
-- `plaintext`, and SCRAM-SHA-512.
abbrev pub Gives : Secret → SaslConfig → Type 0
Gives secret c =
    (secret_entry "username" secret ≡ some c.username)
    × ((secret_entry "password" secret ≡ some c.password)
        ⊎ ((secret_entry "password" secret ≡ none)
            × (secret_entry "plaintext" secret ≡ some c.password)))
    × (c.mechanism ≡ scram_sha512)

-- `GetAdminCredentials` returns credentials exactly where the secret gives them, and never returns
-- nil once there is a secret.
pub credentials_in_iff :
    (name : String) (secret : Secret) (c : SaslConfig)
    → (credentials_in name secret ≡ ok (some c)) ↔ Gives secret c
unfolding credentials_in
credentials_in_iff name secret c = (
  λ h. elim (Option-cases (secret_entry "username" secret)) [
    | inl e ↦ absurd (ground (arith, e, h))
    | inr (u, e) ↦ elim (Option-cases (secret_entry "password" secret)) [
      | inl f ↦ elim (Option-cases (secret_entry "plaintext" secret)) [
        | inl g ↦ absurd (ground (arith, e, f, g, h))
        | inr (p, g) ↦ (
          ground (arith, e, f, g, h),
          inr (f, ground (arith, e, f, g, h)),
          ground (arith, e, f, g, h),
        )
      ]
      | inr (p, f) ↦
          (ground (arith, e, f, h), inl (ground (arith, e, f, h)), ground (arith, e, f, h))
    ]
  ],
  λ h. ground (arith, h),
)
