-- ===== src/Bufstream/User/Lookup.antt =====
-- What `UserExists` answers.
use bufstream_operator.Prelude.{
  ◌≡◌, ◌≢◌, ◌↔◌, ◌⊎◌, refl, inl, inr, String, Bool, true, false, ◌&&◌, List, [], ◌∷◌, ok,
  Bool-cases, Result-cases, arith, eq_iff, str_eq, if◌then◌else◌,
}
use bufstream_operator.Outside.{Outside, Trace, ScramDescription, KadmMechanism}
use bufstream_operator.Outside.Action.{◌>>=◌, on_error, pure, ask}
use bufstream_operator.Bufstream.Client.{Client}
use bufstream_operator.Bufstream.User.{has_credentials, user_exists}

-- Some entry is of this user, with credentials for a mechanism.
abbrev pub Describes : String → List ScramDescription → Type 0
Describes name [] = ⊥
Describes name (r ∷ rs) = ((r.user ≡ name) × (r.cred_infos ≢ [])) ⊎ Describes name rs

-- One round of the loop.
round_iff :
    (user name : String) (infos : List KadmMechanism) (rest : Bool) {B : Type 0}
    → (rest ≡ true) ↔ B
    → ((if str_eq user name && (elim infos [ [] ↦ false | _ ∷ _ ↦ true ]) then true else rest)
        ≡ true)
      ↔ (((user ≡ name) × (infos ≢ [])) ⊎ B)
round_iff user name [] rest b = elim (Bool-cases (str_eq user name)) [
  | inl y ↦ (
    λ h. inr (b.0 (ground (arith, h))),
    λ h. elim h [ inl p ↦ absurd (p.1 refl) | inr d ↦ rw (y, b.1 d) refl ],
  )
  | inr y ↦ (
    λ h. inr (b.0 (ground (arith, h))),
    λ h. elim h [ inl p ↦ absurd (p.1 refl) | inr d ↦ rw (y, b.1 d) refl ],
  )
]
round_iff user name (m ∷ ms) rest b = elim (Bool-cases (str_eq user name)) [
  | inl y ↦ (λ h. inl ((eq_iff user name).0 y, λ e. absurd (ground (arith, e))), λ h. rw y refl)
  | inr y ↦ (
    λ h. inr (b.0 (ground (arith, h))),
    λ h. elim h [ inl p ↦ absurd (cc (y, (eq_iff user name).1 p.0)) | inr d ↦ rw (y, b.1 d) refl ],
  )
]

has_credentials-Describes :
    (name : String) (rs : List ScramDescription)
    → (has_credentials name rs ≡ true) ↔ Describes name rs
unfolding has_credentials
has_credentials-Describes name [] = (λ e. absurd (ground (arith, e)), λ h. absurd h)
has_credentials-Describes name (r ∷ rs) =
    round_iff r.user name r.cred_infos (has_credentials name rs) (has_credentials-Describes name rs)

-- `UserExists` answers true exactly where the brokers answer the description without an error and
-- some entry of it is of this user, with credentials for at least one mechanism.
pub user_exists-Describes :
    (out : Outside) (c : Client) (name : String) (tr : Trace)
    → ((user_exists out c name tr).0 ≡ ok true) ↔ (
        (rs : List ScramDescription) × (out.describe_user_scrams tr c.admin_client name ≡ ok rs)
        × Describes name rs)
unfolding user_exists ◌>>=◌ on_error pure ask
user_exists-Describes out c name tr =
    elim (Result-cases (out.describe_user_scrams tr c.admin_client name)) [
      | inl (rs, e) ↦ (
        λ h. (rs, e, (has_credentials-Describes name rs).0 (ground (arith, e, h))),
        λ (qs, f, d).
            let found = (has_credentials-Describes name qs).1 d in ground (arith, f, found),
      )
      | inr (f, e) ↦
          (λ h. absurd (ground (arith, e, h)), λ (qs, g, d). absurd (ground (arith, e, g)))
    ]
