-- ===== src/Controller/Helpers.antt =====
-- internal/controller/cluster_helpers.go
use bufstream_operator.Prelude.{
  String, Bool, false, Option, none, some, Result, ok, err, [], ◌∷◌, str_eq, if◌then◌else◌,
}
use bufstream_operator.Api.Meta.{
  Error, foreign, formatted, wrapped, lit, quoted, Condition, condition_true,
}
use bufstream_operator.Api.Cluster.{Cluster, AdminCredentialsReference}
use bufstream_operator.Outside.{Outside, Secret}
use bufstream_operator.Outside.Action.{Action, pure, ◌>>=◌, on_error, on_option}
use bufstream_operator.Outside.Calls.{fetch_cluster, fetch_secret}
use bufstream_operator.Bufstream.Client.{SaslConfig, scram_sha512}
use bufstream_operator.Controller.Common.{type_ready}

-- `secret.Data[key]`
unfoldable pub secret_entry : String → Secret → Option String
secret_entry key [] = none
secret_entry key ((k, v) ∷ entries) = if str_eq k key then some v else secret_entry key entries

-- `readyCondition != nil && readyCondition.Status == metav1.ConditionTrue`
unfoldable pub is_true : Option Condition → Bool
is_true none = false
is_true (some c) = str_eq c.status condition_true

-- The namespace of the secret: the reference's, or else the cluster's.
unfoldable pub secret_namespace : AdminCredentialsReference → Cluster → String
secret_namespace ref cluster =
    if str_eq ref.namespace "" then cluster.metadata.namespace else ref.namespace

-- `GetAdminCredentials` from the secret on: `username`, then `password` or else `plaintext`.
unfoldable pub credentials_in : String → Secret → Result Error (Option SaslConfig)
credentials_in secret_name secret = elim (secret_entry "username" secret) [
  | none ↦ err (
      formatted (
        lit "admin credentials secret "
        ∷ quoted secret_name
        ∷ lit " does not contain 'username' key"
        ∷ []))
  | some username ↦ elim (secret_entry "password" secret) [
    | some password ↦
        ok (some (record { username = username; password = password; mechanism = scram_sha512 }))
    | none ↦ elim (secret_entry "plaintext" secret) [
      | some password ↦
          ok (some (record { username = username; password = password; mechanism = scram_sha512 }))
      | none ↦ err (
          formatted (
            lit "admin credentials secret "
            ∷ quoted secret_name
            ∷ lit " does not contain 'password' or 'plaintext' key"
            ∷ []))
    ]
  ]
]

module _ (out : Outside) where
  unfoldable pub get_cluster : String → String → Action (Result Error Cluster)
  get_cluster name namespace = do
    fetched ← fetch_cluster out (record { name = name; namespace = namespace })
    on_error fetched
        (λ e.
          pure (
            err (wrapped (lit "failed to get Cluster " ∷ quoted name ∷ lit ": " ∷ []) (foreign e))))
        λ cluster. pure (ok cluster)

  unfoldable pub is_cluster_ready : Cluster → Bool
  unfolding is_true
  is_cluster_ready cluster =
      is_true (out.find_status_condition cluster.status.conditions type_ready)

  -- The part of `GetAdminCredentials` that reads the secret of a reference.
  unfoldable pub referenced_credentials :
      AdminCredentialsReference → Cluster → Action (Result Error (Option SaslConfig))
  referenced_credentials ref cluster = do
    fetched ←
        fetch_secret out (record { name = ref.name; namespace = secret_namespace ref cluster })
    on_error fetched
        (λ e. pure (
          err (
            wrapped
              (lit "failed to get admin credentials secret " ∷ quoted ref.name ∷ lit ": " ∷ [])
              (foreign e))))
        λ secret. pure (credentials_in ref.name secret)

  -- `ok none` is `nil, nil`: no authentication is configured.
  unfoldable pub get_admin_credentials : Cluster → Action (Result Error (Option SaslConfig))
  get_admin_credentials cluster =
      on_option cluster.spec.admin_credentials_ref (pure (ok none))
        (λ ref. referenced_credentials ref cluster)
