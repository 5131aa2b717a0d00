-- ===== src/Cmd/Hardened.antt =====
-- What the flags make of the two servers.
use bufstream_operator.Prelude.{
  ◌≡◌, ◌↔◌, refl, Bool, true, false, some, none, List, [], ◌∷◌, not, arith, if◌then◌else◌,
}
use bufstream_operator.Process.{
  TlsConfig, TlsOption, ManagerOptions, Flags, with_authentication_and_authorization,
}
use bufstream_operator.Cmd.Options.{
  disable_http2, tls_opts, webhook_server_options, guarded_metrics_options, metrics_server_options,
  manager_options,
}

-- A server applies its TLS options to its configuration one after the other.
abbrev pub applied : List TlsOption → TlsConfig → TlsConfig
applied [] c = c
applied (f ∷ fs) c = applied fs (f c)

-- The configuration that is served with and without HTTP/2.
abbrev pub served : Bool → TlsConfig → TlsConfig
served true c = c
served false c = record { next_protos = "http/1.1" ∷ [] }

abbrev pub Hardened : Flags → TlsConfig → ManagerOptions → Type 0
Hardened flags c options =
    (applied options.webhook_server.tls_opts c ≡ served flags.enable_http2 c)
    × (applied options.metrics.tls_opts c ≡ served flags.enable_http2 c)
    × (options.metrics.secure_serving ≡ flags.secure_metrics)
    × ((options.metrics.filter_provider ≡ some with_authentication_and_authorization)
        ↔ (options.metrics.secure_serving ≡ true))

guard :
    (b : Bool)
    → ((if b then some with_authentication_and_authorization else none)
        ≡ some with_authentication_and_authorization)
      ↔ (b ≡ true)
guard true = (λ _. refl, λ _. refl)
guard false = (λ e. absurd (ground (arith, e)), λ e. absurd (ground (arith, e)))

module _ (flags : Flags) where
  tls_opts-served : (c : TlsConfig) → applied (tls_opts flags) c ≡ served flags.enable_http2 c
  unfolding tls_opts disable_http2
  tls_opts-served c =
      elim flags.enable_http2
        as (λ b. applied (if not b then disable_http2 ∷ [] else []) c ≡ served b c) [
          | true ↦ refl
          | false ↦ refl
        ]

  webhook-tls_opts : (webhook_server_options flags).tls_opts ≡ tls_opts flags
  unfolding webhook_server_options
  webhook-tls_opts = ground arith

  metrics-tls_opts : (metrics_server_options flags).tls_opts ≡ tls_opts flags
  unfolding metrics_server_options guarded_metrics_options
  metrics-tls_opts = ground arith

  metrics-secure : (metrics_server_options flags).secure_serving ≡ flags.secure_metrics
  unfolding metrics_server_options guarded_metrics_options
  metrics-secure = ground arith

  metrics-guarded :
      (metrics_server_options flags).filter_provider
      ≡ (if flags.secure_metrics then some with_authentication_and_authorization else none)
  unfolding metrics_server_options guarded_metrics_options
  metrics-guarded = ground arith

  -- Unless HTTP/2 is enabled, the webhook server and the metrics server offer HTTP/1.1 alone,
  -- whatever TLS configuration they start from, and where it is enabled they offer what that
  -- configuration does; the metrics are served securely as the flag has it, and the filter of
  -- authentication and authorization is set exactly where they are.
  pub manager_options-Hardened : (c : TlsConfig) → Hardened flags c (manager_options flags)
  unfolding manager_options
  manager_options-Hardened c = (
    rw webhook-tls_opts (tls_opts-served c),
    rw metrics-tls_opts (tls_opts-served c),
    metrics-secure,
    rw (metrics-guarded, metrics-secure) (guard flags.secure_metrics),
  )
