-- ===== src/Bufstream/Client.antt =====
-- internal/bufstream/client.go: connecting, closing, and the health check. The constants of
-- ScramMechanism (internal/bufstream/user.go) stand here too, since the SASL options name them.
use bufstream_operator.Prelude.{
  ℕ, ◌*◌, String, List, [], ◌∷◌, ◌++◌, Option, none, some, ⊤, Result, ok, err, str_eq, ◌==◌,
  if◌then◌else◌,
}
use bufstream_operator.Api.Meta.{Error, foreign, wrapped, lit}
use bufstream_operator.Outside.{
  Outside, Call, Handle, Opt, seed_brokers, request_timeout_overhead, dev_mode_dialer, sasl,
  kadm_sha256, kadm_sha512,
}
use bufstream_operator.Outside.Action.{Action, pure, ◌>>=◌, ◌>>◌, on_error, called}
use bufstream_operator.Outside.Calls.{getenv, new_kgo_client, ping, list_topics}

-- An int8, of which the code names two values.
abbrev pub ScramMechanism : Type 0
ScramMechanism = ℕ

abbrev pub scram_sha256 : ScramMechanism
scram_sha256 = 1

abbrev pub scram_sha512 : ScramMechanism
scram_sha512 = 2

pub record SaslConfig : Type 0 where
  pub username : String
  pub password : String
  pub mechanism : ScramMechanism

-- Both pointers are set wherever a Client is made, so the tests on nil in `Close` pass.
pub record Client : Type 0 where
  pub kgo_client : Handle
  pub admin_client : Handle

abbrev pub second : ℕ
second = 1_000_000_000

abbrev pub connection_timeout : ℕ
connection_timeout = 10 * second

-- The switch on the mechanism.
unfoldable pub sasl_option : SaslConfig → Opt
sasl_option c =
    if c.mechanism == scram_sha256
    then sasl kadm_sha256 c.username c.password
    else if c.mechanism == scram_sha512
    then sasl kadm_sha512 c.username c.password
    else sasl kadm_sha512 c.username c.password

-- The options, of the value of BUFSTREAM_DEV_MODE, the servers and the credentials.
unfoldable pub client_options : String → String → Option SaslConfig → List Opt
client_options dev_mode bootstrap_servers sasl_config =
    let opts : List Opt =
      seed_brokers bootstrap_servers ∷ request_timeout_overhead (10 * second) ∷ [] in
    let opts : List Opt = if str_eq dev_mode "true" then opts ++ (dev_mode_dialer ∷ []) else opts in
    elim sasl_config [ none ↦ opts | some c ↦ opts ++ (sasl_option c ∷ []) ]

-- Client.Close
unfoldable pub close : Client → Action ⊤
close c = do called (Call.admin_closed c.admin_client); called (Call.kgo_closed c.kgo_client)

module _ (out : Outside) where
  unfoldable pub new_client : String → Option SaslConfig → Action (Result Error Client)
  new_client bootstrap_servers sasl_config = do
    dev_mode ← getenv out "BUFSTREAM_DEV_MODE"
    created ← new_kgo_client out (client_options dev_mode bootstrap_servers sasl_config)
    on_error created
        (λ e. pure (err (wrapped (lit "failed to create kafka client: " ∷ []) (foreign e))))
        λ h. do
          answer ← ping out h connection_timeout
          on_error answer
              (λ e. do
                called (Call.kgo_closed h)
                pure (err (wrapped (lit "failed to ping Bufstream: " ∷ []) (foreign e))))
              λ _. pure (ok (record { kgo_client = h; admin_client = h }))

  unfoldable pub check_health : Client → Action (Result Error ⊤)
  check_health c = do
    listed ← list_topics out c.admin_client []
    on_error listed (λ e. pure (err (wrapped (lit "health check failed: " ∷ []) (foreign e))))
        λ _. pure (ok tt)
