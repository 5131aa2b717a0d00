-- ===== src/Process.antt =====
-- What cmd/main.go and the registration of the controllers call: the flag package and
-- controller-runtime, as a record of functions, the parameter `process` of the definitions that use
-- them. What is called gets the steps taken before, and may answer as it likes.
pub mod Run
use bufstream_operator.Prelude.{ℕ, String, Bool, Option, List, ⊤, Result}
use bufstream_operator.Api.Meta.{Fault}
use bufstream_operator.Outside.{Kind}

-- tls.Config, of which the program sets one field, and the functions that set it.
pub record TlsConfig : Type 0 where
  pub next_protos : List String

abbrev pub TlsOption : Type 0
TlsOption = TlsConfig → TlsConfig

-- webhook.Options
pub record WebhookOptions : Type 0 where
  pub tls_opts : List TlsOption
  pub cert_dir : String
  pub cert_name : String
  pub key_name : String

-- filters.WithAuthenticationAndAuthorization, the one filter that the program names
pub data FilterProvider : Type 0 where
  with_authentication_and_authorization : FilterProvider

-- metricsserver.Options
pub record MetricsOptions : Type 0 where
  pub bind_address : String
  pub secure_serving : Bool
  pub tls_opts : List TlsOption
  pub filter_provider : Option FilterProvider
  pub cert_dir : String
  pub cert_name : String
  pub key_name : String

-- ctrl.Options, with the options of the webhook server in place of the server.
pub record ManagerOptions : Type 0 where
  pub metrics : MetricsOptions
  pub webhook_server : WebhookOptions
  pub health_probe_bind_address : String
  pub leader_election : Bool
  pub leader_election_id : String

-- A controller: what it watches, its name, and the name under which it records events.
pub record Registration : Type 0 where
  pub watched : Kind
  pub name : String
  pub recorder : String

-- The variables that the flags set.
pub record Flags : Type 0 where
  pub metrics_addr : String
  pub metrics_cert_path : String
  pub metrics_cert_name : String
  pub metrics_cert_key : String
  pub webhook_cert_path : String
  pub webhook_cert_name : String
  pub webhook_cert_key : String
  pub enable_leader_election : Bool
  pub probe_addr : String
  pub secure_metrics : Bool
  pub enable_http2 : Bool

-- The two groups of types in the scheme.
pub data Group : Type 0 where
  client_go bufstream_v1alpha1 : Group

-- A call that can fail, with its answer.
pub data Step : Type 0 where
  group_added : Group → Result Fault ⊤ → Step
  config_loaded : Result Fault ⊤ → Step
  manager_created : ManagerOptions → Result Fault ⊤ → Step
  controller_completed : Registration → Result Fault ⊤ → Step
  healthz_added : String → Result Fault ⊤ → Step
  readyz_added : String → Result Fault ⊤ → Step
  manager_started : Result Fault ⊤ → Step

pub record Process : Type 0 where
  pub add_group : List Step → Group → Result Fault ⊤
  -- flag.Parse: the variables after it, from what they are by default, or the code with which it
  -- ends the process
  pub parse : Flags → Result ℕ Flags
  pub get_config : List Step → Result Fault ⊤
  pub new_manager : List Step → ManagerOptions → Result Fault ⊤
  pub complete : List Step → Registration → Result Fault ⊤
  pub add_healthz_check : List Step → String → Result Fault ⊤
  pub add_readyz_check : List Step → String → Result Fault ⊤
  pub start : List Step → Result Fault ⊤
