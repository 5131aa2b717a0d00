-- ===== src/Cmd/Options.antt =====
-- cmd/main.go: the flags, and the options of the servers and of the manager that they give.
use bufstream_operator.Prelude.{
  true, false, not, none, some, List, [], ◌∷◌, ◌++◌, str_eq, if◌then◌else◌,
}
use bufstream_operator.Process.{
  TlsOption, WebhookOptions, MetricsOptions, ManagerOptions, Flags,
  with_authentication_and_authorization,
}

-- The defaults of the flags.
abbrev pub default_flags : Flags
default_flags = record {
  metrics_addr = "0";
  probe_addr = ":8081";
  enable_leader_election = false;
  secure_metrics = true;
  webhook_cert_path = "";
  webhook_cert_name = "tls.crt";
  webhook_cert_key = "tls.key";
  metrics_cert_path = "";
  metrics_cert_name = "tls.crt";
  metrics_cert_key = "tls.key";
  enable_http2 = false;
}

unfoldable pub disable_http2 : TlsOption
disable_http2 c = record c { next_protos = "http/1.1" ∷ [] }

unfoldable pub tls_opts : Flags → List TlsOption
tls_opts flags = if not flags.enable_http2 then [] ++ (disable_http2 ∷ []) else []

unfoldable pub webhook_server_options : Flags → WebhookOptions
unfolding tls_opts
webhook_server_options flags =
    let options : WebhookOptions = record {
      tls_opts = tls_opts flags;
      cert_dir = "";
      cert_name = "";
      key_name = "";
    } in
    if not (str_eq flags.webhook_cert_path "")
    then record options {
      cert_dir = flags.webhook_cert_path;
      cert_name = flags.webhook_cert_name;
      key_name = flags.webhook_cert_key;
    }
    else options

-- The options of the metrics server before the certificate is looked at.
unfoldable pub guarded_metrics_options : Flags → MetricsOptions
guarded_metrics_options flags =
    let options : MetricsOptions = record {
      bind_address = flags.metrics_addr;
      secure_serving = flags.secure_metrics;
      tls_opts = tls_opts flags;
      filter_provider = none;
      cert_dir = "";
      cert_name = "";
      key_name = "";
    } in
    if flags.secure_metrics
    then record options { filter_provider = some with_authentication_and_authorization }
    else options

unfoldable pub metrics_server_options : Flags → MetricsOptions
metrics_server_options flags =
    let options = guarded_metrics_options flags in
    if not (str_eq flags.metrics_cert_path "")
    then record options {
      cert_dir = flags.metrics_cert_path;
      cert_name = flags.metrics_cert_name;
      key_name = flags.metrics_cert_key;
    }
    else options

unfoldable pub manager_options : Flags → ManagerOptions
manager_options flags = record {
  metrics = metrics_server_options flags;
  webhook_server = webhook_server_options flags;
  health_probe_bind_address = flags.probe_addr;
  leader_election = flags.enable_leader_election;
  leader_election_id = "fff71bb6.buf.build";
}
