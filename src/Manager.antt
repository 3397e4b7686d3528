-- ===== src/Manager.antt =====
-- cmd/main.go: the manager binary, from the command line to the end of the manager.
pub mod Startup
use cnpg_ha.Base.{
  String, Bool, true, false, not, Option, none, some, List, [], ◌∷◌, ◌==◌, if◌then◌else◌,
}
use cnpg_ha.Base.Exec.{Result, ok, err, Exec, modify, ◌>>=◌, ◌>>◌}
use cnpg_ha.Metrics.{Collector, registered}

-- What package flag has parsed: the values that the command line gives, by the name of the flag.
pub record CommandLine : Type 0 where
  pub text : String → Option String
  pub switch : String → Option Bool

abbrev pub or_text : String → Option String → String
or_text d none = d
or_text d (some s) = s

abbrev pub or_switch : Bool → Option Bool → Bool
or_switch d none = d
or_switch d (some b) = b

-- The variables of main that flags set.
pub record Options : Type 0 where
  pub metrics_addr : String
  pub probe_addr : String
  pub enable_leader_election : Bool
  pub secure_metrics : Bool
  pub webhook_cert_path : String
  pub webhook_cert_name : String
  pub webhook_cert_key : String
  pub metrics_cert_path : String
  pub metrics_cert_name : String
  pub metrics_cert_key : String
  pub enable_http2 : Bool

unfoldable pub options_of : CommandLine → Options
options_of line = record {
  metrics_addr = or_text "0" (line.text "metrics-bind-address");
  probe_addr = or_text ":8081" (line.text "health-probe-bind-address");
  enable_leader_election = or_switch false (line.switch "leader-elect");
  secure_metrics = or_switch true (line.switch "metrics-secure");
  webhook_cert_path = or_text "" (line.text "webhook-cert-path");
  webhook_cert_name = or_text "tls.crt" (line.text "webhook-cert-name");
  webhook_cert_key = or_text "tls.key" (line.text "webhook-cert-key");
  metrics_cert_path = or_text "" (line.text "metrics-cert-path");
  metrics_cert_name = or_text "tls.crt" (line.text "metrics-cert-name");
  metrics_cert_key = or_text "tls.key" (line.text "metrics-cert-key");
  enable_http2 = or_switch false (line.switch "enable-http2");
}

-- tls.Config, as far as it is changed.
pub record TlsConfig : Type 0 where
  pub next_protos : List String

unfoldable pub disable_http2 : TlsConfig → TlsConfig
disable_http2 c = record c { next_protos = "http/1.1" ∷ [] }

unfoldable pub tls_opts : Options → List (TlsConfig → TlsConfig)
unfolding disable_http2
tls_opts o = if not o.enable_http2 then disable_http2 ∷ [] else []

-- The three fields of a server's options that name its certificate.
pub record CertFiles : Type 0 where
  pub cert_dir : String
  pub cert_name : String
  pub key_name : String

abbrev pub cert_files : String → String → String → CertFiles
cert_files path name key =
    if not (path == "")
    then record { cert_dir = path; cert_name = name; key_name = key }
    else record { cert_dir = ""; cert_name = ""; key_name = "" }

-- webhook.Options.
pub record WebhookOptions : Type 0 where
  pub tls_opts : List (TlsConfig → TlsConfig)
  pub certificate : CertFiles

unfoldable pub webhook_server_options : Options → WebhookOptions
webhook_server_options o = record {
  tls_opts = tls_opts o;
  certificate = cert_files o.webhook_cert_path o.webhook_cert_name o.webhook_cert_key;
}

-- metricsserver.Options; the filter is WithAuthenticationAndAuthorization, or none.
pub record MetricsOptions : Type 0 where
  pub bind_address : String
  pub secure_serving : Bool
  pub tls_opts : List (TlsConfig → TlsConfig)
  pub has_filter : Bool
  pub certificate : CertFiles

unfoldable pub metrics_server_options : Options → MetricsOptions
metrics_server_options o = record {
  bind_address = o.metrics_addr;
  secure_serving = o.secure_metrics;
  tls_opts = tls_opts o;
  has_filter = o.secure_metrics;
  certificate = cert_files o.metrics_cert_path o.metrics_cert_name o.metrics_cert_key;
}

-- ctrl.Options.
pub record ManagerOptions : Type 0 where
  pub metrics : MetricsOptions
  pub webhook : WebhookOptions
  pub health_probe_bind_address : String
  pub leader_election : Bool
  pub leader_election_id : String

unfoldable pub manager_options : Options → ManagerOptions
unfolding webhook_server_options metrics_server_options
manager_options o = record {
  metrics = metrics_server_options o;
  webhook = webhook_server_options o;
  health_probe_bind_address = o.probe_addr;
  leader_election = o.enable_leader_election;
  leader_election_id = "245db9a3.ha.cnpg.io";
}

-- controller-runtime: its managers, and what main calls of them. Host is all that they act on.
pub record Runtime : Type 1 where
  pub Host : Type 0
  pub Manager : Type 0
  pub new_manager : ManagerOptions → Exec Host Manager
  pub register : List Collector → Host → Host
  -- SetupWithManager of a reconciler with the manager's client and the recorder of this name.
  pub set_up_controller : String → Manager → Exec Host (Unit {0})
  pub add_healthz_check : String → Manager → Exec Host (Unit {0})
  pub add_readyz_check : String → Manager → Exec Host (Unit {0})
  pub start : Manager → Exec Host (Unit {0})

module _ (rt : Runtime) where
  open rt use {Host, Manager}

  -- From the manager on; every error makes the process exit with 1.
  unfoldable pub set_up_and_start : Manager → Exec Host (Unit {0})
  set_up_and_start mgr = do
    modify (rt.register registered)
    rt.set_up_controller "hacluster-controller" mgr
    rt.add_healthz_check "healthz" mgr
    rt.add_readyz_check "readyz" mgr
    rt.start mgr

  unfoldable pub run_manager : Options → Exec Host (Unit {0})
  unfolding manager_options set_up_and_start
  run_manager o = do mgr ← rt.new_manager (manager_options o); set_up_and_start mgr

  unfoldable pub main : CommandLine → Exec Host (Unit {0})
  unfolding run_manager options_of
  main line = run_manager (options_of line)
