-- ===== src/Entry/Options.antt =====
-- The flags of cmd/main.go and the options that it makes of them.
use homelab_autoscaler.Prelude.{
  String, ◌≡◌, refl, Bool, true, false, not, Option, none, some, List, [], ◌∷◌, str_eq,
  if◌then◌else◌,
}

-- The flags but for those of the logger. The TLS options are functions on the configuration.
pub record Flags : Type 0 where
  pub metrics_addr : String
  pub metrics_cert_path : String
  pub metrics_cert_name : String
  pub metrics_cert_key : String
  pub webhook_cert_path : String
  pub webhook_cert_name : String
  pub webhook_cert_key : String
  pub enable_leader_election : Bool
  pub probe_addr : String
  pub secure_metrics : Bool
  pub enable_http2 : Bool
  pub enable_grpc_server : Bool
  pub grpc_server_addr : String

unfoldable pub default_flags : Flags
default_flags = record {
  metrics_addr = "0";
  metrics_cert_path = "";
  metrics_cert_name = "tls.crt";
  metrics_cert_key = "tls.key";
  webhook_cert_path = "";
  webhook_cert_name = "tls.crt";
  webhook_cert_key = "tls.key";
  enable_leader_election = false;
  probe_addr = ":8081";
  secure_metrics = false;
  enable_http2 = false;
  enable_grpc_server = true;
  grpc_server_addr = ":50051";
}

-- `tls.Config`, of which one field is set.
pub record TlsConfig : Type 0 where
  pub next_protos : List String

abbrev pub TlsOption : Type 0
TlsOption = TlsConfig → TlsConfig

unfoldable pub disable_http2 : TlsOption
disable_http2 c = record { next_protos = "http/1.1" ∷ [] }

unfoldable pub tls_options : Flags → List TlsOption
tls_options flags = if flags.enable_http2 then [] else disable_http2 ∷ []

-- The files of a certificate, where they are given.
pub record Certificate : Type 0 where
  pub cert_dir : String
  pub cert_name : String
  pub key_name : String

-- `if len(path) > 0`
unfoldable pub certificate_of : String → String → String → Option Certificate
certificate_of path name key =
    if str_eq path ""
    then none
    else some (record { cert_dir = path; cert_name = name; key_name = key })

pub record WebhookOptions : Type 0 where
  pub tls : List TlsOption
  pub certificate : Option Certificate

pub record MetricsOptions : Type 0 where
  pub bind_address : String
  pub secure_serving : Bool
  pub tls : List TlsOption
  pub filtered : Bool
  pub certificate : Option Certificate

pub record ManagerOptions : Type 0 where
  pub metrics : MetricsOptions
  pub health_probe_bind_address : String
  pub leader_election : Bool
  pub leader_election_id : String
  pub webhook_server : Option WebhookOptions

unfoldable pub webhooks_enabled : String → Bool
webhooks_enabled env = not (str_eq env "false")

unfoldable pub webhook_options : Flags → String → Option WebhookOptions
unfolding webhooks_enabled tls_options certificate_of
webhook_options flags env =
    if webhooks_enabled env
    then some (record {
      tls = tls_options flags;
      certificate =
          certificate_of flags.webhook_cert_path flags.webhook_cert_name flags.webhook_cert_key;
    })
    else none

unfoldable pub metrics_options : Flags → MetricsOptions
unfolding tls_options certificate_of
metrics_options flags = record {
  bind_address = "0.0.0.0:8001";
  secure_serving = flags.secure_metrics;
  tls = tls_options flags;
  filtered = flags.secure_metrics;
  certificate =
      certificate_of flags.metrics_cert_path flags.metrics_cert_name flags.metrics_cert_key;
}

unfoldable pub manager_options : Flags → String → ManagerOptions
unfolding metrics_options webhook_options
manager_options flags env = record {
  metrics = metrics_options flags;
  health_probe_bind_address = flags.probe_addr;
  leader_election = flags.enable_leader_election;
  leader_election_id = "1076db86.homecluster.dev";
  webhook_server = webhook_options flags env;
}

-- What is left of a configuration that the options were applied to.
abbrev pub configured : List TlsOption → TlsConfig → TlsConfig
configured [] c = c
configured (f ∷ fs) c = configured fs (f c)

abbrev pub webhook_tls : Option WebhookOptions → List TlsOption
webhook_tls none = []
webhook_tls (some o) = o.tls

-- Without the flag for it HTTP/2 is off: whatever the TLS configuration was, the metrics server and,
-- where the webhooks are enabled, the webhook server offer HTTP/1.1 alone.
pub http2_disabled :
    (flags : Flags) (env : String) (c d : TlsConfig)
    → flags.enable_http2 ≡ false
    → webhooks_enabled env ≡ true
    → ((configured (manager_options flags env).metrics.tls c).next_protos ≡ "http/1.1" ∷ [])
      × ((configured (webhook_tls (manager_options flags env).webhook_server) d).next_protos
          ≡ "http/1.1" ∷ [])
unfolding manager_options metrics_options webhook_options tls_options disable_http2
http2_disabled flags env c d off up = (rw off refl, rw (up, off) refl)
