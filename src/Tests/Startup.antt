-- ===== src/Tests/Startup.antt =====
-- A bridge that starts with only what is required.
use harbor_workload_identity.Base.{true, false, ◌≡◌, [], none, some, ok, refl, if◌then◌else◌}
use harbor_workload_identity.Text.{Bytes, codes, text_eq}
use harbor_workload_identity.Controlplane.Settings.{load_from_env, settings}
use harbor_workload_identity.Controlplane.SettingChecks.{
  ParsedUrl, Parsers, LoadedConfig, default_token_max_lifetime,
}
use harbor_workload_identity.Controlplane.Settings.Usable.{IsUsable, load_from_env-IsUsable}

abbrev web : ParsedUrl
web = record { scheme = codes "https"; host = codes "h"; has_user = false; tail = [] }

abbrev parsers : Parsers
parsers = record {
  parse_url = λ s. some web;
  parse_bool = λ s. none;
  parse_duration = λ s. none;
  parse_selector = λ s. none;
}

abbrev required_only : Bytes → Bytes
required_only name =
    if text_eq name (codes "BRIDGE_CLUSTER_NAME")
    then codes "prod"
    else if text_eq name (codes "BRIDGE_NAMESPACE")
    then codes "bridge"
    else if text_eq name (codes "BRIDGE_OIDC_ISSUER")
    then codes "https://h"
    else if text_eq name (codes "BRIDGE_HARBOR_URL")
    then codes "https://h"
    else if text_eq name (codes "BRIDGE_HARBOR_ADMIN_DIR")
    then codes "/admin"
    else if text_eq name (codes "BRIDGE_AUDIENCE")
    then codes "harbor"
    else []

abbrev loaded : LoadedConfig
loaded = record {
  cluster_name = codes "prod";
  namespace = codes "bridge";
  oidc_issuer = some web;
  oidc_jwks_url = none;
  oidc_ca_file = [];
  oidc_token_file = [];
  harbor_url = some web;
  harbor_admin_dir = codes "/admin";
  harbor_robot_prefix = codes "robot$";
  force_local_validation = true;
  log_level = codes "info";
  harbor_ca_file = [];
  harbor_allow_http = false;
  audience = codes "harbor";
  harbor_access_selector = none;
  instance_name = [];
  token_max_lifetime = default_token_max_lifetime;
  require_pod_bound_token = true;
}

loads : load_from_env parsers required_only ≡ ok loaded
unfolding load_from_env harbor_workload_identity.Controlplane.Settings.all_errors
    harbor_workload_identity.Controlplane.SettingChecks.label_errors settings
    harbor_workload_identity.Text.Split.trim_space text_eq harbor_workload_identity.Text.space_width
    harbor_workload_identity.Controlplane.SettingChecks.matches_cluster_name
    harbor_workload_identity.Controlplane.SettingChecks.label_from
    harbor_workload_identity.Controlplane.SettingChecks.is_lower_alnum
    harbor_workload_identity.Controlplane.SettingChecks.has_double_hyphen
    harbor_workload_identity.Controlplane.SettingChecks.require_url
    harbor_workload_identity.Text.has_byte
    harbor_workload_identity.Controlplane.Settings.audience_errors
    harbor_workload_identity.Controlplane.Settings.instance_errors
loads = refl

load_from_env-IsUsable_example : IsUsable loaded
load_from_env-IsUsable_example = load_from_env-IsUsable parsers required_only loaded loads
