-- ===== src/Controlplane/Settings.antt =====
-- The loading of the configuration (`LoadFromEnv` and `requireURL` of bridge/controlplane/config.go).
pub mod Passed
pub mod Usable
use harbor_workload_identity.Base.{
  ℕ, ◌+◌, ◌*◌, Bool, true, false, not, ◌&&◌, ◌||◌, List, [], ◌∷◌, ◌++◌, Option, none, some, Result,
  ok, err, ◌==◌, ltb, leb, if◌then◌else◌, length, is_some,
}
use harbor_workload_identity.Base.Int.{ℤ, pos, ltb_ℤ}
use harbor_workload_identity.Text.{Bytes, codes, is_empty, text_eq, has_byte}
use harbor_workload_identity.Text.Split.{trim_space}
use harbor_workload_identity.Instant.{hour}
use harbor_workload_identity.HarborAccess.{Selector}
use harbor_workload_identity.Controlplane.SettingChecks.{
  LoadedConfig, ParsedUrl, Parsers, SettingError, at_after_host, audience_max_len, bad_instance,
  bad_selector, bool_or, checked_url, cluster_name_max_len, consecutive_hyphens, default_to,
  default_token_max_lifetime, error_if, errors_of, exceeds_limit, given_or, has_credentials,
  has_double_hyphen, https_or_allowed, instance_max_len, instance_required, is_log_level,
  is_lower_alnum, is_required, label_errors, label_from, matches_cluster_name, must_match,
  no_url_host, not_a_boolean, not_a_duration, not_a_url, not_positive_duration, parsed_or,
  plain_http, positive, require_url, some_of, unknown_log_level, value_or, without_user,
  wrong_scheme,
}

module _ (p : Parsers) (getenv : Bytes → Bytes) where
  abbrev pub trimmed : Bytes → Bytes
  trimmed name = trim_space (getenv name)

  -- `envBoolOr`
  abbrev pub env_bool_or : Bytes → Bool → Bool
  env_bool_or name default = bool_or default (p.parse_bool (trimmed name))

  abbrev pub issuer_setting : Result SettingError ParsedUrl
  issuer_setting =
      let name = codes "BRIDGE_OIDC_ISSUER" in without_user name (require_url p (getenv name) name)

  abbrev pub jwks_setting : Result SettingError (Option ParsedUrl)
  jwks_setting =
      let name = codes "BRIDGE_OIDC_JWKS_URL" in
      given_or none (trimmed name) (some_of (require_url p (trimmed name) name))

  abbrev pub allow_http_setting : Bool
  allow_http_setting = env_bool_or (codes "BRIDGE_HARBOR_ALLOW_INSECURE_HTTP") false

  abbrev pub harbor_setting : Result SettingError ParsedUrl
  harbor_setting =
      let name = codes "BRIDGE_HARBOR_URL" in
      https_or_allowed name allow_http_setting
        (without_user name (require_url p (getenv name) name))

  abbrev pub bool_setting : Bytes → Result SettingError Bool
  bool_setting name =
      given_or true (getenv name) (parsed_or (p.parse_bool (getenv name)) (not_a_boolean name))

  abbrev pub lifetime_setting : Result SettingError ℤ
  lifetime_setting =
      let name = codes "BRIDGE_TOKEN_MAX_LIFETIME" in
      given_or default_token_max_lifetime (trimmed name)
        (positive name (parsed_or (p.parse_duration (trimmed name)) (not_a_duration name)))

  abbrev pub log_level_setting : Result SettingError Bytes
  log_level_setting =
      let raw = trimmed (codes "BRIDGE_LOG_LEVEL") in
      given_or (codes "info") raw (if is_log_level raw then ok raw else err unknown_log_level)

  abbrev pub selector_setting : Result SettingError (Option Selector)
  selector_setting =
      let raw = trimmed (codes "BRIDGE_HARBORACCESS_SELECTOR") in
      given_or none raw (some_of (parsed_or (p.parse_selector raw) bad_selector))

  -- The configuration that is built up, whatever failed.
  unfoldable pub settings : LoadedConfig
  settings = record {
    cluster_name = trimmed (codes "BRIDGE_CLUSTER_NAME");
    namespace = trimmed (codes "BRIDGE_NAMESPACE");
    oidc_issuer = value_or none (some_of issuer_setting);
    oidc_jwks_url = value_or none jwks_setting;
    oidc_ca_file = trimmed (codes "BRIDGE_OIDC_CA_FILE");
    oidc_token_file = trimmed (codes "BRIDGE_OIDC_TOKEN_FILE");
    harbor_url = value_or none (some_of harbor_setting);
    harbor_admin_dir = trimmed (codes "BRIDGE_HARBOR_ADMIN_DIR");
    harbor_robot_prefix =
        default_to (codes "robot$") (trimmed (codes "BRIDGE_HARBOR_ROBOT_PREFIX"));
    force_local_validation = value_or true (bool_setting (codes "BRIDGE_FORCE_LOCAL_VALIDATION"));
    log_level = value_or (codes "info") log_level_setting;
    harbor_ca_file = trimmed (codes "BRIDGE_HARBOR_CA_FILE");
    harbor_allow_http = allow_http_setting;
    audience = trimmed (codes "BRIDGE_AUDIENCE");
    harbor_access_selector = value_or none selector_setting;
    instance_name = trimmed (codes "BRIDGE_INSTANCE");
    token_max_lifetime = value_or default_token_max_lifetime lifetime_setting;
    require_pod_bound_token = value_or true (bool_setting (codes "BRIDGE_REQUIRE_POD_BOUND_TOKEN"));
  }

abbrev pub cluster_errors : Bytes → List SettingError
cluster_errors s =
    label_errors (codes "BRIDGE_CLUSTER_NAME") s
      (error_if (has_double_hyphen s) consecutive_hyphens)

unfoldable pub audience_errors : Bytes → List SettingError
audience_errors s =
    if is_empty s
    then is_required (codes "BRIDGE_AUDIENCE") ∷ []
    else error_if (ltb audience_max_len (length s)) (exceeds_limit (codes "BRIDGE_AUDIENCE"))

-- `selective`
abbrev pub is_selective : Option Selector → Bool
is_selective none = false
is_selective (some s) = not s.empty

unfoldable pub instance_errors : Bool → Bytes → List SettingError
instance_errors selective s =
    if selective && is_empty s
    then instance_required ∷ []
    else error_if
        (not (is_empty s) && (ltb instance_max_len (length s) || not (matches_cluster_name s)))
        bad_instance

-- The errors of each setting, in the order in which they are joined.
abbrev pub errors_by_setting : Parsers → (Bytes → Bytes) → LoadedConfig → List (List SettingError)
errors_by_setting p getenv c =
    cluster_errors c.cluster_name
    ∷ label_errors (codes "BRIDGE_NAMESPACE") c.namespace []
    ∷ errors_of (issuer_setting p getenv)
    ∷ errors_of (jwks_setting p getenv)
    ∷ errors_of (harbor_setting p getenv)
    ∷ error_if (is_empty c.harbor_admin_dir) (is_required (codes "BRIDGE_HARBOR_ADMIN_DIR"))
    ∷ errors_of (bool_setting p getenv (codes "BRIDGE_FORCE_LOCAL_VALIDATION"))
    ∷ errors_of (lifetime_setting p getenv)
    ∷ errors_of (bool_setting p getenv (codes "BRIDGE_REQUIRE_POD_BOUND_TOKEN"))
    ∷ errors_of (log_level_setting p getenv)
    ∷ audience_errors c.audience
    ∷ errors_of (selector_setting p getenv)
    ∷ instance_errors (is_selective c.harbor_access_selector) c.instance_name
    ∷ []

unfoldable pub all_errors : List (List SettingError) → List SettingError
all_errors [] = []
all_errors (e ∷ errors) = e ++ all_errors errors

abbrev pub config_or_errors :
    List SettingError → LoadedConfig → Result (List SettingError) LoadedConfig
config_or_errors [] c = ok c
config_or_errors (e ∷ errors) c = err (e ∷ errors)

-- `LoadFromEnv`
unfoldable pub load_from_env : Parsers → (Bytes → Bytes) → Result (List SettingError) LoadedConfig
load_from_env p getenv =
    let c = settings p getenv in config_or_errors (all_errors (errors_by_setting p getenv c)) c
