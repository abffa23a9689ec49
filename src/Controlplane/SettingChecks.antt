-- ===== src/Controlplane/SettingChecks.antt =====
-- The checks of a single setting (`requireURL` and the switches of `LoadFromEnv` in
-- bridge/controlplane/config.go).
use harbor_workload_identity.Base.{
  ℕ, Bool, true, false, not, ◌&&◌, ◌||◌, List, [], ◌∷◌, Option, none, some, Result, ok, err, ◌==◌,
  ltb, leb, if◌then◌else◌, length,
}
use harbor_workload_identity.Base.Int.{ℤ, pos, ltb_ℤ}
use harbor_workload_identity.Text.{Bytes, codes, is_empty, text_eq, has_byte}
use harbor_workload_identity.Text.Split.{trim_space}
use harbor_workload_identity.Instant.{hour}
use harbor_workload_identity.HarborAccess.{Selector}

abbrev pub instance_max_len : ℕ
instance_max_len = 50

abbrev pub audience_max_len : ℕ
audience_max_len = 253

abbrev pub cluster_name_max_len : ℕ
cluster_name_max_len = 63

abbrev pub default_token_max_lifetime : ℤ
default_token_max_lifetime = pos hour

unfoldable pub is_lower_alnum : ℕ → Bool
is_lower_alnum c = (leb b'a' c && leb c b'z') || (leb b'0' c && leb c b'9')

-- The automaton of `clusterNamePattern`; the flags say that a byte was read, and that the last one was
-- a letter or a digit.
unfoldable pub label_from : Bool → Bool → Bytes → Bool
label_from started last [] = last
label_from started last (c ∷ s) =
    let alnum = is_lower_alnum c in (alnum || (started && c == b'-')) && label_from true alnum s

unfoldable pub matches_cluster_name : Bytes → Bool
matches_cluster_name = label_from false false

-- `strings.Contains` for "--".
unfoldable pub has_double_hyphen : Bytes → Bool
has_double_hyphen [] = false
has_double_hyphen (c ∷ []) = false
has_double_hyphen (c ∷ d ∷ s) = (c == b'-' && d == b'-') || has_double_hyphen (d ∷ s)

-- What `url.Parse` reads: whether there is a user part, and the escaped path, query and fragment.
pub record ParsedUrl : Type 0 where
  pub scheme : Bytes
  pub host : Bytes
  pub has_user : Bool
  pub tail : Bytes

-- `url.Parse`, `strconv.ParseBool`, `time.ParseDuration` and `labels.Parse`.
pub record Parsers : Type 0 where
  pub parse_url : Bytes → Option ParsedUrl
  pub parse_bool : Bytes → Option Bool
  pub parse_duration : Bytes → Option ℤ
  pub parse_selector : Bytes → Option Selector

-- The errors, with the name of the variable.
pub data SettingError : Type 0 where
  is_required exceeds_limit must_match : Bytes → SettingError
  consecutive_hyphens : SettingError
  not_a_url wrong_scheme no_url_host at_after_host has_credentials plain_http : Bytes → SettingError
  not_a_boolean not_a_duration not_positive_duration : Bytes → SettingError
  unknown_log_level bad_selector instance_required bad_instance : SettingError

-- The fields of `Config`.
pub record LoadedConfig : Type 0 where
  pub cluster_name : Bytes
  pub namespace : Bytes
  pub oidc_issuer : Option ParsedUrl
  pub oidc_jwks_url : Option ParsedUrl
  pub oidc_ca_file : Bytes
  pub oidc_token_file : Bytes
  pub harbor_url : Option ParsedUrl
  pub harbor_admin_dir : Bytes
  pub harbor_robot_prefix : Bytes
  pub force_local_validation : Bool
  pub log_level : Bytes
  pub harbor_ca_file : Bytes
  pub harbor_allow_http : Bool
  pub audience : Bytes
  pub harbor_access_selector : Option Selector
  pub instance_name : Bytes
  pub token_max_lifetime : ℤ
  pub require_pod_bound_token : Bool

-- A setting that fails adds its error and leaves the default.
abbrev pub errors_of : {A : Type 0} → Result SettingError A → List SettingError
errors_of (ok a) = []
errors_of (err e) = e ∷ []

abbrev pub value_or : {A : Type 0} → A → Result SettingError A → A
value_or default (ok a) = a
value_or default (err e) = default

abbrev pub error_if : Bool → SettingError → List SettingError
error_if b e = if b then e ∷ [] else []

-- The checks that the names of the cluster and of the namespace share.
unfoldable pub label_errors : Bytes → Bytes → List SettingError → List SettingError
label_errors name s rest =
    if is_empty s
    then is_required name ∷ []
    else if ltb cluster_name_max_len (length s)
    then exceeds_limit name ∷ []
    else if not (matches_cluster_name s)
    then must_match name ∷ []
    else rest

abbrev pub parsed_or : {A : Type 0} → Option A → SettingError → Result SettingError A
parsed_or none e = err e
parsed_or (some a) e = ok a

abbrev pub checked_url : Bytes → Option ParsedUrl → Result SettingError ParsedUrl
checked_url name none = err (not_a_url name)
checked_url name (some u) =
    if not (text_eq u.scheme (codes "http")) && not (text_eq u.scheme (codes "https"))
    then err (wrong_scheme name)
    else if is_empty u.host
    then err (no_url_host name)
    else if has_byte b'@' u.tail
    then err (at_after_host name)
    else ok u

-- `requireURL`
unfoldable pub require_url : Parsers → Bytes → Bytes → Result SettingError ParsedUrl
require_url p raw name =
    if is_empty (trim_space raw)
    then err (is_required name)
    else checked_url name (p.parse_url (trim_space raw))

abbrev pub without_user : Bytes → Result SettingError ParsedUrl → Result SettingError ParsedUrl
without_user name (err e) = err e
without_user name (ok u) = if u.has_user then err (has_credentials name) else ok u

abbrev pub https_or_allowed :
    Bytes → Bool → Result SettingError ParsedUrl → Result SettingError ParsedUrl
https_or_allowed name allow_http (err e) = err e
https_or_allowed name allow_http (ok u) =
    if text_eq u.scheme (codes "http") && not allow_http then err (plain_http name) else ok u

abbrev pub positive : Bytes → Result SettingError ℤ → Result SettingError ℤ
positive name (err e) = err e
positive name (ok d) = if ltb_ℤ (pos 0) d then ok d else err (not_positive_duration name)

unfoldable pub is_log_level : Bytes → Bool
is_log_level s =
    text_eq s (codes "debug")
    || text_eq s (codes "info")
    || text_eq s (codes "warn")
    || text_eq s (codes "error")

abbrev pub given_or : {A : Type 0} → A → Bytes → Result SettingError A → Result SettingError A
given_or default raw r = if is_empty raw then ok default else r

abbrev pub some_of : {A : Type 0} → Result SettingError A → Result SettingError (Option A)
some_of (ok a) = ok (some a)
some_of (err e) = err e

abbrev pub default_to : Bytes → Bytes → Bytes
default_to default raw = if is_empty raw then default else raw

abbrev pub bool_or : Bool → Option Bool → Bool
bool_or default none = default
bool_or default (some b) = b
