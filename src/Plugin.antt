-- ===== src/Plugin.antt =====
-- The kubelet credential provider plugin (plugin/main.go and plugin/bridge_client.go).
pub mod Served
pub mod Cached
use harbor_workload_identity.Base.{
  ℕ, zero, suc, ◌+◌, ◌*◌, ◌/◌, Bool, true, false, not, ◌&&◌, ◌||◌, List, [], ◌∷◌, ◌++◌, Option,
  none, some, Result, ok, err, ◌>>=◌, ◌>>◌, require, ◌==◌, ltb, leb, if◌then◌else◌, length, take,
  is_some,
}
use harbor_workload_identity.Base.Int.{ℤ, pos, negsuc}
use harbor_workload_identity.Text.{Bytes, codes, is_empty, text_eq, cut}
use harbor_workload_identity.Instant.{second, hour}

abbrev pub credential_provider_api_version : Bytes
credential_provider_api_version = codes "credentialprovider.kubelet.k8s.io/v1"

abbrev pub request_kind : Bytes
request_kind = codes "CredentialProviderRequest"

abbrev pub cache_key_type_image : Bytes
cache_key_type_image = codes "Image"

-- `credentialProviderRequest`, and what `run` writes of `credentialProviderResponse`: the duration in
-- nanoseconds, and the map `Auth` as its entries.
pub record ProviderRequest : Type 0 where
  pub api_version : Bytes
  pub kind : Bytes
  pub image : Bytes
  pub service_account_token : Bytes

pub record AuthConfig : Type 0 where
  pub host : Bytes
  pub username : Bytes
  pub password : Bytes

pub record ProviderResponse : Type 0 where
  pub cache_key_type : Bytes
  pub cache_duration : ℕ
  pub auth : List AuthConfig

-- `bridgeResponse`
pub record BridgeResponse : Type 0 where
  pub username : Bytes
  pub password : Bytes
  pub expires_in_secs : Option ℤ
  pub cache_key_type : Bytes

-- The errors of the plugin: those of `fetch` that `run` tells apart, and all others.
pub data PluginError : Type 0 where
  bridge_refused bridge_unavailable : PluginError
  undecodable_request unsupported_request image_empty token_empty : PluginError
  no_registry_host unknown_cache_key_type no_expires_in : PluginError
  undecodable_response no_credentials no_cache_key_type unexpected_status : PluginError

-- `maxResponseBytes` and `maxCacheDuration`.
abbrev pub max_response_bytes : ℕ
max_response_bytes = 1048576

abbrev pub max_cache_duration : ℕ
max_cache_duration = 24 * hour

-- An HTTP response, with its body as far as it is read, or a read error.
pub record Reply : Type 0 where
  pub status : ℕ
  pub body : Option Bytes

-- What the client asks of the world: the n-th POST of a pass, which may fail before a response, and
-- `json.Unmarshal` of a body.
pub record World : Type 0 where
  pub post : ℕ → Bytes → Bytes → Option Reply
  pub decode : Bytes → Option BridgeResponse

-- The body and the status.
pub record Read : Type 0 where
  pub body : Bytes
  pub status : ℕ

-- The body of a response, if it is not too long.
unfoldable pub bounded : ℕ → Bytes → Option Read
bounded status body =
    if ltb max_response_bytes (length (take (suc max_response_bytes) body))
    then none
    else some (record { body = take (suc max_response_bytes) body; status = status })

unfoldable pub read_reply : Option Reply → Option Read
read_reply none = none
read_reply (some r) = elim r.body [ none ↦ none | some body ↦ bounded r.status body ]

-- `do`
unfoldable pub do_post : World → ℕ → Bytes → Bytes → Option Read
do_post w n image token = read_reply (w.post n image token)

unfoldable pub check_response : Option BridgeResponse → Result PluginError BridgeResponse
check_response none = err undecodable_response
check_response (some out) =
    if is_empty out.username || is_empty out.password
    then err no_credentials
    else if is_empty out.cache_key_type
    then err no_cache_key_type
    else if not (is_some out.expires_in_secs)
    then err no_expires_in
    else ok out

-- The switch of `fetch` on the status.
unfoldable pub judge_reply : World → Read → Result PluginError BridgeResponse
judge_reply w r =
    if r.status == 200
    then check_response (w.decode r.body)
    else if r.status == 401 || r.status == 403
    then err bridge_refused
    else if r.status == 503
    then err bridge_unavailable
    else err unexpected_status

abbrev pub judge_last : World → Option Read → Result PluginError BridgeResponse
judge_last w none = err bridge_unavailable
judge_last w (some r) = judge_reply w r

-- What `fetch` does after the first POST: a 503 is tried once more.
abbrev pub after_first : World → Bytes → Bytes → Option Read → Result PluginError BridgeResponse
after_first w image token none = err bridge_unavailable
after_first w image token (some r) =
    if r.status == 503 then judge_last w (do_post w 1 image token) else judge_reply w r

-- `fetch`
unfoldable pub fetch : World → Bytes → Bytes → Result PluginError BridgeResponse
fetch w image token = after_first w image token (do_post w 0 image token)

-- `imageHost`; "" where no slash is, or where it comes first.
unfoldable pub image_host : Bytes → Bytes
image_host image = elim (cut b'/' image) [ none ↦ [] | some (host, rest) ↦ host ]

-- `cacheKeyTypes`
unfoldable pub is_cache_key_type : Bytes → Bool
is_cache_key_type t =
    text_eq t cache_key_type_image || text_eq t (codes "Registry") || text_eq t (codes "Global")

-- `secs`, and the duration: the product is used only where it is at most a day.
unfoldable pub not_negative : ℤ → ℕ
not_negative (pos n) = n
not_negative (negsuc n) = 0

unfoldable pub kubelet_duration : ℤ → ℕ
kubelet_duration secs =
    if ltb (max_cache_duration / second) (not_negative secs)
    then max_cache_duration
    else not_negative secs * second

abbrev pub with_duration : BridgeResponse → Bytes → Option ℤ → Result PluginError ProviderResponse
with_duration r host none = err no_expires_in
with_duration r host (some secs) = ok (record {
  cache_key_type = r.cache_key_type;
  cache_duration = kubelet_duration secs;
  auth = record { host = host; username = r.username; password = r.password } ∷ [];
})

-- `writeOKResponse`
unfoldable pub ok_response : BridgeResponse → Bytes → Result PluginError ProviderResponse
ok_response r image =
    if is_empty (image_host image)
    then err no_registry_host
    else if not (is_cache_key_type r.cache_key_type)
    then err unknown_cache_key_type
    else with_duration r (image_host image) r.expires_in_secs

-- `writeRefusedResponse`
unfoldable pub refused_response : ProviderResponse
refused_response = record { cache_key_type = cache_key_type_image; cache_duration = 0; auth = [] }

abbrev pub answer : Bytes → Result PluginError BridgeResponse → Result PluginError ProviderResponse
answer image (ok r) = ok_response r image
answer image (err bridge_refused) = ok refused_response
answer image (err e) = err e

-- The checks of `run` before the bridge is asked.
unfoldable pub check_request : ProviderRequest → Result PluginError Unit
check_request req = do
  require (text_eq req.api_version credential_provider_api_version && text_eq req.kind request_kind)
      unsupported_request
  require (not (is_empty req.image)) image_empty
  require (not (is_empty req.service_account_token)) token_empty
  ok tt

-- `run`; `none` for a request that is not decoded. An error is a non-zero exit.
unfoldable pub run : World → Option ProviderRequest → Result PluginError ProviderResponse
run w none = err undecodable_request
run w (some req) =
    check_request req >> answer req.image (fetch w req.image req.service_account_token)

-- `config`
pub record PluginConfig : Type 0 where
  pub endpoint : Bytes
  pub ca_bundle : Bytes
  pub client_cert : Bytes
  pub client_key : Bytes
  pub server_name : Bytes

pub data ConfigError : Type 0 where
  endpoint_required endpoint_invalid endpoint_not_https endpoint_no_host : ConfigError
  server_name_invalid client_cert_and_key : ConfigError

-- The scheme and the host of a URL that `url.Parse` reads.
pub record Url : Type 0 where
  pub scheme : Bytes
  pub host : Bytes

unfoldable pub is_letter_or_digit : ℕ → Bool
is_letter_or_digit c =
    (leb b'A' c && leb c b'Z') || (leb b'a' c && leb c b'z') || (leb b'0' c && leb c b'9')

-- The automaton of `serverNamePattern`; the flags say that a byte was read, and that the last one was
-- a letter or a digit.
unfoldable pub name_from : Bool → Bool → Bytes → Bool
name_from started last [] = last
name_from started last (c ∷ s) =
    let alnum = is_letter_or_digit c in
    (alnum || (started && (c == b'-' || c == b'.'))) && name_from true alnum s

unfoldable pub matches_server_name : Bytes → Bool
matches_server_name = name_from false false

abbrev pub parsed : Option Url → Result ConfigError Url
parsed none = err endpoint_invalid
parsed (some u) = ok u

abbrev from_env : (Bytes → Bytes) → PluginConfig
from_env getenv = record {
  endpoint = getenv (codes "HARBOR_BRIDGE_ENDPOINT");
  ca_bundle = getenv (codes "HARBOR_BRIDGE_CA_BUNDLE");
  client_cert = getenv (codes "HARBOR_BRIDGE_CLIENT_CERT");
  client_key = getenv (codes "HARBOR_BRIDGE_CLIENT_KEY");
  server_name = getenv (codes "HARBOR_BRIDGE_SERVER_NAME");
}

-- `loadConfig`, with `url.Parse`.
unfoldable pub load_config :
    (Bytes → Option Url) → (Bytes → Bytes) → Result ConfigError PluginConfig
load_config parse_url getenv =
    let c = from_env getenv in
    do
      require (not (is_empty c.endpoint)) endpoint_required
      u ← parsed (parse_url c.endpoint)
      require (text_eq u.scheme (codes "https")) endpoint_not_https
      require (not (is_empty u.host)) endpoint_no_host
      require (is_empty c.server_name || matches_server_name c.server_name) server_name_invalid
      require (not (is_empty c.client_cert) || is_empty c.client_key) client_cert_and_key
      require (is_empty c.client_cert || not (is_empty c.client_key)) client_cert_and_key
      ok c
