-- ===== src/Dataplane/Handler.antt =====
-- The credential endpoint (`ServeHTTP` of bridge/dataplane/handler.go). Every early return is a
-- refusal; the chain gives the first one, and module Serve gives what is written for it.
use harbor_workload_identity.Base.{
  ℕ, Bool, List, [], ◌++◌, Option, none, some, Result, ok, err, ◌>>=◌, ◌>>◌, require, take,
  if◌then◌else◌,
}
use harbor_workload_identity.Text.{Bytes, codes, is_empty, text_eq, cut_prefix}
use harbor_workload_identity.Instant.{Rfc3339}
use harbor_workload_identity.HarborAccess.{HarborAccess, token_ttl_ok}
use harbor_workload_identity.RobotSecret.{Secret}
use harbor_workload_identity.Dataplane.CacheTtl.{cache_duration}
use harbor_workload_identity.Dataplane.Matching.{Claims, Match, Found, find_harbor_access}
use harbor_workload_identity.Dataplane.Oidc.{ValidateError}
use harbor_workload_identity.Dataplane.Audit.{AuditLine, Metric}
use harbor_workload_identity.Dataplane.Credentials.{
  RobotCreds, ApiError, SecretError, read_robot_secret, robot_username,
}

abbrev pub credentials_path : Bytes
credentials_path = codes "/v1/credentials"

-- `maxRequestBodyBytes`
abbrev pub max_request_body_bytes : ℕ
max_request_body_bytes = 65536

-- The parts of an http.Request that the handler reads. The body is `none` where it is nil or where
-- `ContentLength` is 0.
pub record HttpRequest : Type 0 where
  pub method : Bytes
  pub path : Bytes
  pub remote_addr : Bytes
  pub client_cert : Option Bytes
  pub authorization : Bytes
  pub body : Option Bytes

-- The Handler: its configuration, and the code it calls outside this package.
pub record Handler : Type 0 where
  pub bridge_namespace : Bytes
  pub force_local_validation : Bool
  pub audience : Bytes
  pub robot_username_of : Option (Bytes → Bytes → Result Bytes Bytes)
  -- `Metrics` is not nil.
  pub instrumented : Bool
  -- `Validator.Validate`
  pub validate : Bytes → Result ValidateError Claims
  -- The HarborAccess objects that the cache's index holds for a subject.
  pub list_by_subject : Bytes → Result Bytes (List HarborAccess)
  -- `K8sClient.Get` of a Secret, by namespace and name.
  pub get_secret : Bytes → Bytes → Result ApiError Secret
  -- The image that the JSON decoder reads from the first value of a text.
  pub decode_image : Bytes → Option Bytes
  -- The host of `net.SplitHostPort`.
  pub split_host : Bytes → Option Bytes
  pub to_lower : Bytes → Bytes
  pub hash_of : Bytes → Bytes
  pub clock : Rfc3339

-- `Response`; the cache key type is always `cacheKeyTypeRegistry`.
pub record Response : Type 0 where
  pub username : Bytes
  pub password : Bytes
  pub expires_in_secs : ℕ

-- The refusals before the token is validated.
pub data EarlyRefusal : Type 0 where
  method_not_allowed unknown_path rate_limited not_implemented : EarlyRefusal
  missing_bearer invalid_body : EarlyRefusal

-- The refusals after that.
pub data Refusal : Type 0 where
  invalid : ValidateError → Refusal
  lookup_failed : Claims → Bytes → Refusal
  being_deleted : Claims → HarborAccess → Refusal
  no_match : Claims → Refusal
  invalid_spec : Claims → HarborAccess → Refusal
  no_secret : Claims → HarborAccess → SecretError → Refusal
  name_unknown : Claims → HarborAccess → Bytes → Refusal
  previous_identity : Claims → HarborAccess → Bytes → Bytes → Refusal

-- What an issuance is made of.
pub record Issuance : Type 0 where
  pub claims : Claims
  pub matched : HarborAccess
  pub aud_matched : Bytes
  pub creds : RobotCreds
  pub ttl : ℕ

pub record Outcome : Type 0 where
  pub status : ℕ
  pub response : Option Response
  pub audit : List AuditLine
  pub metrics : List Metric

-- `sourceIP`
unfoldable pub source_ip : Handler → HttpRequest → Bytes
source_ip h r = elim (h.split_host r.remote_addr) [ some host ↦ host | none ↦ r.remote_addr ]

-- The token behind "Bearer ", if there is one.
unfoldable pub bearer_token : HttpRequest → Result EarlyRefusal Bytes
bearer_token r = elim (cut_prefix (codes "Bearer ") r.authorization) [
  | none ↦ err missing_bearer
  | some token ↦ if is_empty token then err missing_bearer else ok token
]

-- The requested image: "" without a body, and the decoder sees at most the bounded part of one.
unfoldable pub requested_image : Handler → HttpRequest → Result EarlyRefusal Bytes
requested_image h r = elim r.body [
  | none ↦ ok []
  | some body ↦ elim (h.decode_image (take max_request_body_bytes body)) [
    | none ↦ err invalid_body
    | some image ↦ ok image
  ]
]

-- The checks between the limiter and the validation: the token and the image.
unfoldable pub read_request : Handler → HttpRequest → Result EarlyRefusal (Bytes × Bytes)
unfolding bearer_token requested_image
read_request h r = do
  require h.force_local_validation not_implemented
  token ← bearer_token r
  image ← requested_image h r
  ok (token, image)

-- The object that serves the token.
unfoldable pub select_harbor_access : Claims → Found → Result Refusal Match
select_harbor_access claims found = elim found.matched [
  | some m ↦ ok m
  | none ↦ elim found.deleting [
    | some d ↦ err (being_deleted claims d.ha)
    | none ↦ err (no_match claims)
  ]
]

unfoldable pub validate_token : Handler → Bytes → Result Refusal Claims
validate_token h token = elim (h.validate token) [ ok c ↦ ok c | err e ↦ err (invalid e) ]

unfoldable pub look_up : Handler → Claims → Result Refusal Found
look_up h claims = elim (h.list_by_subject claims.subject) [
  | ok items ↦ ok (find_harbor_access h.audience claims items)
  | err message ↦ err (lookup_failed claims (codes "list HarborAccess: " ++ message))
]

unfoldable pub read_creds : Handler → Claims → HarborAccess → Result Refusal RobotCreds
read_creds h claims ha =
    elim (read_robot_secret h.clock h.hash_of h.get_secret h.bridge_namespace ha) [
      | ok creds ↦ ok creds
      | err e ↦ err (no_secret claims ha e)
    ]

unfoldable pub wanted_username : Handler → Claims → HarborAccess → Result Refusal Bytes
wanted_username h claims ha = elim (robot_username h.robot_username_of ha) [
  | ok want ↦ ok want
  | err message ↦ err (name_unknown claims ha message)
]

-- The handler from the validation on; `now` is what `h.now()` reads.
unfoldable pub issue : Handler → ℕ → Bytes → Result Refusal Issuance
issue h now token = do
  claims ← validate_token h token
  found ← look_up h claims
  m ← select_harbor_access claims found
  require (token_ttl_ok m.ha.spec.token_ttl) (invalid_spec claims m.ha)
  creds ← read_creds h claims m.ha
  want ← wanted_username h claims m.ha
  require (text_eq creds.username want) (previous_identity claims m.ha creds.username want)
  ok (record {
    claims = claims;
    matched = m.ha;
    aud_matched = m.aud;
    creds = creds;
    ttl = cache_duration m.ha.spec.token_ttl.duration creds.rotation_not_before now;
  })
