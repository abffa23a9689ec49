-- ===== src/Dataplane/Serve.antt =====
-- What the credential endpoint answers and leaves behind, return by return (`ServeHTTP`,
-- `writeResponse` and `auditIssuance` of bridge/dataplane/handler.go).
pub mod Issuable
pub mod Issued
pub mod Answered
pub mod Trail
use harbor_workload_identity.Base.{
  ℕ, Bool, true, false, not, List, [], ◌∷◌, ◌++◌, Option, none, some, Result, ok, err,
  if◌then◌else◌,
}
use harbor_workload_identity.Text.{Bytes, codes, text_eq}
use harbor_workload_identity.HarborAccess.{HarborAccess}
use harbor_workload_identity.Dataplane.CacheTtl.{whole_seconds}
use harbor_workload_identity.Dataplane.Matching.{Claims}
use harbor_workload_identity.Dataplane.Limiter.{SourceLimiter, allow_or_nil}
use harbor_workload_identity.Dataplane.Oidc.{
  ValidateError, OidcReason, keys_unavailable, classify_oidc_error,
}
use harbor_workload_identity.Dataplane.Audit.{
  max_audit_image_len, max_audit_error_len, truncate, Caller, ClaimFields, claim_fields, ref_of,
  AuditEvent, signing_keys_unavailable, harboraccess_lookup_failed, secret_missing,
  secret_unreadable, robot_name_unknown, secret_for_previous_identity, invalid_token,
  harboraccess_deleting, secret_owner_mismatch, no_matching_harboraccess, invalid_harboraccess_spec,
  issued, AuditLine, IssuanceResult, result_ok, result_unauthorized, result_forbidden,
  result_unavailable, result_bad_request, result_server_error, result_rate_limited, Metric,
  issuance, oidc_validation_failure, harboraccess_lookup_failure, robot_secret_missing,
  issuance_duration,
}
use harbor_workload_identity.Dataplane.Credentials.{
  SecretError, owner_mismatch, missing, unreadable,
}
use harbor_workload_identity.Dataplane.Handler.{
  credentials_path, HttpRequest, Handler, Response, EarlyRefusal, method_not_allowed, unknown_path,
  rate_limited, not_implemented, missing_bearer, invalid_body, Refusal, invalid, lookup_failed,
  being_deleted, no_match, invalid_spec, no_secret, name_unknown, previous_identity, Issuance,
  Outcome, source_ip, read_request, issue,
}

-- The increments of `recordResult` and its like, which do nothing without metrics.
abbrev recorded : Handler → List Metric → List Metric
recorded h ms = if h.instrumented then ms else []

abbrev refused : Handler → ℕ → List AuditLine → List Metric → Outcome
refused h status lines ms = record {
  status = status;
  response = none;
  audit = lines;
  metrics = recorded h ms;
}

-- The early returns; from `ForceLocalValidation` on, the duration is observed too.
unfoldable pub refuse_early : Handler → EarlyRefusal → Outcome
refuse_early h method_not_allowed = refused h 405 [] []
refuse_early h unknown_path = refused h 404 [] []
refuse_early h rate_limited = refused h 429 [] (issuance result_rate_limited ∷ [])
refuse_early h not_implemented =
    refused h 501 [] (issuance result_server_error ∷ issuance_duration ∷ [])
refuse_early h missing_bearer =
    refused h 401 [] (issuance result_unauthorized ∷ issuance_duration ∷ [])
refuse_early h invalid_body =
    refused h 400 [] (issuance result_bad_request ∷ issuance_duration ∷ [])

-- The status, the audit event and the increments of the returns that are audited.
record Answer : Type 0 where
  status : ℕ
  claims : Option ClaimFields
  event : AuditEvent
  counted : List Metric

abbrev cut_error : Bytes → Bytes
cut_error message = truncate message max_audit_error_len

abbrev answer_invalid : Handler → ValidateError → Answer
answer_invalid h e =
    if e.is_keys_unavailable
    then record {
      status = 503;
      claims = none;
      event = signing_keys_unavailable (cut_error e.message);
      counted = oidc_validation_failure keys_unavailable ∷ issuance result_unavailable ∷ [];
    }
    else record {
      status = 401;
      claims = none;
      event = invalid_token (classify_oidc_error h.to_lower e) (cut_error e.message);
      counted =
          oidc_validation_failure (classify_oidc_error h.to_lower e)
          ∷ issuance result_unauthorized
          ∷ [];
    }

abbrev answer_no_secret : Claims → HarborAccess → SecretError → Answer
answer_no_secret c ha owner_mismatch = record {
  status = 403;
  claims = some (claim_fields c);
  event = secret_owner_mismatch (ref_of ha);
  counted = issuance result_forbidden ∷ [];
}
answer_no_secret c ha missing = record {
  status = 503;
  claims = some (claim_fields c);
  event = secret_missing (ref_of ha);
  counted = robot_secret_missing ∷ issuance result_unavailable ∷ [];
}
answer_no_secret c ha (unreadable message) = record {
  status = 500;
  claims = some (claim_fields c);
  event = secret_unreadable (ref_of ha) (cut_error message);
  counted = issuance result_server_error ∷ [];
}

answer : Handler → Refusal → Answer
answer h (invalid e) = answer_invalid h e
answer h (lookup_failed c message) = record {
  status = 500;
  claims = some (claim_fields c);
  event = harboraccess_lookup_failed (cut_error message);
  counted = harboraccess_lookup_failure ∷ issuance result_server_error ∷ [];
}
answer h (being_deleted c ha) = record {
  status = 403;
  claims = some (claim_fields c);
  event = harboraccess_deleting (ref_of ha);
  counted = issuance result_forbidden ∷ [];
}
answer h (no_match c) = record {
  status = 403;
  claims = some (claim_fields c);
  event = no_matching_harboraccess c.audience;
  counted = issuance result_forbidden ∷ [];
}
answer h (invalid_spec c ha) = record {
  status = 403;
  claims = some (claim_fields c);
  event = invalid_harboraccess_spec (ref_of ha);
  counted = issuance result_forbidden ∷ [];
}
answer h (no_secret c ha e) = answer_no_secret c ha e
answer h (name_unknown c ha message) = record {
  status = 500;
  claims = some (claim_fields c);
  event = robot_name_unknown (ref_of ha) (cut_error message);
  counted = issuance result_server_error ∷ [];
}
answer h (previous_identity c ha username want) = record {
  status = 503;
  claims = some (claim_fields c);
  event = secret_for_previous_identity (ref_of ha) username want;
  counted = issuance result_unavailable ∷ [];
}

-- One audit line, with the caller, the token's fields if there are any, and the image cut to its bound.
abbrev line : Handler → HttpRequest → Bytes → Option ClaimFields → AuditEvent → AuditLine
line h r image claims event = record {
  caller = record { source = source_ip h r; client_cert = r.client_cert };
  claims = claims;
  event = event;
  requested_image = truncate image max_audit_image_len;
}

-- The audited early returns.
unfoldable pub refuse : Handler → HttpRequest → Bytes → Refusal → Outcome
unfolding answer source_ip truncate
refuse h r image e =
    let a = answer h e in
    refused h a.status (line h r image a.claims a.event ∷ []) (a.counted ++ issuance_duration ∷ [])

-- `writeResponse` and `auditIssuance`.
unfoldable pub grant : Handler → HttpRequest → Bytes → Issuance → Outcome
unfolding source_ip truncate
grant h r image i = record {
  status = 200;
  response = some (record {
    username = i.creds.username;
    password = i.creds.password;
    expires_in_secs = whole_seconds i.ttl;
  });
  audit =
      line h r image (some (claim_fields i.claims)) (
        issued i.aud_matched (ref_of i.matched) i.matched.generation i.creds.username
          (whole_seconds i.ttl))
      ∷ [];
  metrics = recorded h (issuance result_ok ∷ issuance_duration ∷ []);
}

-- From the validation on: the outcome of what `issue` gives.
abbrev pub conclude : Handler → HttpRequest → Bytes → Result Refusal Issuance → Outcome
conclude h r image (ok i) = grant h r image i
conclude h r image (err e) = refuse h r image e

-- The handler behind the limiter.
unfoldable pub admitted : Handler → ℕ → HttpRequest → Outcome
admitted h now r = elim (read_request h r) [
  | err e ↦ refuse_early h e
  | ok (token, image) ↦ conclude h r image (issue h now token)
]

-- `ServeHTTP`: the outcome and the limiter's next state. `arrival` is what the limiter's clock
-- reads, `now` what the handler's reads; `new_limiter` and `allow_n` are the token bucket's.
unfoldable pub serve_http :
    {L : Type 0}
    → L
    → (ℕ → L → Bool × L)
    → Handler
    → ℕ
    → ℕ
    → HttpRequest
    → Option (SourceLimiter L)
    → Outcome × Option (SourceLimiter L)
serve_http new_limiter allow_n h arrival now r limiter =
    let (allowed, next) = allow_or_nil new_limiter allow_n (source_ip h r) arrival limiter in
    if not (text_eq r.method (codes "POST"))
    then (refuse_early h method_not_allowed, limiter)
    else if not (text_eq r.path credentials_path)
    then (refuse_early h unknown_path, limiter)
    else if not allowed
    then (refuse_early h rate_limited, next)
    else (admitted h now r, next)
