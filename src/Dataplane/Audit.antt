-- ===== src/Dataplane/Audit.antt =====
-- What a request leaves behind besides its response: the audit lines and the metrics of
-- bridge/dataplane/handler.go and metrics.go.
use harbor_workload_identity.Base.{ℕ, List, [], ◌∷◌, ◌++◌, Option, length, take, leb, if◌then◌else◌}
use harbor_workload_identity.Text.{Bytes}
use harbor_workload_identity.HarborAccess.{HarborAccess}
use harbor_workload_identity.Dataplane.Matching.{Claims}
use harbor_workload_identity.Dataplane.Oidc.{OidcReason}

-- `maxAuditImageLen`, and the length that errors are cut to.
abbrev pub max_audit_image_len : ℕ
max_audit_image_len = 512

abbrev pub max_audit_error_len : ℕ
max_audit_error_len = 200

-- `truncate`, which writes an ellipsis (in UTF-8) behind a text it cuts.
unfoldable pub truncate : Bytes → ℕ → Bytes
truncate s n = if leb (length s) n then s else take n s ++ 0xe2 ∷ 0x80 ∷ 0xa6 ∷ []

-- `callerFields`
pub record Caller : Type 0 where
  pub source : Bytes
  pub client_cert : Option Bytes

-- `claimFields`
pub record ClaimFields : Type 0 where
  pub subject : Bytes
  pub pod : Bytes
  pub pod_uid : Bytes
  pub node : Bytes

abbrev pub claim_fields : Claims → ClaimFields
claim_fields c = record { subject = c.subject; pod = c.pod; pod_uid = c.pod_uid; node = c.node }

-- An object's namespace and name, which Go writes with a slash between them.
abbrev pub Ref : Type 0
Ref = Bytes × Bytes

abbrev pub ref_of : HarborAccess → Ref
ref_of ha = (ha.namespace, ha.name)

-- The message of an audit line with the fields that stand behind the caller's and the token's.
pub data AuditEvent : Type 0 where
  -- "credential unavailable"
  signing_keys_unavailable harboraccess_lookup_failed : Bytes → AuditEvent
  secret_missing : Ref → AuditEvent
  secret_unreadable robot_name_unknown : Ref → Bytes → AuditEvent
  secret_for_previous_identity : Ref → Bytes → Bytes → AuditEvent
  -- "credential denied"
  invalid_token : OidcReason → Bytes → AuditEvent
  harboraccess_deleting secret_owner_mismatch : Ref → AuditEvent
  -- Less the text of the error.
  invalid_harboraccess_spec : Ref → AuditEvent
  no_matching_harboraccess : List Bytes → AuditEvent
  -- "credential issued": the audience, the object, its generation, the robot and the seconds.
  issued : Bytes → Ref → ℕ → Bytes → ℕ → AuditEvent

pub record AuditLine : Type 0 where
  pub caller : Caller
  pub claims : Option ClaimFields
  pub event : AuditEvent
  pub requested_image : Bytes

-- The `Result*` labels.
pub data IssuanceResult : Type 0 where
  result_ok result_unauthorized result_forbidden result_unavailable : IssuanceResult
  result_bad_request result_server_error result_rate_limited : IssuanceResult

-- One increment of a counter, or one observation of the duration.
pub data Metric : Type 0 where
  issuance : IssuanceResult → Metric
  oidc_validation_failure : OidcReason → Metric
  harboraccess_lookup_failure robot_secret_missing issuance_duration : Metric
