-- ===== src/Dataplane/Oidc.antt =====
-- The failures of token validation and their metric labels (`classifyOIDCError` of
-- bridge/dataplane/metrics.go).
use harbor_workload_identity.Base.{Bool, ◌||◌, [], ◌∷◌, if◌then◌else◌}
use harbor_workload_identity.Text.{Bytes, codes, has_prefix}

-- `strings.Contains(s, substr)`, with the part first.
unfoldable pub contains : Bytes → Bytes → Bool
contains part [] = has_prefix part []
contains part (c ∷ s) = has_prefix part (c ∷ s) || contains part s

-- An error of `Validate`: which sentinels `errors.Is` finds in it, and its text.
pub record ValidateError : Type 0 where
  pub is_keys_unavailable : Bool
  pub is_token_lifetime : Bool
  pub is_token_not_pod_bound : Bool
  pub message : Bytes

-- The `OIDCReason*` labels.
pub data OidcReason : Type 0 where
  expired bad_signature wrong_issuer malformed : OidcReason
  excessive_lifetime not_pod_bound keys_unavailable other : OidcReason

-- The switch on the lower-case text of an error.
unfoldable pub classify_text : Bytes → OidcReason
unfolding contains
classify_text s =
    if contains (codes "malformed") s
    then malformed
    else if contains (codes "expired") s
    then expired
    else if contains (codes "signature") s
    then bad_signature
    else if contains (codes "different provider") s || contains (codes "issuer") s
    then wrong_issuer
    else if contains (codes "parse") s || contains (codes "invalid json") s
    then malformed
    else other

-- `classifyOIDCError` of an error that is not nil; `to_lower` is `strings.ToLower`.
unfoldable pub classify_oidc_error : (Bytes → Bytes) → ValidateError → OidcReason
unfolding classify_text
classify_oidc_error to_lower e =
    if e.is_token_lifetime
    then excessive_lifetime
    else if e.is_token_not_pod_bound
    then not_pod_bound
    else if e.is_keys_unavailable
    then keys_unavailable
    else classify_text (to_lower e.message)
