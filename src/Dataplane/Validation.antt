-- ===== src/Dataplane/Validation.antt =====
-- The validation of a ServiceAccount token (`Validate`, `checkLifetime` and `supportedAlgs` of
-- bridge/dataplane/oidc.go) and the choice among the signing keys (`VerifySignature`, `verifyWith` and
-- `holdsKey` of bridge/dataplane/oidc_keyset.go).
pub mod Lifetime
pub mod Signed
use harbor_workload_identity.Base.{
  ℕ, ◌+◌, ◌*◌, Bool, true, false, not, ◌&&◌, ◌||◌, List, [], ◌∷◌, ◌++◌, Option, none, some, Result,
  ok, err, ◌>>=◌, ◌>>◌, require, ◌==◌, ltb, if◌then◌else◌, is_some,
}
use harbor_workload_identity.Base.Int.{ℤ, ltb_ℤ}
use harbor_workload_identity.Text.{Bytes, codes, is_empty, text_eq}
use harbor_workload_identity.Instant.{minute, sub, Rfc3339}
use harbor_workload_identity.Dataplane.Matching.{Claims}
use harbor_workload_identity.Dataplane.Oidc.{ValidateError}

-- `maxIssuedAtSkew`
abbrev pub max_issued_at_skew : ℕ
max_issued_at_skew = 5 * minute

-- What go-oidc returns for a token that it verified; an instant that the token lacks is Go's zero
-- time.
pub record IdToken : Type 0 where
  pub issuer : Bytes
  pub expiry : ℕ
  pub issued_at : ℕ

-- `rawClaims`
pub record RawClaims : Type 0 where
  pub sub_claim : Bytes
  pub aud : List Bytes
  pub pod_name : Bytes
  pub pod_uid : Bytes
  pub node_name : Bytes

-- go-oidc's failure to verify a token: whether the key set marked that it had no current keys
-- (`verifyOutcome`), and the text.
pub record VerifyFailure : Type 0 where
  pub keys_unavailable : Bool
  pub text : Bytes

-- `goOIDCValidator`, with `Verify` of go-oidc, the decoding of the claims, and the texts of instants
-- and durations.
pub record OidcValidator : Type 0 where
  pub verify : Bytes → Result VerifyFailure IdToken
  pub raw_claims : Bytes → Result Bytes RawClaims
  pub clock : Rfc3339
  pub duration_text : ℤ → Bytes
  pub max_lifetime : ℤ
  pub allow_non_pod_bound_tokens : Bool

abbrev invalid_token_error : Bytes → ValidateError
invalid_token_error text = record {
  is_keys_unavailable = false;
  is_token_lifetime = false;
  is_token_not_pod_bound = false;
  message = codes "invalid token: " ++ text;
}

abbrev bad_lifetime : Bytes → ValidateError
bad_lifetime text = record {
  is_keys_unavailable = false;
  is_token_lifetime = true;
  is_token_not_pod_bound = false;
  message = codes "invalid token: " ++ text;
}

abbrev not_pod_bound_error : ValidateError
not_pod_bound_error = record {
  is_keys_unavailable = false;
  is_token_lifetime = false;
  is_token_not_pod_bound = true;
  message = codes "invalid token: token not bound to a pod: no kubernetes.io pod name and uid";
}

unfoldable pub verify_error : VerifyFailure → ValidateError
verify_error f =
    if f.keys_unavailable
    then record {
      is_keys_unavailable = true;
      is_token_lifetime = false;
      is_token_not_pod_bound = false;
      message = codes "token signing keys unavailable: " ++ f.text;
    }
    else invalid_token_error f.text

abbrev lifetime_text : Bytes → Bytes
lifetime_text text = codes "token lifetime not accepted: " ++ text

-- `checkLifetime`
unfoldable pub check_lifetime : Rfc3339 → (ℤ → Bytes) → ℕ → ℕ → ℕ → ℤ → Result ValidateError Unit
check_lifetime clock duration_text iat exp now max_lifetime =
    if iat == 0
    then err (bad_lifetime (lifetime_text (codes "no iat claim")))
    else if ltb (now + max_issued_at_skew) iat
    then err (
        bad_lifetime
          (lifetime_text (codes "issued in the future (iat " ++ clock.format iat ++ codes ")")))
    else if ltb_ℤ max_lifetime (sub exp iat)
    then err (
        bad_lifetime (
          lifetime_text (
            codes "lifetime "
            ++ duration_text (sub exp iat)
            ++ codes " exceeds the maximum "
            ++ duration_text max_lifetime)))
    else ok tt

abbrev pub verified : Result VerifyFailure IdToken → Result ValidateError IdToken
verified (ok t) = ok t
verified (err f) = err (verify_error f)

abbrev pub parsed : Result Bytes RawClaims → Result ValidateError RawClaims
parsed (ok raw) = ok raw
parsed (err text) = err (invalid_token_error (codes "parse claims: " ++ text))

-- The claims, less their two instants, which nothing reads.
abbrev pub claims_of : IdToken → RawClaims → Claims
claims_of t raw = record {
  issuer = t.issuer;
  subject = raw.sub_claim;
  audience = raw.aud;
  pod = raw.pod_name;
  pod_uid = raw.pod_uid;
  node = raw.node_name;
}

-- `Validate` at an instant.
unfoldable pub validate : OidcValidator → ℕ → Bytes → Result ValidateError Claims
validate v now token = do
  t ← verified (v.verify token)
  raw ← parsed (v.raw_claims token)
  check_lifetime v.clock v.duration_text t.issued_at t.expiry now v.max_lifetime
  require
      (v.allow_non_pod_bound_tokens || (not (is_empty raw.pod_name) && not (is_empty raw.pod_uid)))
      not_pod_bound_error
  ok (claims_of t raw)

-- `jwtSigningAlgs`
abbrev pub jwt_signing_algs : List Bytes
jwt_signing_algs =
    codes "RS256"
    ∷ codes "RS384"
    ∷ codes "RS512"
    ∷ codes "ES256"
    ∷ codes "ES384"
    ∷ codes "ES512"
    ∷ codes "PS256"
    ∷ codes "PS384"
    ∷ codes "PS512"
    ∷ codes "EdDSA"
    ∷ []

unfoldable pub is_known_alg : Bytes → List Bytes → Bool
is_known_alg a [] = false
is_known_alg a (known ∷ algs) = text_eq a known || is_known_alg a algs

-- `supportedAlgs`
unfoldable pub supported_algs : List Bytes → List Bytes
supported_algs [] = []
supported_algs (a ∷ advertised) =
    let rest = supported_algs advertised in
    if is_known_alg a jwt_signing_algs then a ∷ rest else rest

-- A token's signature as go-jose parsed it: the key ID it names, "" if none, and the payload where a
-- key verifies it.
pub record Jws (K : Type 0) : Type 0 where
  pub key_id : Bytes
  pub id_of : K → Bytes
  pub verify_key : K → Option Bytes

module _ {K : Type 0} (jws : Jws K) where
  -- `verifyWith`
  unfoldable pub verify_with : List K → Option Bytes
  verify_with [] = none
  verify_with (key ∷ keys) =
      let rest = verify_with keys in
      if not (is_empty jws.key_id) && not (text_eq (jws.id_of key) jws.key_id)
      then rest
      else elim (jws.verify_key key) [ some payload ↦ some payload | none ↦ rest ]

  unfoldable pub holds_id : List K → Bool
  holds_id [] = false
  holds_id (key ∷ keys) = text_eq (jws.id_of key) jws.key_id || holds_id keys

  -- `holdsKey`
  unfoldable pub holds_key : List K → Bool
  holds_key keys = if is_empty jws.key_id then false else holds_id keys

  abbrev pub or_refreshed :
      List K → Result Unit (List K) → List K → Option Bytes → Result Bool Bytes
  or_refreshed cached refreshed keys (some payload) = ok payload
  or_refreshed cached (ok fresh) keys none = err false
  or_refreshed cached (err u) keys none = err (not (holds_key cached) && not (holds_key keys))

  abbrev pub or_cached : List K → Result Unit (List K) → List K → Option Bytes → Result Bool Bytes
  or_cached cached refreshed keys (some payload) = ok payload
  or_cached cached refreshed keys none = or_refreshed cached refreshed keys (verify_with keys)

  -- `VerifySignature` of a token with one signature: the cached keys, whether the refresh failed, and
  -- the keys after it. An error says whether no current key set was available.
  unfoldable pub verify_signature : List K → Result Unit (List K) → List K → Result Bool Bytes
  verify_signature cached refreshed keys = or_cached cached refreshed keys (verify_with cached)
