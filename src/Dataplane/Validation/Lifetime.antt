-- ===== src/Dataplane/Validation/Lifetime.antt =====
-- How long an accepted token can live (`Validate` of bridge/dataplane/oidc.go).
use harbor_workload_identity.Base.{
  ℕ, ◌+◌, ◌≤◌, ◌<◌, true, not, ◌&&◌, ◌||◌, ◌≡◌, sym, ap, false, Result, ok, err, >>=-eq-ok,
  require-eq-ok, ok_injective, arith,
}
use harbor_workload_identity.Base.Int.{ℤ, pos, negsuc, sub_ℕ, ltb_ℤ}
use harbor_workload_identity.Instant.{Rfc3339, saturated}
use harbor_workload_identity.Decimal.{int64_max}
use harbor_workload_identity.Text.{Bytes, is_empty}
use harbor_workload_identity.Dataplane.Matching.{Claims}
use harbor_workload_identity.Dataplane.Oidc.{ValidateError}
use harbor_workload_identity.Dataplane.Validation.{
  max_issued_at_skew, IdToken, RawClaims, VerifyFailure, OidcValidator, check_lifetime, verified,
  parsed, claims_of, validate,
}

saturated-le :
    (max : ℕ) (d : ℤ)
    → max < int64_max
    → ltb_ℤ (pos max) (saturated d) ≡ false
    → ltb_ℤ (pos max) d ≡ false
unfolding saturated
saturated-le max (pos n) h e = ground arith
saturated-le max (negsuc n) h e = ground arith

check_lifetime-le :
    (clock : Rfc3339) (duration_text : ℤ → Bytes) (iat exp now max : ℕ) (limit : ℤ)
    → limit ≡ pos max
    → max < int64_max
    → check_lifetime clock duration_text iat exp now limit ≡ ok tt
    → (0 < iat) × (iat ≤ now + max_issued_at_skew) × (exp ≤ iat + max)
unfolding check_lifetime
check_lifetime-le clock duration_text iat exp now max (pos m) b h e =
    ground (arith, saturated-le m (sub_ℕ exp iat))
check_lifetime-le clock duration_text iat exp now max (negsuc m) b h e = absurd cc

verified_ok : (r : Result VerifyFailure IdToken) (t : IdToken) → verified r ≡ ok t → r ≡ ok t
verified_ok (ok x) t e = ap ok (ok_injective {E = ValidateError} e)
verified_ok (err f) t e = absurd cc

parsed_ok : (r : Result Bytes RawClaims) (raw : RawClaims) → parsed r ≡ ok raw → r ≡ ok raw
parsed_ok (ok x) raw e = ap ok (ok_injective {E = ValidateError} e)
parsed_ok (err f) raw e = absurd cc

-- Under a maximum lifetime below the greatest duration, the claims of an accepted token are those of a
-- token that go-oidc verified; it carries an issue time, at most the skew in the future, and expires
-- within the maximum lifetime from then, so within both from now; and it is bound to a pod unless other
-- tokens are allowed.
pub validate_accepted :
    (v : OidcValidator) (now max : ℕ) (token : Bytes) (claims : Claims)
    → v.max_lifetime ≡ pos max
    → max < int64_max
    → validate v now token ≡ ok claims
    → (t : IdToken) × (raw : RawClaims) × (v.verify token ≡ ok t)
      × (v.raw_claims token ≡ ok raw)
      × (claims ≡ claims_of t raw)
      × (0 < t.issued_at)
      × (t.issued_at ≤ now + max_issued_at_skew)
      × (t.expiry ≤ t.issued_at + max)
      × (t.expiry ≤ now + max_issued_at_skew + max)
      × ((v.allow_non_pod_bound_tokens
            || (not (is_empty claims.pod) && not (is_empty claims.pod_uid)))
          ≡ true)
unfolding validate
validate_accepted v now max token claims bound small e =
    let (t, v_ok, e1) = >>=-eq-ok (verified (v.verify token)) _ e in
    let (raw, r_ok, e2) = >>=-eq-ok (parsed (v.raw_claims token)) _ e1 in
    let (u, life, e3) =
      >>=-eq-ok (check_lifetime v.clock v.duration_text t.issued_at t.expiry now v.max_lifetime) _
        e2 in
    let (pod, e4) =
      require-eq-ok
        (v.allow_non_pod_bound_tokens
          || (not (is_empty raw.pod_name) && not (is_empty raw.pod_uid)))
        _ _ e3 in
    let same : claims_of t raw ≡ claims = ok_injective {E = ValidateError} e4 in
    let (issued, skew, short) =
      check_lifetime-le v.clock v.duration_text t.issued_at t.expiry now max v.max_lifetime bound
        small life in
    (
      t,
      raw,
      verified_ok (v.verify token) t v_ok,
      parsed_ok (v.raw_claims token) raw r_ok,
      sym same,
      issued,
      skew,
      short,
      omega arith,
      rw (sym same) pod,
    )
