-- ===== src/Tests/Keys.antt =====
-- A token under the key that the bridge fetched.
use harbor_workload_identity.Base.{
  ℕ, ◌+◌, ◌*◌, ◌≤◌, ◌<◌, true, false, not, ◌&&◌, ◌||◌, ◌≡◌, refl, [], ◌∷◌, some, ok, arith,
}
use harbor_workload_identity.Base.Int.{pos}
use harbor_workload_identity.Text.{codes, is_empty}
use harbor_workload_identity.Instant.{second, minute, hour}
use harbor_workload_identity.Dataplane.Validation.{
  max_issued_at_skew, IdToken, RawClaims, OidcValidator, Jws, claims_of, validate, verify_signature,
}
use harbor_workload_identity.Dataplane.Validation.Lifetime.{validate_accepted}
use harbor_workload_identity.Dataplane.Validation.Signed.{Judged, verify_signature-Judged}
use harbor_workload_identity.Dataplane.KeySet.{
  CachedKeySet, jwks_min_refresh, new_key_set, cached_keys, run_fetch, created, looked_up,
  refreshed, ended, Runs,
}
use harbor_workload_identity.Dataplane.KeySet.Paced.{Runs-le}
use harbor_workload_identity.Tests.Samples.{clock, issuer, audience}

-- A token of an hour, issued an hour after the zero time.
abbrev id_token : IdToken
id_token = record { issuer = issuer; issued_at = hour; expiry = 2 * hour }

abbrev raw_claims_of_token : RawClaims
raw_claims_of_token = record {
  sub_claim = codes "system:serviceaccount:team:builder";
  aud = audience ∷ [];
  pod_name = codes "p";
  pod_uid = codes "1";
  node_name = codes "n";
}

abbrev validator : OidcValidator
validator = record {
  verify = λ token. ok id_token;
  raw_claims = λ token. ok raw_claims_of_token;
  clock = clock;
  duration_text = λ d. [];
  max_lifetime = pos (24 * hour);
  allow_non_pod_bound_tokens = false;
}

accepted :
    validate validator (hour + minute) (codes "t") ≡ ok (claims_of id_token raw_claims_of_token)
unfolding validate harbor_workload_identity.Dataplane.Validation.check_lifetime
    harbor_workload_identity.Instant.saturated
accepted = refl

validate_accepted_example :
    (t : IdToken) × (raw : RawClaims) × (validator.verify (codes "t") ≡ ok t)
    × (validator.raw_claims (codes "t") ≡ ok raw)
    × (claims_of id_token raw_claims_of_token ≡ claims_of t raw)
    × (0 < t.issued_at)
    × (t.issued_at ≤ hour + minute + max_issued_at_skew)
    × (t.expiry ≤ t.issued_at + 24 * hour)
    × (t.expiry ≤ hour + minute + max_issued_at_skew + 24 * hour)
    × ((false || (not (is_empty (codes "p")) && not (is_empty (codes "1")))) ≡ true)
validate_accepted_example =
    validate_accepted validator (hour + minute) (24 * hour) (codes "t")
      (claims_of id_token raw_claims_of_token) refl (omega arith) accepted

-- The keys are numbers; only the second one is the token's.
abbrev jws : Jws ℕ
jws = record { key_id = codes "b"; id_of = λ key. key ∷ []; verify_key = λ key. some (key ∷ []) }

verify_signature-Judged_example :
    Judged jws
      (b'a' ∷ [])
      (ok (b'b' ∷ []))
      (b'b' ∷ [])
      (verify_signature jws (b'a' ∷ []) (ok (b'b' ∷ [])) (b'b' ∷ []))
verify_signature-Judged_example =
    verify_signature-Judged jws (b'a' ∷ []) (ok (b'b' ∷ [])) (b'b' ∷ [])

abbrev fresh_key_set : CachedKeySet ℕ Unit
fresh_key_set = new_key_set

-- A lookup starts the first fetch, which gives a key; no later lookup of the next minutes starts one.
abbrev looked_up_once : CachedKeySet ℕ Unit
looked_up_once = cached_keys fresh_key_set hour

abbrev fetched_keys : CachedKeySet ℕ Unit
fetched_keys = run_fetch looked_up_once (hour + 5 * second) (ok (b'b' ∷ []))

first_fetch : Runs hour fetched_keys (hour + 5 * second) 1
unfolding harbor_workload_identity.Dataplane.KeySet.started new_key_set cached_keys
    harbor_workload_identity.Dataplane.KeySet.is_stale
    harbor_workload_identity.Dataplane.KeySet.may_fetch
    harbor_workload_identity.Dataplane.KeySet.is_rested
    harbor_workload_identity.Dataplane.KeySet.start_fetch
first_fetch =
    ended looked_up_once hour (hour + 5 * second) 1 (ok (b'b' ∷ []))
      (looked_up fresh_key_set hour hour 0 created (omega arith)) (omega arith) refl

Runs-le_example : hour + 1 * jwks_min_refresh ≤ hour + 5 * second + jwks_min_refresh
Runs-le_example = Runs-le hour first_fetch
