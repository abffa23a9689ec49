-- ===== src/Dataplane/CacheTtl.antt =====
-- How long kubelet may cache a credential (`cacheDuration` of bridge/dataplane/handler.go).
use harbor_workload_identity.Base.{
  ℕ, zero, suc, ◌+◌, ◌-◌, ◌/◌, ◌≤◌, ◌<◌, ◌≡◌, ◌⊎◌, Option, none, some, leb, ltb, if◌then◌else◌,
  arith,
}
use harbor_workload_identity.Base.Int.{ℤ, pos, negsuc}
use harbor_workload_identity.Instant.{second, hour, floor_second}

-- `if ttl <= 0 { ttl = time.Hour }`
unfoldable pub effective_ttl : ℤ → ℕ
effective_ttl (pos zero) = hour
effective_ttl (pos (suc n)) = suc n
effective_ttl (negsuc n) = hour

-- The promised instant is `none` where Go's `hasNotBefore` is false. `remaining` is positive exactly
-- when `now` is before the promised instant.
unfoldable pub cache_duration : ℤ → Option ℕ → ℕ → ℕ
unfolding effective_ttl
cache_duration token_ttl none now = effective_ttl token_ttl
cache_duration token_ttl (some not_before) now =
    let remaining = not_before - now in
    if leb not_before now
    then 0
    else if ltb remaining (effective_ttl token_ttl)
    then floor_second remaining
    else effective_ttl token_ttl

-- `int(ttl / time.Second)`
abbrev pub whole_seconds : ℕ → ℕ
whole_seconds ttl = ttl / second

effective_ttl_pos : (t : ℤ) → 0 < effective_ttl t
unfolding effective_ttl
effective_ttl_pos (pos zero) = omega arith
effective_ttl_pos (pos (suc n)) = omega arith
effective_ttl_pos (negsuc n) = omega arith

-- The cache never outlives the promise: a duration that is not 0 ends no later than the promised
-- instant, and no duration exceeds the configured one.
pub cache_duration-le :
    (token_ttl : ℤ) (not_before now : ℕ)
    → ((cache_duration token_ttl (some not_before) now ≡ 0)
        ⊎ (now + cache_duration token_ttl (some not_before) now ≤ not_before))
      × (cache_duration token_ttl (some not_before) now ≤ effective_ttl token_ttl)
unfolding cache_duration
cache_duration-le token_ttl not_before now = ground arith
