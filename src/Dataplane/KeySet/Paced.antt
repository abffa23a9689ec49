-- ===== src/Dataplane/KeySet/Paced.antt =====
-- How often the key set is fetched (bridge/dataplane/oidc_keyset.go).
use harbor_workload_identity.Base.{
  ℕ, ◌+◌, ◌*◌, ◌≤◌, Bool, true, false, not, ◌&&◌, ◌≡◌, refl, Option, none, some, ok, err,
  if◌then◌else◌, arith,
}
use harbor_workload_identity.Dataplane.KeySet.{
  jwks_min_refresh, CachedKeySet, new_key_set, is_rested, may_fetch, is_stale, start_fetch,
  cached_keys, refreshed_keys, run_fetch, started, Runs, created, looked_up, refreshed, ended,
}

module _ (start : ℕ) where
  -- The fetches so far fit into the time until the end of the last one, or until now while one runs.
  abbrev Paced : Bool → Option ℕ → ℕ → ℕ → Type 0
  Paced true last t n = (start ≤ t) × (start + n * jwks_min_refresh ≤ t + jwks_min_refresh)
  Paced false none t n = (start ≤ t) × (n ≡ 0)
  Paced false (some last) t n =
      (start ≤ t) × (last ≤ t) × (start + n * jwks_min_refresh ≤ last + jwks_min_refresh)

  Paced-later :
      (b : Bool) (last : Option ℕ) (t now n : ℕ) → t ≤ now → Paced b last t n → Paced b last now n
  Paced-later true last t now n h p = (omega arith, omega arith)
  Paced-later false none t now n h p = (omega arith, p.1)
  Paced-later false (some last) t now n h p = (omega arith, omega arith, p.2)

  Paced-start :
      (last : Option ℕ) (t now n : ℕ)
      → t ≤ now
      → is_rested last now ≡ true
      → Paced false last t n
      → Paced true last now (n + 1)
  unfolding is_rested
  Paced-start none t now n h r p = (omega arith, omega arith)
  Paced-start (some last) t now n h r p = (omega arith, ground arith)

  started-Paced :
      (b : Bool) (last : Option ℕ) (t now n : ℕ)
      → t ≤ now
      → not b && is_rested last now ≡ true
      → Paced b last t n
      → Paced true last now (n + (if not b && true then 1 else 0))
  started-Paced true last t now n h may p = absurd cc
  started-Paced false last t now n h may p = Paced-start last t now n h may p

  kept-Paced :
      (b : Bool) (last : Option ℕ) (t now n : ℕ)
      → t ≤ now
      → Paced b last t n
      → Paced b last now (n + (if not b && b then 1 else 0))
  kept-Paced true last t now n h p = (omega arith, omega arith)
  kept-Paced false none t now n h p = (omega arith, omega arith)
  kept-Paced false (some last) t now n h p = (omega arith, omega arith, omega arith)

  ended-Paced :
      (b : Bool) (last : Option ℕ) (t now n : ℕ)
      → t ≤ now
      → b ≡ true
      → Paced b last t n
      → Paced false (some now) now n
  ended-Paced true last t now n h i p = (omega arith, omega arith, omega arith)
  ended-Paced false last t now n h i p = absurd cc

  Paced-le :
      (b : Bool) (last : Option ℕ) (t n : ℕ)
      → Paced b last t n
      → start + n * jwks_min_refresh ≤ t + jwks_min_refresh
  Paced-le true last t n p = p.1
  Paced-le false none t n p = rw p.1 (omega arith)
  Paced-le false (some last) t n p = omega arith

module _ {K E : Type 0} (start : ℕ) where
  -- A lookup or a refresh starts a fetch at most where it may.
  fetched_if-Paced :
      (b : Bool) (k : CachedKeySet K E) (t now n : ℕ)
      → t ≤ now
      → (b ≡ true → may_fetch k now ≡ true)
      → Paced start k.inflight k.done_at t n
      → Paced start
          (if b then start_fetch k else k).inflight
          (if b then start_fetch k else k).done_at
          now
          (n + started k (if b then start_fetch k else k))
  unfolding may_fetch start_fetch started
  fetched_if-Paced true k t now n h may p =
      started-Paced start k.inflight k.done_at t now n h (may refl) p
  fetched_if-Paced false k t now n h may p = kept-Paced start k.inflight k.done_at t now n h p

  Runs-Paced :
      {k : CachedKeySet K E} {t n : ℕ} → Runs start k t n → Paced start k.inflight k.done_at t n
  unfolding new_key_set cached_keys refreshed_keys run_fetch may_fetch
  Runs-Paced created = (omega arith, refl)
  Runs-Paced (looked_up k t now n r h) =
      fetched_if-Paced (is_stale k.fetched_at now && may_fetch k now) k t now n h
        (λ e. ground arith) (Runs-Paced r)
  Runs-Paced (refreshed k t now n r h) =
      fetched_if-Paced (may_fetch k now) k t now n h (λ e. e) (Runs-Paced r)
  Runs-Paced (ended k t now n (ok keys) r h i) =
      ended-Paced start k.inflight k.done_at t now n h i (Runs-Paced r)
  Runs-Paced (ended k t now n (err e) r h i) =
      ended-Paced start k.inflight k.done_at t now n h i (Runs-Paced r)

  -- Whatever requests come and whatever the fetches give, the fetches started since the key set was
  -- created are at most one more than the minimal refresh interval fits into the time since then.
  pub Runs-le :
      {k : CachedKeySet K E} {t n : ℕ}
      → Runs start k t n
      → start + n * jwks_min_refresh ≤ t + jwks_min_refresh
  Runs-le {k} {t} {n} r = Paced-le start k.inflight k.done_at t n (Runs-Paced r)
