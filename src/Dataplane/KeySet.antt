-- ===== src/Dataplane/KeySet.antt =====
-- The refresh of the signing keys (`cachedKeySet` of bridge/dataplane/oidc_keyset.go) as a state machine:
-- requests and the end of a fetch are its steps, in the order of the mutex.
pub mod Paced
use harbor_workload_identity.Base.{
  ℕ, suc, ◌+◌, ◌-◌, ◌*◌, ◌≤◌, Bool, true, false, not, ◌&&◌, ◌||◌, ◌≡◌, List, [], ◌∷◌, Option, none,
  some, Result, ok, err, ltb, leb, if◌then◌else◌,
}
use harbor_workload_identity.Instant.{second, minute}

-- `jwksMinRefresh` and `jwksMaxAge`.
abbrev pub jwks_min_refresh : ℕ
jwks_min_refresh = 30 * second

abbrev pub jwks_max_age : ℕ
jwks_max_age = 10 * minute

-- `cachedKeySet` over keys and errors of any type; Go's zero time is `none`, and `inflight` says that a
-- fetch runs.
pub record CachedKeySet (K E : Type 0) : Type 0 where
  pub keys : List K
  pub fetched_at : Option ℕ
  pub done_at : Option ℕ
  pub last_err : Option E
  pub inflight : Bool

-- `k.doneAt.IsZero() || now.Sub(k.doneAt) >= jwksMinRefresh`, on a clock that does not go back.
unfoldable pub is_rested : Option ℕ → ℕ → Bool
is_rested none now = true
is_rested (some last) now = leb (last + jwks_min_refresh) now

-- `stale` of cachedKeys.
unfoldable pub is_stale : Option ℕ → ℕ → Bool
is_stale none now = true
is_stale (some fetched) now = ltb (fetched + jwks_max_age) now

module _ {K E : Type 0} where
  -- `newCachedKeySet`
  unfoldable pub new_key_set : CachedKeySet K E
  new_key_set = record {
    keys = [];
    fetched_at = none;
    done_at = none;
    last_err = none;
    inflight = false;
  }

  -- `mayFetchLocked`
  unfoldable pub may_fetch : CachedKeySet K E → ℕ → Bool
  may_fetch k now = not k.inflight && is_rested k.done_at now

  -- `startFetchLocked`
  unfoldable pub start_fetch : CachedKeySet K E → CachedKeySet K E
  start_fetch k = record {
    keys = k.keys;
    fetched_at = k.fetched_at;
    done_at = k.done_at;
    last_err = k.last_err;
    inflight = true;
  }

  -- The state after `cachedKeys`, which returns its keys.
  unfoldable pub cached_keys : CachedKeySet K E → ℕ → CachedKeySet K E
  cached_keys k now = if is_stale k.fetched_at now && may_fetch k now then start_fetch k else k

  -- The state after `refreshedKeys` has taken or started a fetch, or returned at once.
  unfoldable pub refreshed_keys : CachedKeySet K E → ℕ → CachedKeySet K E
  refreshed_keys k now = if may_fetch k now then start_fetch k else k

  -- `runFetch`, from the lock on.
  unfoldable pub run_fetch : CachedKeySet K E → ℕ → Result E (List K) → CachedKeySet K E
  run_fetch k now (ok keys) = record {
    keys = keys;
    fetched_at = some now;
    done_at = some now;
    last_err = none;
    inflight = false;
  }
  run_fetch k now (err e) = record {
    keys = k.keys;
    fetched_at = k.fetched_at;
    done_at = some now;
    last_err = some e;
    inflight = false;
  }

  -- The fetches that a step started.
  unfoldable pub started : CachedKeySet K E → CachedKeySet K E → ℕ
  started before after = if not before.inflight && after.inflight then 1 else 0

  -- What can happen from an instant on: the state, the instant of the last step, and the number of
  -- fetches started so far. Only a fetch that runs can end.
  pub data Runs (start : ℕ) : CachedKeySet K E → ℕ → ℕ → Type 0 where
    created : Runs start new_key_set start 0
    looked_up :
        (k : CachedKeySet K E) (t now n : ℕ)
        → Runs start k t n
        → t ≤ now
        → Runs start (cached_keys k now) now (n + started k (cached_keys k now))
    refreshed :
        (k : CachedKeySet K E) (t now n : ℕ)
        → Runs start k t n
        → t ≤ now
        → Runs start (refreshed_keys k now) now (n + started k (refreshed_keys k now))
    ended :
        (k : CachedKeySet K E) (t now n : ℕ) (result : Result E (List K))
        → Runs start k t n
        → t ≤ now
        → k.inflight ≡ true
        → Runs start (run_fetch k now result) now n
