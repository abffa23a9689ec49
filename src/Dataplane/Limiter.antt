-- ===== src/Dataplane/Limiter.antt =====
-- The token bucket per source of bridge/dataplane/ratelimit.go. One bucket is the `rate.Limiter` of
-- golang.org/x/time: its state, a new one and `AllowN(now, 1)` are parameters.
pub mod Isolation
pub mod Memory
use harbor_workload_identity.Base.{
  ℕ, ◌-◌, ◌*◌, Bool, true, false, List, [], ◌∷◌, Option, none, some, ltb, if◌then◌else◌,
}
use harbor_workload_identity.Text.{Bytes, text_eq}
use harbor_workload_identity.Instant.{minute}

-- `sourceIdleTTL` and `pruneInterval`.
abbrev pub source_idle_ttl : ℕ
source_idle_ttl = 10 * minute

abbrev pub prune_interval : ℕ
prune_interval = minute

-- An entry of `sources`: the source and its `sourceBucket`.
pub record SourceBucket (L : Type 0) : Type 0 where
  pub source : Bytes
  pub limiter : L
  pub seen : ℕ

pub record SourceLimiter (L : Type 0) : Type 0 where
  pub sources : List (SourceBucket L)
  pub last_prune : ℕ

module _ {L : Type 0} where
  -- The loop that drops idle buckets.
  unfoldable pub drop_idle : ℕ → List (SourceBucket L) → List (SourceBucket L)
  drop_idle now [] = []
  drop_idle now (b ∷ bs) =
      let rest = drop_idle now bs in if ltb source_idle_ttl (now - b.seen) then rest else b ∷ rest

  unfoldable pub prune : ℕ → SourceLimiter L → SourceLimiter L
  unfolding drop_idle
  prune now s =
      if ltb prune_interval (now - s.last_prune)
      then record { sources = drop_idle now s.sources; last_prune = now }
      else s

  -- `s.sources[source]`
  unfoldable pub find_bucket : Bytes → List (SourceBucket L) → Option (SourceBucket L)
  find_bucket source [] = none
  find_bucket source (b ∷ bs) =
      let rest = find_bucket source bs in if text_eq b.source source then some b else rest

  unfoldable pub put_bucket : SourceBucket L → List (SourceBucket L) → List (SourceBucket L)
  put_bucket b [] = b ∷ []
  put_bucket b (c ∷ cs) =
      let rest = put_bucket b cs in if text_eq c.source b.source then b ∷ cs else c ∷ rest

  module _ (new_limiter : L) (allow_n : ℕ → L → Bool × L) where
    -- The state of the source's bucket, a new one if it has none.
    unfoldable pub limiter_of : Bytes → List (SourceBucket L) → L
    limiter_of source bs = elim (find_bucket source bs) [ none ↦ new_limiter | some b ↦ b.limiter ]

    -- `Allow` of a limiter that is not nil.
    unfoldable pub allow : Bytes → ℕ → SourceLimiter L → Bool × SourceLimiter L
    unfolding prune limiter_of
    allow source now s =
        let p = prune now s in
        let r = allow_n now (limiter_of source p.sources) in
        (
          r.0,
          record {
            sources = put_bucket (record { source = source; limiter = r.1; seen = now }) p.sources;
            last_prune = p.last_prune;
          },
        )

    -- `Allow`; a nil limiter allows every request.
    unfoldable pub allow_or_nil :
        Bytes → ℕ → Option (SourceLimiter L) → Bool × Option (SourceLimiter L)
    allow_or_nil source now none = (true, none)
    allow_or_nil source now (some s) = let r = allow source now s in (r.0, some r.1)
