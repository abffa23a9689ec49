-- ===== src/Dataplane/Limiter/Memory.antt =====
-- How long `Allow` keeps a bucket (bridge/dataplane/ratelimit.go).
use harbor_workload_identity.Base.{ℕ, ◌+◌, ◌≤◌, Bool, List, [], ◌∷◌, All, arith}
use harbor_workload_identity.Text.{Bytes}
use harbor_workload_identity.Dataplane.Limiter.{
  SourceBucket, SourceLimiter, source_idle_ttl, prune_interval, drop_idle, prune, put_bucket, allow,
}

module _ {L : Type 0} where
  -- Seen at this instant or later.
  abbrev pub SeenSince : ℕ → SourceBucket L → Type 0
  SeenSince t b = t ≤ b.seen + source_idle_ttl

  -- Every bucket was seen within the idle time before the last pruning, or after it.
  abbrev pub IsPruned : SourceLimiter L → Type 0
  IsPruned s = All (SeenSince s.last_prune) s.sources

  drop_idle-All : (now : ℕ) (bs : List (SourceBucket L)) → All (SeenSince now) (drop_idle now bs)
  unfolding drop_idle
  drop_idle-All now [] = tt
  drop_idle-All now (b ∷ bs) = ground (arith, drop_idle-All now bs)

  put_bucket-All :
      (t : ℕ) (b : SourceBucket L) (bs : List (SourceBucket L))
      → SeenSince t b
      → All (SeenSince t) bs
      → All (SeenSince t) (put_bucket b bs)
  unfolding put_bucket
  put_bucket-All t b [] h k = (h, tt)
  put_bucket-All t b (c ∷ cs) h k = ground (arith, put_bucket-All t b cs)

  prune-IsPruned : (now : ℕ) (s : SourceLimiter L) → IsPruned s → IsPruned (prune now s)
  unfolding prune
  prune-IsPruned now s h = ground (arith, drop_idle-All now s.sources)

  -- What the limiter keeps at an instant: nothing older than the idle time and the pruning interval.
  abbrev pub IsRecent : ℕ → SourceLimiter L → Type 0
  IsRecent now s = All (λ b. now ≤ b.seen + (source_idle_ttl + prune_interval)) s.sources

  prune_last :
      (now : ℕ) (s : SourceLimiter L)
      → s.last_prune ≤ now
      → ((prune now s).last_prune ≤ now) × (now ≤ (prune now s).last_prune + prune_interval)
  unfolding prune
  prune_last now s h = ground arith

  All-recent :
      (t now : ℕ) (bs : List (SourceBucket L))
      → now ≤ t + prune_interval
      → All (SeenSince t) bs
      → All (λ b. now ≤ b.seen + (source_idle_ttl + prune_interval)) bs
  All-recent t now [] le h = tt
  All-recent t now (b ∷ bs) le h = (omega arith, All-recent t now bs le h.1)

  module _ (new_limiter : L) (allow_n : ℕ → L → Bool × L) where
    -- The state after a sequence of requests, each a source and an instant.
    unfoldable pub allow_all : List (Bytes × ℕ) → SourceLimiter L → SourceLimiter L
    allow_all [] s = s
    allow_all ((source, now) ∷ rs) s = allow_all rs (allow new_limiter allow_n source now s).1

    -- The instants never go back, and none is before this one.
    abbrev pub InOrder : ℕ → List (Bytes × ℕ) → Type 0
    InOrder t [] = Unit
    InOrder t ((source, now) ∷ rs) = (t ≤ now) × InOrder now rs

    allow-IsPruned :
        (source : Bytes) (now : ℕ) (s : SourceLimiter L)
        → s.last_prune ≤ now
        → IsPruned s
        → IsPruned (allow new_limiter allow_n source now s).1
          × ((allow new_limiter allow_n source now s).1.last_prune ≤ now)
          × IsRecent now (allow new_limiter allow_n source now s).1
    unfolding allow
    allow-IsPruned source now s le h =
        let (low, high) = prune_last now s le in
        let kept =
          put_bucket-All (prune now s).last_prune _ (prune now s).sources (omega arith)
            (prune-IsPruned now s h) in
        (kept, low, All-recent (prune now s).last_prune now _ high kept)

    -- The instant of the last request of a sequence, or the one given.
    abbrev pub last_instant : ℕ → List (Bytes × ℕ) → ℕ
    last_instant t [] = t
    last_instant t ((source, now) ∷ rs) = last_instant now rs

    allow_all-kept :
        (t : ℕ) (rs : List (Bytes × ℕ)) (s : SourceLimiter L)
        → InOrder t rs
        → s.last_prune ≤ t
        → IsPruned s
        → IsRecent t s
        → IsRecent (last_instant t rs) (allow_all rs s)
    unfolding allow_all
    allow_all-kept t [] s o le h r = r
    allow_all-kept t ((source, now) ∷ rs) s o le h r =
        let (kept, low, recent) = allow-IsPruned source now s (omega arith) h in
        allow_all-kept now rs (allow new_limiter allow_n source now s).1 o.1 low kept recent

    -- However many requests a new limiter has answered, in the order of the clock, the sources that
    -- it still holds a bucket of were all seen in the eleven minutes before the last request.
    pub allow_all-IsRecent :
        (rs : List (Bytes × ℕ))
        → InOrder 0 rs
        → IsRecent (last_instant 0 rs) (allow_all rs (record { sources = []; last_prune = 0 }))
    allow_all-IsRecent rs o =
        allow_all-kept 0 rs (record { sources = []; last_prune = 0 }) o (omega arith) tt tt
