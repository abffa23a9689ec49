-- ===== src/Dataplane/Limiter/Isolation.antt =====
-- The buckets of two sources under `Allow` (bridge/dataplane/ratelimit.go).
use harbor_workload_identity.Base.{ℕ, ◌-◌, ◌≤◌, Bool, ◌≡◌, ◌≢◌, List, [], ◌∷◌, some, arith, ◌∙◌}
use harbor_workload_identity.Text.{Bytes}
use harbor_workload_identity.Text.Prefix.{text_eq_iff}
use harbor_workload_identity.Dataplane.Limiter.{
  SourceBucket, SourceLimiter, source_idle_ttl, drop_idle, prune, find_bucket, put_bucket, allow,
}

module _ {L : Type 0} where
  find_bucket-drop_idle :
      (source : Bytes) (now : ℕ) (bs : List (SourceBucket L)) {b : SourceBucket L}
      → find_bucket source bs ≡ some b
      → now - b.seen ≤ source_idle_ttl
      → find_bucket source (drop_idle now bs) ≡ some b
  unfolding find_bucket drop_idle
  find_bucket-drop_idle source now [] e fresh = absurd (ground arith)
  find_bucket-drop_idle source now (c ∷ cs) {b} e fresh =
      ground (arith, find_bucket-drop_idle source now cs {b = b})

  find_bucket-prune :
      (source : Bytes) (now : ℕ) (s : SourceLimiter L) {b : SourceBucket L}
      → find_bucket source s.sources ≡ some b
      → now - b.seen ≤ source_idle_ttl
      → find_bucket source (prune now s).sources ≡ some b
  unfolding prune
  find_bucket-prune source now s {b} e fresh =
      ground (arith, find_bucket-drop_idle source now s.sources {b = b})

  find_bucket-put_bucket_other :
      (source : Bytes) (b : SourceBucket L) (bs : List (SourceBucket L))
      → source ≢ b.source
      → find_bucket source (put_bucket b bs) ≡ find_bucket source bs
  unfolding find_bucket put_bucket
  find_bucket-put_bucket_other source b [] n = ground (arith, text_eq_iff b.source source)
  find_bucket-put_bucket_other source b (c ∷ cs) n = ground (
    arith,
    text_eq_iff b.source source,
    text_eq_iff c.source source,
    text_eq_iff c.source b.source,
    find_bucket-put_bucket_other source b cs n,
  )

  pub find_bucket-put_bucket_self :
      (b : SourceBucket L) (bs : List (SourceBucket L))
      → find_bucket b.source (put_bucket b bs) ≡ some b
  unfolding find_bucket put_bucket
  find_bucket-put_bucket_self b [] = ground (arith, text_eq_iff b.source b.source)
  find_bucket-put_bucket_self b (c ∷ cs) = ground (
    arith,
    text_eq_iff b.source b.source,
    text_eq_iff c.source b.source,
    find_bucket-put_bucket_self b cs,
  )

  -- A request of one source leaves the bucket of every other source that was seen in the last ten
  -- minutes as it is, whatever the request is answered.
  pub allow_other :
      (new_limiter : L) (allow_n : ℕ → L → Bool × L) (source other : Bytes) (now : ℕ)
      (s : SourceLimiter L) (b : SourceBucket L)
      → other ≢ source
      → find_bucket other s.sources ≡ some b
      → now - b.seen ≤ source_idle_ttl
      → find_bucket other (allow new_limiter allow_n source now s).1.sources ≡ some b
  unfolding allow
  allow_other new_limiter allow_n source other now s b n e fresh =
      find_bucket-put_bucket_other other _ (prune now s).sources n
      ∙ find_bucket-prune other now s {b = b} e fresh
