-- ===== src/Instant.antt =====
-- Instants (time.Time) as nanoseconds since Go's zero time, 0001-01-01T00:00:00Z, and durations
-- (time.Duration) as integers of nanoseconds.
use harbor_workload_identity.Base.{
  ℕ, ◌*◌, ◌/◌, ◌%◌, ◌<◌, Bool, ◌≡◌, Option, some, ltb, if◌then◌else◌,
}
use harbor_workload_identity.Base.Int.{ℤ, pos, negsuc, sub_ℕ}
use harbor_workload_identity.Text.{Bytes}
use harbor_workload_identity.Decimal.{int64_max}

-- `time.Second` and larger units.
abbrev pub second : ℕ
second = 1_000_000_000

abbrev pub minute : ℕ
minute = 60 * second

abbrev pub hour : ℕ
hour = 60 * minute

-- A difference beyond what time.Duration holds is its least or its greatest value.
unfoldable pub saturated : ℤ → ℤ
saturated (pos n) = if ltb int64_max n then pos int64_max else pos n
saturated (negsuc n) = if ltb int64_max n then negsuc int64_max else negsuc n

-- `t.Sub(u)`
abbrev pub sub : ℕ → ℕ → ℤ
sub t u = saturated (sub_ℕ t u)

-- `t.Before(u)`
abbrev pub before : ℕ → ℕ → Bool
before = ltb

-- `t.Truncate(time.Second)` of an instant.
abbrev pub floor_second : ℕ → ℕ
floor_second t = t / second * second

-- The first instant of the year 10000, which RFC 3339 cannot write.
abbrev pub year_10000 : ℕ
year_10000 = 3652059 * 24 * hour

-- `Format(time.RFC3339)` of an instant in UTC and `time.Parse(time.RFC3339, s)` of Go's time package.
pub record Rfc3339 : Type 0 where
  pub format : ℕ → Bytes
  pub parse : Bytes → Option ℕ
  -- What is written of a whole second is read back.
  pub parse-format : (t : ℕ) → t % second ≡ 0 → t < year_10000 → parse (format t) ≡ some t
