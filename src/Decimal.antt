-- ===== src/Decimal.antt =====
-- `strconv.FormatInt(n, 10)` and `strconv.ParseInt(s, 10, 64)`.
use harbor_workload_identity.Base.{
  ℕ, zero, suc, ◌+◌, ◌-◌, ◌*◌, ◌/◌, ◌%◌, ◌≤◌, ◌<◌, Bool, true, false, ◌&&◌, ◌≡◌, ◌≢◌, refl, sym, ap,
  ◌∙◌, [], ◌∷◌, ◌++◌, Option, none, some, ◌==◌, ltb, leb, Bool-cases, inl, inr, if◌then◌else◌,
  arith,
}
use harbor_workload_identity.Base.Int.{ℤ, pos, negsuc}
use harbor_workload_identity.Text.{Bytes}

-- The digits of a number, on fuel above it.
unfoldable pub format_digits : ℕ → ℕ → Bytes
format_digits zero n = []
format_digits (suc f) n =
    let front = format_digits f (n / 10) in
    if ltb n 10 then (48 + n) ∷ [] else front ++ (48 + n % 10) ∷ []

unfoldable pub format_int : ℤ → Bytes
format_int (pos n) = format_digits (suc n) n
format_int (negsuc n) = b'-' ∷ format_digits (suc (suc n)) (suc n)

unfoldable pub parse_digits : ℕ → Bytes → Option ℕ
parse_digits acc [] = some acc
parse_digits acc (c ∷ s) =
    let rest = parse_digits (acc * 10 + (c - 48)) s in if leb 48 c && leb c 57 then rest else none

-- The number after an optional sign; none for no digits.
unfoldable pub parse_unsigned : Bytes → Option ℕ
unfolding parse_digits
parse_unsigned [] = none
parse_unsigned (c ∷ s) = parse_digits 0 (c ∷ s)

abbrev pub int64_max : ℕ
int64_max = 9223372036854775807

abbrev in_range : Bool → Option ℕ → Option ℤ
in_range negative none = none
in_range true (some zero) = some (pos 0)
in_range true (some (suc n)) = if leb n int64_max then some (negsuc n) else none
in_range false (some n) = if leb n int64_max then some (pos n) else none

unfoldable pub parse_int : Bytes → Option ℤ
parse_int [] = none
parse_int (c ∷ s) =
    if c == b'-'
    then in_range true (parse_unsigned s)
    else if c == b'+'
    then in_range false (parse_unsigned s)
    else in_range false (parse_unsigned (c ∷ s))

parse_digits-append :
    (s : Bytes) (acc d n : ℕ)
    → d < 10
    → parse_digits acc s ≡ some n
    → parse_digits acc (s ++ (48 + d) ∷ []) ≡ some (n * 10 + d)
unfolding parse_digits
parse_digits-append [] acc d n h e = ground arith
parse_digits-append (c ∷ s) acc d n h e =
    ground (arith, parse_digits-append s (acc * 10 + (c - 48)) d n h)

parse_digits-format_digits : (f n : ℕ) → n < f → parse_digits 0 (format_digits f n) ≡ some n
unfolding format_digits
parse_digits-format_digits zero n h = elim h [ ]
parse_digits-format_digits (suc f) n h = elim (Bool-cases (ltb n 10)) [
  | inl small ↦ rw small (unfold parse_digits in ground arith)
  | inr large ↦ rw large (
      parse_digits-append (format_digits f (n / 10)) 0 (n % 10) (n / 10) (omega arith)
        (parse_digits-format_digits f (n / 10) (ground arith))
      ∙ ap some (omega arith))
]

-- The digits start with a digit.
pub digits_head :
    (f n : ℕ) → n < f → (c : ℕ) × (s : Bytes) × (format_digits f n ≡ c ∷ s) × (48 ≤ c) × (c ≤ 57)
unfolding format_digits
digits_head zero n h = elim h [ ]
digits_head (suc f) n h = elim (Bool-cases (ltb n 10)) [
  | inl small ↦ (48 + n, [], ground arith, omega arith, ground arith)
  | inr large ↦
      let (c, s, e, lo, hi) = digits_head f (n / 10) (ground arith) in
      (c, s ++ (48 + n % 10) ∷ [], ground arith, lo, hi)
]

-- The int64 values.
abbrev pub IsInt64 : ℤ → Type 0
IsInt64 (pos n) = n ≤ int64_max
IsInt64 (negsuc n) = n ≤ int64_max

parse_unsigned-parse_digits : (s : Bytes) → s ≢ [] → parse_unsigned s ≡ parse_digits 0 s
unfolding parse_unsigned
parse_unsigned-parse_digits [] h = absurd (h refl)
parse_unsigned-parse_digits (c ∷ s) h = refl

parse_unsigned-format_digits : (f n : ℕ) → n < f → parse_unsigned (format_digits f n) ≡ some n
parse_unsigned-format_digits f n h =
    let (c, s, e, lo, hi) = digits_head f n h in
    parse_unsigned-parse_digits (format_digits f n) (λ none_written. cc)
    ∙ parse_digits-format_digits f n h

parse_int-digit :
    (c : ℕ) (s : Bytes) (n : ℕ)
    → 48 ≤ c
    → c ≤ 57
    → n ≤ int64_max
    → parse_unsigned (c ∷ s) ≡ some n
    → parse_int (c ∷ s) ≡ some (pos n)
unfolding parse_int
parse_int-digit c s n lo hi h e = ground arith

-- A printed int64 is read back.
pub parse_int-format_int : (n : ℤ) → IsInt64 n → parse_int (format_int n) ≡ some n
unfolding format_int
parse_int-format_int (pos n) h =
    let (c, s, e, lo, hi) = digits_head (suc n) n (omega arith) in
    ap parse_int e
    ∙ parse_int-digit c s n lo hi h
        (ap parse_unsigned (sym e) ∙ parse_unsigned-format_digits (suc n) n (omega arith))
parse_int-format_int (negsuc n) h =
    let e = parse_unsigned-format_digits (suc (suc n)) (suc n) (omega arith) in
    unfold parse_int in ground arith
