-- ===== src/RobotSecret/Names.antt =====
-- `Name` and `ParseName` (bridge/internal/robotsecret/robotsecret.go).
use harbor_workload_identity.Base.{
  ℕ, ◌+◌, ◌≤◌, ◌≡◌, ◌≢◌, refl, ap, ◌∙◌, [], ◌∷◌, ◌++◌, some, length, take, length-append,
  length-take, inl, inr, Bool-cases, le→leb, leb→le, leb, ltb, if◌then◌else◌, arith,
}
use harbor_workload_identity.Text.{Bytes, trim_right}
use harbor_workload_identity.Text.Prefix.{cut_prefix-append, cut-append}
use harbor_workload_identity.Naming.{is_separator}
use harbor_workload_identity.Naming.Ownership.{DotFree}
use harbor_workload_identity.Naming.Bounds.{IsDigest, length-trim_right}
use harbor_workload_identity.RobotSecret.{
  name_prefix, name_max, with_digest, secret_name, parse_name,
}

-- The name that is not cut.
abbrev full_name : Bytes → Bytes → Bytes
full_name namespace name = name_prefix ++ (namespace ++ b'.' ∷ name)

secret_name-full_name :
    (hash_of : Bytes → Bytes) (namespace name : Bytes)
    → length (full_name namespace name) ≤ name_max
    → secret_name hash_of namespace name ≡ full_name namespace name
unfolding secret_name
secret_name-full_name hash_of namespace name short =
    rw (le→leb (length (full_name namespace name)) name_max short)

parse_name-full_name :
    (namespace name : Bytes)
    → DotFree namespace
    → namespace ≢ []
    → name ≢ []
    → parse_name (full_name namespace name) ≡ some (namespace, name)
unfolding parse_name
parse_name-full_name [] name f n m = absurd (n refl)
parse_name-full_name (c ∷ ns) [] f n m = absurd (m refl)
parse_name-full_name (c ∷ ns) (d ∷ name) f n m =
    rw (cut_prefix-append name_prefix ((c ∷ ns) ++ b'.' ∷ d ∷ name), parse_name)
      (rw (cut-append b'.' (c ∷ ns) (d ∷ name) f))

-- The Secret name of a HarborAccess whose namespace has no dot leads back to its namespace and name,
-- if neither is empty and the name is within 253 bytes.
pub parse_name-secret_name :
    (hash_of : Bytes → Bytes) (namespace name : Bytes)
    → DotFree namespace
    → namespace ≢ []
    → name ≢ []
    → 7 + length namespace + length name ≤ name_max
    → parse_name (secret_name hash_of namespace name) ≡ some (namespace, name)
parse_name-secret_name hash_of namespace name f n m short =
    ap parse_name (
      secret_name-full_name hash_of namespace name
        (omega (arith, length-append namespace (b'.' ∷ name))))
    ∙ parse_name-full_name namespace name f n m

length-with_digest :
    (mid digest : Bytes) → length (with_digest mid digest) ≤ length mid + 1 + length digest
unfolding with_digest
length-with_digest [] digest = omega arith
length-with_digest (c ∷ mid) digest = omega (arith, length-append (c ∷ mid) (b'.' ∷ digest))

length-cut : (b : ℕ) (mid : Bytes) → length (if ltb b (length mid) then take b mid else mid) ≤ b
length-cut b mid = ground (arith, length-take b mid)

-- A Secret name has at most 253 bytes.
pub length-secret_name :
    (hash_of : Bytes → Bytes) (namespace name : Bytes)
    → IsDigest hash_of
    → length (secret_name hash_of namespace name) ≤ name_max
unfolding secret_name
length-secret_name hash_of namespace name d =
    let mid : Bytes = namespace ++ b'.' ∷ name in
    let cut_mid : Bytes = if ltb 230 (length mid) then take 230 mid else mid in
    elim (Bool-cases (leb (length (full_name namespace name)) name_max)) [
      | inl short ↦ rw short (leb→le (length (full_name namespace name)) name_max short)
      | inr over ↦ rw over (
          omega (
            arith,
            length-with_digest (trim_right is_separator cut_mid) (hash_of (namespace ++ 0 ∷ name)),
            length-trim_right is_separator cut_mid,
            length-cut 230 mid,
            d (namespace ++ 0 ∷ name),
          ))
    ]
