-- ===== src/Naming/Bounds.antt =====
-- The length, form and prefix of a robot name (`RobotName` of bridge/controlplane/harbor/naming.go).
use harbor_workload_identity.Base.{
  ℕ, ◌≤◌, Bool, true, ◌≡◌, ◌≢◌, ap, [], ◌∷◌, ◌++◌, ok, length, take, length-append, length-take,
  inl, inr, List-cases, arith,
}
use harbor_workload_identity.Text.{Bytes, trim_right}
use harbor_workload_identity.Naming.{
  robot_name_cap, hash_suffix_len, natural_name, is_separator, robot_name, owns_robot,
}
use harbor_workload_identity.Naming.Ownership.{owns_robot-append}
use harbor_workload_identity.Naming.Grammar.{MatchesName, is_valid_harbor_robot_name_iff}
use harbor_workload_identity.Naming.Shape.{
  room, kept, NameShape, natural, truncated, digest_only, robot_name-NameShape,
}

-- A digest is 16 hexadecimal digits long (the only property of SHA-256 used here).
abbrev pub IsDigest : (Bytes → Bytes) → Type 0
IsDigest hash_of = (s : Bytes) → length (hash_of s) ≡ hash_suffix_len

pub length-trim_right : (p : ℕ → Bool) (s : Bytes) → length (trim_right p s) ≤ length s
unfolding trim_right
length-trim_right p [] = omega arith
length-trim_right p (c ∷ s) = elim (List-cases (trim_right p s)) [
  | inl e ↦ rw (e, trim_right) (ground arith)
  | inr (d, r, e) ↦ rw (e, trim_right) (omega (arith, ap length e, length-trim_right p s))
]

pub kept-le : (cluster ns sa : Bytes) → length (kept cluster ns sa) ≤ room cluster
kept-le cluster ns sa = omega (
  arith,
  length-trim_right is_separator (take (room cluster) (ns ++ b'.' ∷ sa)),
  length-take (room cluster) (ns ++ b'.' ∷ sa),
)

module _ (hash_of : Bytes → Bytes) (cluster ns sa : Bytes) where
  NameShape-length :
      {name : Bytes}
      → IsDigest hash_of
      → NameShape hash_of cluster ns sa name
      → length name ≤ robot_name_cap
  NameShape-length d (natural fits e) = rw e fits
  NameShape-length d (truncated over left e) = rw e (
      rw (length-append, length-append)
        (omega (arith, kept-le cluster ns sa, d (natural_name cluster ns sa))))
  NameShape-length d (digest_only over left none_kept e) =
      rw e (rw length-append (omega (arith, d (natural_name cluster ns sa))))

  NameShape-owns :
      {name : Bytes}
      → cluster ≢ []
      → NameShape hash_of cluster ns sa name
      → owns_robot cluster name ≡ true
  NameShape-owns n (natural fits e) =
      rw e (unfold natural_name in owns_robot-append cluster (ns ++ b'.' ∷ sa) n)
  NameShape-owns n (truncated over left e) = rw e (owns_robot-append cluster _ n)
  NameShape-owns n (digest_only over left none_kept e) = rw e (owns_robot-append cluster _ n)

  -- A name that `RobotName` returns has at most 240 bytes, matches Harbor's rule, and is a name the
  -- cluster owns (the cluster's name not being empty).
  pub robot_name-owns_robot :
      {name : Bytes}
      → IsDigest hash_of
      → cluster ≢ []
      → robot_name hash_of cluster ns sa ≡ ok name
      → (length name ≤ robot_name_cap) × MatchesName name × (owns_robot cluster name ≡ true)
  robot_name-owns_robot {name} d n e =
      let (shape, valid) = robot_name-NameShape hash_of cluster ns sa e in
      (
        NameShape-length d shape,
        (is_valid_harbor_robot_name_iff name).0 valid,
        NameShape-owns n shape,
      )
