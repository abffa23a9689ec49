-- ===== src/Naming/Ownership.antt =====
-- Whose robot a name says it is (`OwnsRobot` and `OwnsLegacyRobot` of
-- bridge/controlplane/harbor/naming.go).
use harbor_workload_identity.Base.{
  ◌+◌, length, length-append, true, false, ◌≡◌, ◌≢◌, refl, sym, ap, ◌∙◌, [], ◌∷◌, ◌++◌,
  append_assoc, Bool-cases, Option-cases, inl, inr, arith,
}
use harbor_workload_identity.Text.{Bytes, cut_prefix, has_byte}
use harbor_workload_identity.Text.Prefix.{
  has_prefix-append, has_prefix-split, cut_prefix-eq-some, split_unique, append-cancel_left,
  has_byte-append, has_byte-append_right,
}
use harbor_workload_identity.Naming.{
  robot_name_prefix, cluster_prefix, owns_robot, owns_legacy_robot,
}

-- A text without a dot, as every DNS label is.
abbrev pub DotFree : Bytes → Type 0
DotFree s = has_byte b'.' s ≡ false

pub cluster_prefix-append :
    (cluster s : Bytes) → cluster_prefix cluster ++ s ≡ robot_name_prefix ++ (cluster ++ b'.' ∷ s)
unfolding cluster_prefix
cluster_prefix-append cluster s = simp append_assoc

pub length-cluster_prefix : (cluster : Bytes) → length (cluster_prefix cluster) ≡ 8 + length cluster
unfolding cluster_prefix
length-cluster_prefix cluster = omega (arith, length-append cluster (b'.' ∷ []))

pub owns_robot-append :
    (cluster s : Bytes) → cluster ≢ [] → owns_robot cluster (cluster_prefix cluster ++ s) ≡ true
unfolding owns_robot
owns_robot-append [] s n = absurd (n refl)
owns_robot-append (c ∷ cs) s n = has_prefix-append (cluster_prefix (c ∷ cs)) s

pub owns_robot-split :
    (cluster name : Bytes)
    → owns_robot cluster name ≡ true
    → (r : Bytes) × (name ≡ robot_name_prefix ++ (cluster ++ b'.' ∷ r))
unfolding owns_robot
owns_robot-split cluster name h =
    let (r, e) = has_prefix-split (cluster_prefix cluster) name (ground arith) in
    (r, e ∙ cluster_prefix-append cluster r)

-- A robot name belongs to one cluster at most: of two clusters without dots that both own it,
-- each is the other.
pub owns_robot_unique :
    (c d name : Bytes)
    → DotFree c
    → DotFree d
    → owns_robot c name ≡ true
    → owns_robot d name ≡ true
    → c ≡ d
owns_robot_unique c d name fc fd h k =
    let (r, e) = owns_robot-split c name h in
    let (q, f) = owns_robot-split d name k in
    (split_unique b'.' c d r q fc fd (append-cancel_left robot_name_prefix _ _ (sym e ∙ f))).0

legacy_prefix-append :
    (cluster s : Bytes)
    → (robot_name_prefix ++ (cluster ++ b'-' ∷ [])) ++ s
      ≡ robot_name_prefix ++ (cluster ++ b'-' ∷ s)
legacy_prefix-append cluster s = simp append_assoc

pub owns_legacy_robot-split :
    (cluster name : Bytes)
    → owns_legacy_robot cluster name ≡ true
    → (r : Bytes) × (name ≡ robot_name_prefix ++ (cluster ++ b'-' ∷ r)) × DotFree r
unfolding owns_legacy_robot
owns_legacy_robot-split cluster name h =
    elim (Option-cases (cut_prefix (robot_name_prefix ++ (cluster ++ b'-' ∷ [])) name)) [
      | inl e ↦ absurd (ground arith)
      | inr (r, e) ↦ (
        r,
        cut_prefix-eq-some (robot_name_prefix ++ (cluster ++ b'-' ∷ [])) name e
            ∙ legacy_prefix-append cluster r,
        ground arith,
      )
    ]

legacy-DotFree :
    (cluster r : Bytes)
    → DotFree cluster
    → DotFree r
    → DotFree (robot_name_prefix ++ (cluster ++ b'-' ∷ r))
unfolding has_byte
legacy-DotFree cluster r h k = has_byte-append b'.' cluster (b'-' ∷ r) h k

-- No name is both a current name of some cluster and a legacy name of a cluster without dots.
pub owns_legacy_robot-owns_robot :
    (c d name : Bytes) → DotFree c → owns_legacy_robot c name ≡ true → owns_robot d name ≡ false
unfolding has_byte
owns_legacy_robot-owns_robot c d name fc h = elim (Bool-cases (owns_robot d name)) [
  | inr e ↦ e
  | inl e ↦
      let (r, p, fr) = owns_legacy_robot-split c name h in
      let (q, p') = owns_robot-split d name e in
      let dot : has_byte b'.' (robot_name_prefix ++ (d ++ b'.' ∷ q)) ≡ true =
        has_byte-append_right b'.' d (b'.' ∷ q) refl in
      cc (ap (has_byte b'.') p, ap (has_byte b'.') p', dot, legacy-DotFree c r fc fr)
]
