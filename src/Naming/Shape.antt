-- ===== src/Naming/Shape.antt =====
-- The three forms of a robot name (`robotName` of bridge/controlplane/harbor/naming.go): natural,
-- truncated with a digest, and the digest alone.
use harbor_workload_identity.Base.{
  ℕ, ◌-◌, ◌≤◌, ◌<◌, true, ◌≡◌, [], ◌∷◌, ◌++◌, ok, Bool-cases, inl, inr, leb, ltb, List-cases,
  >>=-eq-ok, ap, ◌∙◌, length, take, arith,
}
use harbor_workload_identity.Text.{Bytes, trim_right}
use harbor_workload_identity.Naming.{
  robot_name_cap, hash_suffix_len, cluster_prefix, natural_name, is_separator, truncated_name,
  raw_robot_name, robot_name, is_valid_harbor_robot_name,
}

-- The bytes that the truncated form leaves for namespace and name.
abbrev pub room : Bytes → ℕ
room cluster = robot_name_cap - length (cluster_prefix cluster) - 1 - hash_suffix_len

-- What the truncated form keeps of namespace and name.
abbrev pub kept : Bytes → Bytes → Bytes → Bytes
kept cluster ns sa = trim_right is_separator (take (room cluster) (ns ++ b'.' ∷ sa))

module _ (hash_of : Bytes → Bytes) (cluster ns sa : Bytes) where
  pub data NameShape (name : Bytes) : Type 0 where
    natural :
        length (natural_name cluster ns sa) ≤ robot_name_cap
        → name ≡ natural_name cluster ns sa
        → NameShape name
    truncated :
        robot_name_cap < length (natural_name cluster ns sa)
        → 1 ≤ room cluster
        → name
          ≡ cluster_prefix cluster
            ++ (kept cluster ns sa ++ b'.' ∷ hash_of (natural_name cluster ns sa))
        → NameShape name
    digest_only :
        robot_name_cap < length (natural_name cluster ns sa)
        → 1 ≤ room cluster
        → kept cluster ns sa ≡ []
        → name ≡ cluster_prefix cluster ++ hash_of (natural_name cluster ns sa)
        → NameShape name

  truncated_name-NameShape :
      {name : Bytes}
      → robot_name_cap < length (natural_name cluster ns sa)
      → truncated_name hash_of cluster ns sa ≡ ok name
      → NameShape name
  unfolding truncated_name
  truncated_name-NameShape over e = elim (Bool-cases (ltb (room cluster) 1)) [
    | inl none_left ↦ absurd (ground arith)
    | inr left ↦ elim (List-cases (kept cluster ns sa)) [
      | inl nothing ↦ digest_only over (ground arith) nothing (ground arith)
      | inr (c, mid, some_bytes) ↦ truncated over (ground arith) (ground arith)
    ]
  ]

  raw_robot_name-NameShape :
      {name : Bytes} → raw_robot_name hash_of cluster ns sa ≡ ok name → NameShape name
  unfolding raw_robot_name
  raw_robot_name-NameShape e =
      elim (Bool-cases (leb (length (natural_name cluster ns sa)) robot_name_cap)) [
        | inl fits ↦ natural (ground arith) (ground arith)
        | inr over ↦ truncated_name-NameShape (ground arith) (ground arith)
      ]

  pub robot_name-NameShape :
      {name : Bytes}
      → robot_name hash_of cluster ns sa ≡ ok name
      → NameShape name × (is_valid_harbor_robot_name name ≡ true)
  unfolding robot_name
  robot_name-NameShape {name} e =
      let (raw, made, checked) = >>=-eq-ok (raw_robot_name hash_of cluster ns sa) _ e in
      let same : raw ≡ name = ground arith in
      (raw_robot_name-NameShape (made ∙ ap ok same), ground arith)
