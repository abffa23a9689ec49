-- ===== src/Naming.antt =====
-- Robot names, their ownership rules, and the names Harbor accepts
-- (bridge/controlplane/harbor/naming.go).
pub mod Grammar
pub mod Ownership
pub mod Shape
pub mod Bounds
pub mod Injective
use harbor_workload_identity.Base.{
  ℕ, ◌-◌, Bool, true, false, not, ◌&&◌, ◌||◌, List, [], ◌∷◌, ◌++◌, none, some, Result, ok, err,
  ◌>>=◌, ◌>>◌, ◌==◌, ltb, leb, if◌then◌else◌, length, take,
}
use harbor_workload_identity.Text.{
  Bytes, codes, is_empty, has_prefix, cut_prefix, has_byte, trim_right,
}

-- `RobotNameCap`, `hashSuffixLen` and `ProjectNameMaxLen`.
abbrev pub robot_name_cap : ℕ
robot_name_cap = 240

abbrev pub hash_suffix_len : ℕ
hash_suffix_len = 16

abbrev pub project_name_max_len : ℕ
project_name_max_len = 255

abbrev pub robot_name_prefix : Bytes
robot_name_prefix = codes "bridge-"

pub data NameError : Type 0 where
  cluster_name_too_long invalid_robot_name : NameError
  not_a_project_name : Bytes → NameError

-- The classes of `^[a-z0-9]+(?:[._-][a-z0-9]+)*$`.
unfoldable pub is_alnum : ℕ → Bool
is_alnum c = (leb b'a' c && leb c b'z') || (leb b'0' c && leb c b'9')

unfoldable pub is_separator : ℕ → Bool
is_separator c = c == b'.' || c == b'_' || c == b'-'

-- The automaton of that expression; the flag says that the last byte read ends a segment.
unfoldable pub matches_from : Bool → Bytes → Bool
matches_from inside [] = inside
matches_from inside (c ∷ s) =
    (is_alnum c || (inside && is_separator c)) && matches_from (is_alnum c) s

-- `robotNameRegex.MatchString`, which is also `projectNamePattern`.
unfoldable pub is_valid_harbor_robot_name : Bytes → Bool
unfolding matches_from is_alnum is_separator
is_valid_harbor_robot_name = matches_from false

unfoldable pub cluster_prefix : Bytes → Bytes
cluster_prefix cluster = robot_name_prefix ++ (cluster ++ b'.' ∷ [])

unfoldable pub owns_robot : Bytes → Bytes → Bool
unfolding cluster_prefix has_prefix
owns_robot cluster name = not (is_empty cluster) && has_prefix (cluster_prefix cluster) name

unfoldable pub owns_legacy_robot : Bytes → Bytes → Bool
unfolding cut_prefix has_byte
owns_legacy_robot cluster name =
    not (is_empty cluster) && elim (cut_prefix (robot_name_prefix ++ (cluster ++ b'-' ∷ [])) name) [
      | some rest ↦ not (is_empty rest) && not (has_byte b'.' rest)
      | none ↦ false
    ]

-- The name before any truncation, "bridge-<cluster>.<ns>.<sa>".
unfoldable pub natural_name : Bytes → Bytes → Bytes → Bytes
unfolding cluster_prefix
natural_name cluster ns sa = cluster_prefix cluster ++ (ns ++ b'.' ∷ sa)

-- `hash_of` is the first 16 hexadecimal digits of a SHA-256 digest.
module _ (hash_of : Bytes → Bytes) where
  -- The branch of `robotName` for a natural name over the cap.
  unfoldable pub truncated_name : Bytes → Bytes → Bytes → Result NameError Bytes
  unfolding natural_name trim_right
  truncated_name cluster ns sa =
      let prefix = cluster_prefix cluster in
      let digest = hash_of (natural_name cluster ns sa) in
      let budget = robot_name_cap - length prefix - 1 - hash_suffix_len in
      if ltb budget 1
      then err cluster_name_too_long
      else (elim (trim_right is_separator (take budget (ns ++ b'.' ∷ sa))) [
        | [] ↦ ok (prefix ++ digest)
        | c ∷ mid ↦ ok (prefix ++ ((c ∷ mid) ++ b'.' ∷ digest))
      ])

  -- `robotName`
  unfoldable pub raw_robot_name : Bytes → Bytes → Bytes → Result NameError Bytes
  unfolding truncated_name natural_name
  raw_robot_name cluster ns sa =
      if leb (length (natural_name cluster ns sa)) robot_name_cap
      then ok (natural_name cluster ns sa)
      else truncated_name cluster ns sa

  -- `RobotName`
  unfoldable pub robot_name : Bytes → Bytes → Bytes → Result NameError Bytes
  unfolding raw_robot_name is_valid_harbor_robot_name
  robot_name cluster ns sa = do
    name ← raw_robot_name cluster ns sa
    if is_valid_harbor_robot_name name then ok name else err invalid_robot_name

unfoldable pub validate_project_name : Bytes → Result NameError (Unit {0})
unfolding is_valid_harbor_robot_name
validate_project_name name =
    if length name == 0
      || ltb project_name_max_len (length name)
      || not (is_valid_harbor_robot_name name)
    then err (not_a_project_name name)
    else ok tt

-- A grant of the bridge (`ProjectPermission` of client.go).
pub record ProjectPermission : Type 0 where
  pub project : Bytes
  pub action : Bytes

unfoldable pub validate_permissions : List ProjectPermission → Result NameError (Unit {0})
unfolding validate_project_name
validate_permissions [] = ok tt
validate_permissions (p ∷ perms) = do validate_project_name p.project; validate_permissions perms
