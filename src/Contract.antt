-- ===== src/Contract.antt =====
-- The description the bridge writes on a robot, and what it reads from one
-- (bridge/controlplane/contract.go).
pub mod Description
pub mod Owned
use harbor_workload_identity.Base.{
  ℕ, ◌*◌, Bool, true, false, not, ◌&&◌, ◌||◌, List, [], ◌∷◌, ◌++◌, Option, none, some,
  if◌then◌else◌,
}
use harbor_workload_identity.Base.Int.{ℤ}
use harbor_workload_identity.Text.{Bytes, codes, is_empty, text_eq, has_prefix, cut, fields}
use harbor_workload_identity.RobotSecret.{label_managed_by_value, nonempty_pair}
use harbor_workload_identity.Naming.{ProjectPermission, owns_robot, owns_legacy_robot}
use harbor_workload_identity.Instant.{hour, minute}

-- `PasswordRotationInterval`, `RotationSafetyMargin`, `ResyncInterval` and `HarborAccessNameMaxLen`.
abbrev pub password_rotation_interval : ℕ
password_rotation_interval = 24 * hour

abbrev pub rotation_safety_margin : ℕ
rotation_safety_margin = minute

abbrev pub resync_interval : ℕ
resync_interval = hour

abbrev pub harbor_access_name_max_len : ℕ
harbor_access_name_max_len = 63

-- `Robot` of client.go: the bridge's view of a Harbor robot.
pub record Robot : Type 0 where
  pub id : ℤ
  pub name : Bytes
  pub wire_name : Bytes
  pub description : Bytes
  pub disabled : Bool
  pub expires_at : ℤ
  pub permissions : List ProjectPermission
  pub foreign_access : Bool
  pub secret : Bytes

abbrev pub robot_description_tag : Bytes
robot_description_tag = codes "managed-by=harbor-workload-identity-bridge"

abbrev pub robot_suspended_token : Bytes
robot_suspended_token = codes "suspended=true"

abbrev pub cluster_key : Bytes
cluster_key = codes "cluster"

abbrev pub harboraccess_key : Bytes
harboraccess_key = codes "harboraccess"

-- The two tokens behind the tag.
abbrev pub cluster_token : Bytes → Bytes
cluster_token cluster = cluster_key ++ b'=' ∷ cluster

abbrev pub harboraccess_token : Bytes → Bytes → Bytes
harboraccess_token namespace name = harboraccess_key ++ b'=' ∷ (namespace ++ b'/' ∷ name)

unfoldable pub robot_description : Bytes → Bytes → Bytes → Bytes
robot_description cluster namespace name =
    robot_description_tag ++ 32 ∷ (cluster_token cluster ++ 32 ∷ harboraccess_token namespace name)

unfoldable pub suspended_robot_description : Bytes → Bytes → Bytes → Bytes
suspended_robot_description cluster namespace name =
    robot_description cluster namespace name ++ 32 ∷ robot_suspended_token

-- `strings.HasPrefix(description, robotDescriptionTag+" ")`
unfoldable pub is_tagged : Bytes → Bool
is_tagged description = has_prefix (robot_description_tag ++ 32 ∷ []) description

unfoldable pub holds_suspended : List Bytes → Bool
holds_suspended [] = false
holds_suspended (tok ∷ toks) = text_eq tok robot_suspended_token || holds_suspended toks

unfoldable pub robot_suspended : Bytes → Bool
robot_suspended description = is_tagged description && holds_suspended (fields description)

-- `k, v, ok := strings.Cut(tok, "=")`: the value of a token with this key.
unfoldable pub token_value : Bytes → Bytes → Option Bytes
token_value key tok = elim (cut b'=' tok) [
  | none ↦ none
  | some (k, v) ↦ if text_eq k key then some v else none
]

-- The loop of `RobotBelongsToCluster`: the first cluster token decides.
unfoldable pub first_cluster_is : Bytes → List Bytes → Bool
first_cluster_is cluster [] = false
first_cluster_is cluster (tok ∷ toks) = elim (token_value cluster_key tok) [
  | some v ↦ text_eq v cluster
  | none ↦ first_cluster_is cluster toks
]

unfoldable pub robot_belongs_to_cluster : Bytes → Bytes → Bool
robot_belongs_to_cluster description cluster =
    is_tagged description && first_cluster_is cluster (fields description)

-- The HarborAccess that one token names, if it is a complete harboraccess token.
unfoldable pub token_owner : Bytes → Option (Bytes × Bytes)
token_owner tok = elim (token_value harboraccess_key tok) [
  | some v ↦ nonempty_pair (cut b'/' v)
  | none ↦ none
]

unfoldable pub first_owner : List Bytes → Option (Bytes × Bytes)
first_owner [] = none
first_owner (tok ∷ toks) = elim (token_owner tok) [ some o ↦ some o | none ↦ first_owner toks ]

-- `ParseRobotDescription`; `none` where Go's `ok` is false.
unfoldable pub parse_robot_description : Bytes → Option (Bytes × Bytes)
parse_robot_description description =
    if is_tagged description then first_owner (fields description) else none

-- `misnamedRobot`: the HarborAccess of a robot of ours by description but not by name, which Go
-- reports with ErrRobotPrefixMismatch; `none` where Go returns no error.
unfoldable pub misnamed_robot : Bytes → Robot → Option (Bytes × Bytes)
misnamed_robot cluster robot =
    if owns_robot cluster robot.name
      || owns_legacy_robot cluster robot.name
      || not (robot_belongs_to_cluster robot.description cluster)
    then none
    else parse_robot_description robot.description

abbrev pub is_pair : Option (Bytes × Bytes) → Bytes → Bytes → Bool
is_pair none namespace name = false
is_pair (some (a, b)) namespace name = text_eq a namespace && text_eq b name

unfoldable pub robot_owned_by : Bytes → Robot → Bytes → Bytes → Bool
robot_owned_by cluster robot namespace name =
    if not (owns_robot cluster robot.name) && not (owns_legacy_robot cluster robot.name)
    then false
    else if not (robot_belongs_to_cluster robot.description cluster)
    then false
    else is_pair (parse_robot_description robot.description) namespace name
