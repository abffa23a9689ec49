-- ===== src/HarborClient/Robots.antt =====
-- Robots as Harbor's API carries them (`toHarborPermissions` and `fromHarborRobot` of
-- bridge/controlplane/harbor/client.go).
pub mod Singles
pub mod Echoed
use harbor_workload_identity.Base.{
  ℕ, Bool, true, false, not, ◌&&◌, ◌||◌, List, [], ◌∷◌, ◌++◌, map, Option, none, some, Result, ok,
  err, if◌then◌else◌,
}
use harbor_workload_identity.Base.Int.{ℤ, negsuc}
use harbor_workload_identity.Text.{Bytes, codes, is_empty, text_eq, cut_prefix, trim_prefix}
use harbor_workload_identity.Text.Split.{split}
use harbor_workload_identity.Naming.{ProjectPermission, is_valid_harbor_robot_name}
use harbor_workload_identity.Contract.{Robot}
use harbor_workload_identity.HarborClient.Permissions.{normalize_permissions}

-- `robotLevelSystem`, `robotResourceRepository`, `robotPermissionKindProject` and
-- `robotDurationNeverExpires`.
abbrev pub robot_level_system : Bytes
robot_level_system = codes "system"

abbrev pub robot_resource_repository : Bytes
robot_resource_repository = codes "repository"

abbrev pub robot_permission_kind_project : Bytes
robot_permission_kind_project = codes "project"

abbrev pub robot_duration_never_expires : ℤ
robot_duration_never_expires = negsuc 0

-- The fields of the SDK's `models.Access`, `models.RobotPermission` and `models.Robot` that the client
-- reads or writes; a nil pointer in a list is `none`.
pub record Access : Type 0 where
  pub resource : Bytes
  pub action : Bytes
  pub effect : Bytes

pub record RobotPermission : Type 0 where
  pub kind : Bytes
  pub namespace : Bytes
  pub access : List (Option Access)

pub record HarborRobot : Type 0 where
  pub id : ℤ
  pub name : Bytes
  pub description : Bytes
  pub level : Bytes
  pub duration : Option ℤ
  pub disable : Bool
  pub editable : Bool
  pub expires_at : ℤ
  pub permissions : List (Option RobotPermission)
  pub secret : Bytes

-- The inner loop of `toHarborPermissions`.
unfoldable pub accesses_of : List Bytes → List (Option Access)
accesses_of [] = []
accesses_of (action ∷ actions) =
    let rest = accesses_of actions in
    if is_empty action
    then rest
    else some (record { resource = robot_resource_repository; action = action; effect = [] }) ∷ rest

unfoldable pub permission_of : ProjectPermission → Option RobotPermission
permission_of p = some (record {
  kind = robot_permission_kind_project;
  namespace = p.project;
  access = accesses_of (split b',' p.action);
})

-- `toHarborPermissions`
unfoldable pub to_harbor_permissions : List ProjectPermission → List (Option RobotPermission)
to_harbor_permissions perms = map permission_of (normalize_permissions perms)

-- What the loops of `fromHarborRobot` collect: the grants and `ForeignAccess`.
pub record Reading : Type 0 where
  pub grants : List ProjectPermission
  pub foreign : Bool

abbrev pub nothing_read : Reading
nothing_read = record { grants = []; foreign = false }

abbrev pub and_foreign : Reading → Reading
and_foreign rest = record { grants = rest.grants; foreign = true }

abbrev pub and_grant : ProjectPermission → Reading → Reading
and_grant p rest = record { grants = p ∷ rest.grants; foreign = rest.foreign }

abbrev pub and_reading : Reading → Reading → Reading
and_reading first rest = record {
  grants = first.grants ++ rest.grants;
  foreign = first.foreign || rest.foreign;
}

unfoldable pub is_foreign : Access → Bool
is_foreign a =
    not (text_eq a.resource robot_resource_repository)
    || (not (is_empty a.effect) && not (text_eq a.effect (codes "allow")))

unfoldable pub read_accesses : Bytes → List (Option Access) → Reading
read_accesses namespace [] = nothing_read
read_accesses namespace (none ∷ accesses) = read_accesses namespace accesses
read_accesses namespace (some a ∷ accesses) =
    let rest = read_accesses namespace accesses in
    if is_foreign a
    then and_foreign rest
    else and_grant (record { project = namespace; action = a.action }) rest

unfoldable pub read_permissions : List (Option RobotPermission) → Reading
read_permissions [] = nothing_read
read_permissions (none ∷ perms) = read_permissions perms
read_permissions (some p ∷ perms) =
    let rest = read_permissions perms in
    if not (text_eq p.kind robot_permission_kind_project)
    then and_foreign rest
    else and_reading (read_accesses p.namespace p.access) rest

-- The configured prefix accounts for the name.
unfoldable pub is_accounted_for : Bytes → HarborRobot → Bool
is_accounted_for prefix r = not r.editable || elim (cut_prefix prefix r.name) [
  | none ↦ false
  | some rest ↦ is_valid_harbor_robot_name rest
]

unfoldable pub robot_of : Bytes → HarborRobot → Robot
robot_of prefix r = record {
  id = r.id;
  name = trim_prefix prefix r.name;
  wire_name = r.name;
  description = r.description;
  disabled = r.disable;
  expires_at = r.expires_at;
  permissions = normalize_permissions (read_permissions r.permissions).grants;
  foreign_access = (read_permissions r.permissions).foreign;
  secret = r.secret;
}

-- The errors of the client that callers tell apart, and those of Harbor's answers.
pub data ClientError (E : Type 0) : Type 0 where
  prefix_mismatch : ClientError E
  robot_not_found : ClientError E
  -- An answer of Harbor; `wrapHarborOp` keeps it.
  harbor : E → ClientError E
  -- A listing that could miss robots, and one that does not end.
  id_not_increasing too_many_pages : ClientError E
  no_secret no_wire_name invalid_permissions : ClientError E
  -- The mismatch of a new robot that could not be deleted again.
  mismatch_and : ClientError E → ClientError E

-- `fromHarborRobot`
unfoldable pub from_harbor_robot : {E : Type 0} → Bytes → HarborRobot → Result (ClientError E) Robot
from_harbor_robot prefix r =
    if is_accounted_for prefix r then ok (robot_of prefix r) else err prefix_mismatch
