-- ===== src/HarborClient/Operations.antt =====
-- The calls of the client that change robots (`Create`, `Delete`, `RefreshSecret`, `Update` and
-- `wrapHarborOp` of bridge/controlplane/harbor/client.go), with the requests they send.
pub mod Created
use harbor_workload_identity.Base.{
  ℕ, Bool, true, false, not, ◌&&◌, ◌||◌, List, [], ◌∷◌, ◌++◌, Option, none, some, Result, ok, err,
  if◌then◌else◌,
}
use harbor_workload_identity.Base.Int.{ℤ, pos}
use harbor_workload_identity.Text.{Bytes, is_empty, text_eq}
use harbor_workload_identity.Naming.{ProjectPermission, validate_permissions}
use harbor_workload_identity.Contract.{Robot}
use harbor_workload_identity.HarborClient.Permissions.{normalize_permissions}
use harbor_workload_identity.HarborClient.Robots.{
  RobotPermission, HarborRobot, robot_level_system, robot_duration_never_expires,
  to_harbor_permissions, ClientError, prefix_mismatch, harbor, no_secret, no_wire_name,
  invalid_permissions, mismatch_and,
}

-- The SDK's `models.RobotCreate` and `models.RobotCreated`.
pub record RobotCreate : Type 0 where
  pub name : Bytes
  pub description : Bytes
  pub level : Bytes
  pub duration : ℤ
  pub permissions : List (Option RobotPermission)

pub record RobotCreated : Type 0 where
  pub id : ℤ
  pub name : Bytes
  pub secret : Bytes

-- What Harbor answers to a request that changes a robot; a nil payload is `none`. `is_not_found` is
-- the status 404 of an error.
pub record Sdk (E : Type 0) : Type 0 where
  pub create_robot : RobotCreate → Result E (Option RobotCreated)
  pub delete_robot : ℤ → Result E Unit
  pub refresh_sec : ℤ → Result E (Option Bytes)
  pub update_robot : ℤ → HarborRobot → Result E Unit
  pub is_not_found : E → Bool

-- The requests that are sent.
pub data Request : Type 0 where
  post_robot : RobotCreate → Request
  delete_by_id refresh_by_id : ℤ → Request
  put_robot : ℤ → HarborRobot → Request

-- A result, and the requests sent for it, the first one first.
pub record Sent (A : Type 0) : Type 0 where
  pub requests : List Request
  pub result : A

abbrev pub sending : {A : Type 0} → List Request → A → Sent A
sending requests result = record { requests = requests; result = result }

abbrev pub valid_grants : List ProjectPermission → Bool
valid_grants perms = elim (validate_permissions perms) [ ok u ↦ true | err e ↦ false ]

-- The robot that `Create` returns.
unfoldable pub created_robot : Bytes → Bytes → List ProjectPermission → RobotCreated → Bytes → Robot
created_robot name description perms created wire = record {
  id = created.id;
  name = name;
  wire_name = wire;
  description = description;
  disabled = false;
  expires_at = robot_duration_never_expires;
  permissions = normalize_permissions perms;
  foreign_access = false;
  secret = created.secret;
}

unfoldable pub create_body : Bytes → Bytes → List ProjectPermission → RobotCreate
create_body name description perms = record {
  name = name;
  description = description;
  level = robot_level_system;
  duration = robot_duration_never_expires;
  permissions = to_harbor_permissions perms;
}

-- The body of `Update`; what Harbor ignores in it is left empty, as in Go.
unfoldable pub update_body : Robot → Bytes → List ProjectPermission → HarborRobot
update_body current description perms = record {
  id = current.id;
  name = current.wire_name;
  description = description;
  level = robot_level_system;
  duration = some robot_duration_never_expires;
  disable = current.disabled;
  editable = false;
  expires_at = pos 0;
  permissions = to_harbor_permissions perms;
  secret = [];
}

-- The name on the wire that a new robot's answer stands for, if the prefix accounts for it: Harbor
-- names the robot, or answers nothing or the bare name.
unfoldable pub created_wire : Bytes → Bytes → Bytes → Option Bytes
created_wire prefix name wire =
    if is_empty wire || text_eq wire name
    then some (prefix ++ name)
    else if text_eq wire (prefix ++ name)
    then some wire
    else none

module _ {E : Type 0} (sdk : Sdk E) (prefix : Bytes) where
  abbrev wrap : ℤ → Result E Unit → Result (ClientError E) (Unit {0})
  wrap id (ok u) = ok tt
  wrap id (err e) = if sdk.is_not_found e then ok tt else err (harbor e)

  -- `Delete`
  unfoldable pub delete : ℤ → Sent (Result (ClientError E) (Unit {0}))
  delete id = sending (delete_by_id id ∷ []) (wrap id (sdk.delete_robot id))

  abbrev pub mismatch_of : Result (ClientError E) (Unit {0}) → Result (ClientError E) Robot
  mismatch_of (ok u) = err prefix_mismatch
  mismatch_of (err e) = err (mismatch_and e)

  -- A robot under a name that the prefix does not account for is deleted again.
  abbrev pub accept_as :
      RobotCreate
      → Bytes
      → Bytes
      → List ProjectPermission
      → RobotCreated
      → Option Bytes
      → Sent (Result (ClientError E) Robot)
  accept_as body name description perms created (some wire) =
      sending (post_robot body ∷ []) (ok (created_robot name description perms created wire))
  accept_as body name description perms created none =
      sending (post_robot body ∷ (delete created.id).requests)
        (mismatch_of (delete created.id).result)

  unfoldable pub accept :
      RobotCreate
      → Bytes
      → Bytes
      → List ProjectPermission
      → RobotCreated
      → Sent (Result (ClientError E) Robot)
  accept body name description perms created =
      accept_as body name description perms created (created_wire prefix name created.name)

  unfoldable pub after_post :
      RobotCreate
      → Bytes
      → Bytes
      → List ProjectPermission
      → Result E (Option RobotCreated)
      → Sent (Result (ClientError E) Robot)
  after_post body name description perms (err e) = sending (post_robot body ∷ []) (err (harbor e))
  after_post body name description perms (ok none) = sending (post_robot body ∷ []) (err no_secret)
  after_post body name description perms (ok (some created)) =
      if is_empty created.secret
      then sending (post_robot body ∷ []) (err no_secret)
      else accept body name description perms created

  -- `Create`
  unfoldable pub create :
      Bytes → Bytes → List ProjectPermission → Sent (Result (ClientError E) Robot)
  create name description perms =
      let body = create_body name description perms in
      if not (valid_grants perms)
      then sending [] (err invalid_permissions)
      else after_post body name description perms (sdk.create_robot body)

  abbrev secret_of : Result E (Option Bytes) → Result (ClientError E) Bytes
  secret_of (err e) = err (harbor e)
  secret_of (ok none) = err no_secret
  secret_of (ok (some secret)) = if is_empty secret then err no_secret else ok secret

  -- `RefreshSecret`
  unfoldable pub refresh_secret : ℤ → Sent (Result (ClientError E) Bytes)
  refresh_secret id = sending (refresh_by_id id ∷ []) (secret_of (sdk.refresh_sec id))

  abbrev updated : Result E Unit → Result (ClientError E) (Unit {0})
  updated (ok u) = ok tt
  updated (err e) = err (harbor e)

  -- `Update`; its robot is never nil, since no caller holds a nil robot there.
  unfoldable pub update :
      Robot → Bytes → List ProjectPermission → Sent (Result (ClientError E) (Unit {0}))
  update current description perms =
      let body = update_body current description perms in
      if is_empty current.wire_name
      then sending [] (err no_wire_name)
      else if not (valid_grants perms)
      then sending [] (err invalid_permissions)
      else sending (put_robot current.id body ∷ []) (updated (sdk.update_robot current.id body))
