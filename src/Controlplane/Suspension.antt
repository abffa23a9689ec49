-- ===== src/Controlplane/Suspension.antt =====
-- A refused HarborAccess: its robot is suspended and its Secret deleted (`refuse`, `suspend`,
-- `suspendRobot`, `releaseRefused` and `canWriteBack` of bridge/controlplane/reconciler.go).
pub mod Own
use harbor_workload_identity.Base.{
  ℕ, Bool, true, false, not, ◌&&◌, ◌||◌, List, [], ◌∷◌, Option, none, some, Result, ok, err,
  if◌then◌else◌,
}
use harbor_workload_identity.Text.{Bytes, is_empty, text_eq}
use harbor_workload_identity.Naming.{ProjectPermission, validate_permissions, owns_robot}
use harbor_workload_identity.HarborAccess.{
  HarborAccess, Condition, ready, robot_provisioned, Reason, finalizer_name, finalizer,
  released_finalizers, status_robot_is_ours,
}
use harbor_workload_identity.Contract.{Robot, robot_suspended, suspended_robot_description}
use harbor_workload_identity.Controlplane.Effect.{
  CallError, not_found, Call, get_robot, update_robot, delete_robot, list_robots, update_status,
  patch_finalizers, Prog, ret, call, bind,
}
use harbor_workload_identity.Controlplane.Secrets.{
  Reconciler, Failure, call_failed, robot_prefix_mismatch, joined, robot_name_or_empty,
  ignore_not_found, delete_own_robot_secret,
}
use harbor_workload_identity.Controlplane.Rotation.{resync_after}
use harbor_workload_identity.Controlplane.Deletion.{
  Pass, done, requeue, retry, held_finalizers, without, not_ready, is_misnamed, is_own,
}

abbrev valid_names : List ProjectPermission → Bool
valid_names perms = elim (validate_permissions perms) [ ok u ↦ true | err e ↦ false ]

-- `canWriteBack`
unfoldable pub can_write_back : List ProjectPermission → Bool
can_write_back [] = false
can_write_back (p ∷ perms) = valid_names (p ∷ perms)

-- The robot with `Disabled` set.
abbrev pub disabled_copy : Robot → Robot
disabled_copy robot = record {
  id = robot.id;
  name = robot.name;
  wire_name = robot.wire_name;
  description = robot.description;
  disabled = true;
  expires_at = robot.expires_at;
  permissions = robot.permissions;
  foreign_access = robot.foreign_access;
  secret = robot.secret;
}

abbrev pub suspended_description : Reconciler → HarborAccess → Bytes
suspended_description r ha = suspended_robot_description r.config.cluster_name ha.namespace ha.name

-- A call whose success gives this `kept`.
abbrev pub giving : Bool → Result CallError Unit → Prog (Result Failure Bool)
giving kept (ok u) = ret (ok kept)
giving kept (err e) = ret (err (call_failed e))

-- The switch of `suspendRobot` on the robot's state; its two cases of a disabled robot differ in the
-- message only.
unfoldable pub suspend_found : Reconciler → HarborAccess → Robot → Prog (Result Failure Bool)
suspend_found r ha robot =
    if not (is_own r ha robot)
    then ret (ok false)
    else if robot.disabled
    then ret (ok true)
    else if can_write_back robot.permissions
    then call (update_robot (disabled_copy robot) (suspended_description r ha) robot.permissions)
        (giving true)
    else call (delete_robot robot.id) (giving false)

abbrev pub suspend_answer :
    Reconciler → HarborAccess → Result CallError Robot → Prog (Result Failure Bool)
suspend_answer r ha (ok robot) = suspend_found r ha robot
suspend_answer r ha (err not_found) = ret (ok false)
suspend_answer r ha (err e) = ret (err (call_failed e))

-- `suspendRobot`; the result is `kept`.
unfoldable pub suspend_robot : Reconciler → HarborAccess → Bytes → Prog (Result Failure Bool)
suspend_robot r ha name =
    if is_empty name || not (owns_robot r.config.cluster_name name)
    then ret (ok false)
    else call (get_robot name) (suspend_answer r ha)

-- The results of `suspend`: `releasable` and the error.
pub record Suspended : Type 0 where
  pub releasable : Bool
  pub failure : Option Failure

abbrev failure_of : Result Failure Unit → Option Failure
failure_of (ok u) = none
failure_of (err e) = some e

-- `errors.Join`
abbrev join : Option Failure → Failure → Failure
join none e = e
join (some d) e = joined d e

abbrev settled : Option Failure → Bool
settled none = true
settled (some e) = false

unfoldable pub suspended_of : Result Failure Unit → Result Failure Bool → Suspended
suspended_of secret (err e) = record {
  releasable = false;
  failure = some (join (failure_of secret) e);
}
suspended_of secret (ok kept) = record {
  releasable = not kept && settled (failure_of secret);
  failure = failure_of secret;
}

unfoldable pub suspend_rest : Reconciler → HarborAccess → Result Failure Unit → Prog Suspended
suspend_rest r ha secret = elim (held_finalizers r ha) [
  | [] ↦ ret (record { releasable = false; failure = failure_of secret })
  | f ∷ fs ↦
      bind (suspend_robot r ha (robot_name_or_empty r ha)) (λ kept. ret (suspended_of secret kept))
]

-- `suspend`
unfoldable pub suspend : Reconciler → HarborAccess → Prog Suspended
suspend r ha = bind (delete_own_robot_secret r ha (robot_name_or_empty r ha)) (suspend_rest r ha)

-- The finalizers that `releaseRefused` releases.
unfoldable pub refused_release : Reconciler → HarborAccess → List Bytes → List Bytes
refused_release r ha [] = []
refused_release r ha (f ∷ fs) =
    let shared_is_ours =
      text_eq (finalizer r.config) finalizer_name && status_robot_is_ours r.config ha in
    let rest = refused_release r ha fs in
    if not (text_eq f finalizer_name) || shared_is_ours then f ∷ rest else rest

-- The loop of `releaseRefused`: why the object is not released, if it is not.
unfoldable pub release_barrier :
    Reconciler → HarborAccess → List Robot → Option (Result Failure Unit)
release_barrier r ha [] = none
release_barrier r ha (robot ∷ robots) =
    let rest = release_barrier r ha robots in
    if is_misnamed r ha robot
    then some (err robot_prefix_mismatch)
    else if is_own r ha robot
    then some (ok tt)
    else rest

unfoldable pub release_listed :
    Reconciler
    → HarborAccess
    → List Bytes
    → Result CallError (List Robot)
    → Prog (Result Failure Unit)
release_listed r ha released (err e) = ret (err (call_failed e))
release_listed r ha released (ok robots) = elim (release_barrier r ha robots) [
  | some result ↦ ret result
  | none ↦
      call (patch_finalizers ha (without r released ha.finalizers))
        (λ a. ret (ignore_not_found tt a))
]

-- `releaseRefused`
unfoldable pub release_refused : Reconciler → HarborAccess → Prog (Result Failure Unit)
release_refused r ha = elim (refused_release r ha (held_finalizers r ha)) [
  | [] ↦ ret (ok tt)
  | f ∷ fs ↦ call list_robots (release_listed r ha (f ∷ fs))
]

abbrev pub pass_after : Reconciler → HarborAccess → Result Failure Unit → Prog Pass
pass_after r ha (ok u) = ret (requeue (resync_after r.fnv32 ha))
pass_after r ha (err e) = ret (retry e)

abbrev pub after_suspension : Reconciler → HarborAccess → Suspended → Prog Pass
after_suspension r ha s = elim s.failure [
  | some e ↦ ret (retry e)
  | none ↦
      if s.releasable
      then bind (release_refused r ha) (pass_after r ha)
      else ret (requeue (resync_after r.fnv32 ha))
]

-- The status that `refuse` writes: no usable robot, and not ready.
unfoldable pub refused_status : Reconciler → HarborAccess → Reason → HarborAccess
refused_status r ha reason =
    not_ready r
      (record {
        namespace = ha.namespace;
        name = ha.name;
        uid = ha.uid;
        generation = ha.generation;
        labels = ha.labels;
        finalizers = ha.finalizers;
        deletion_timestamp = ha.deletion_timestamp;
        spec = ha.spec;
        status = record {
          robot = ha.status.robot;
          enforced_by_bridge = ha.status.enforced_by_bridge;
          observed_generation = ha.status.observed_generation;
          conditions =
              r.set_condition
                (record {
                  type = robot_provisioned;
                  status = false;
                  reason = reason;
                  observed_generation = ha.generation;
                })
                ha.status.conditions;
        };
      })
      reason

unfoldable pub refuse_rest : Reconciler → HarborAccess → Reason → Suspended → Prog Pass
refuse_rest r ha reason s =
    call (update_status (refused_status r ha reason))
      (λ a. elim a [ err e ↦ ret (retry (call_failed e)) | ok u ↦ after_suspension r ha s ])

-- `refuse`
unfoldable pub refuse : Reconciler → HarborAccess → Reason → Prog Pass
refuse r ha reason = bind (suspend r ha) (refuse_rest r ha reason)
