-- ===== src/Controlplane/Provision.antt =====
-- The finalizer and the robot of a HarborAccess (`ensureFinalizer`, `ensureRobot`,
-- `markTransientError` and `markNotReadyWithRequeue` of bridge/controlplane/reconciler.go).
pub mod Adopted
use harbor_workload_identity.Base.{
  ℕ, Bool, true, false, not, List, Option, none, some, Result, ok, err, if◌then◌else◌,
}
use harbor_workload_identity.Text.{Bytes}
use harbor_workload_identity.Naming.{ProjectPermission}
use harbor_workload_identity.HarborAccess.{
  HarborAccess, Reason, harbor_error, robot_conflict, finalizer,
}
use harbor_workload_identity.Contract.{
  Robot, robot_belongs_to_cluster, parse_robot_description, is_pair,
}
use harbor_workload_identity.Controlplane.Effect.{
  CallError, not_found, already_exists, Call, patch_finalizers, update_status, get_robot,
  create_robot, Prog, ret, call, bind,
}
use harbor_workload_identity.Controlplane.Secrets.{Reconciler, Failure, call_failed}
use harbor_workload_identity.Controlplane.Rotation.{resync_after}
use harbor_workload_identity.Controlplane.Deletion.{Pass, requeue, retry, not_ready}

-- `ensureFinalizer`
unfoldable pub ensure_finalizer : Reconciler → HarborAccess → Prog (Result CallError Unit)
ensure_finalizer r ha =
    if r.contains_finalizer ha.finalizers (finalizer r.config)
    then ret (ok tt)
    else call (patch_finalizers ha (r.add_finalizer (finalizer r.config) ha.finalizers))
        (λ a. ret a)

-- What `ensureRobot` returns: a robot and whether it was created, or the result of the pass.
pub data Ensured : Type 0 where
  ensured : Robot → Bool → Ensured
  stopped : Pass → Ensured

abbrev pub after_status : Pass → Result CallError Unit → Prog Ensured
after_status pass (ok u) = ret (stopped pass)
after_status pass (err e) = ret (stopped (retry (call_failed e)))

-- `markTransientError`, as ensureRobot uses it.
unfoldable pub mark_transient_error : Reconciler → HarborAccess → Failure → Prog Ensured
mark_transient_error r ha cause =
    call (update_status (not_ready r ha harbor_error)) (after_status (retry cause))

-- `markNotReadyWithRequeue`, as ensureRobot uses it.
unfoldable pub mark_not_ready_with_requeue : Reconciler → HarborAccess → Reason → Prog Ensured
mark_not_ready_with_requeue r ha reason =
    call (update_status (not_ready r ha reason)) (after_status (requeue (resync_after r.fnv32 ha)))

-- The description names another HarborAccess.
unfoldable pub names_other : Reconciler → HarborAccess → Robot → Bool
names_other r ha robot = elim (parse_robot_description robot.description) [
  | none ↦ false
  | some o ↦ not (is_pair (some o) ha.namespace ha.name)
]

-- The end of `ensureRobot`, for a robot that exists.
unfoldable pub adopt : Reconciler → HarborAccess → Robot → Prog Ensured
adopt r ha existing =
    if not (robot_belongs_to_cluster existing.description r.config.cluster_name)
    then mark_not_ready_with_requeue r ha robot_conflict
    else if names_other r ha existing
    then mark_not_ready_with_requeue r ha robot_conflict
    else ret (ensured existing false)

abbrev pub after_conflict : Reconciler → HarborAccess → Result CallError Robot → Prog Ensured
after_conflict r ha (ok existing) = adopt r ha existing
after_conflict r ha (err e) = mark_transient_error r ha (call_failed e)

abbrev pub after_create : Reconciler → HarborAccess → Bytes → Result CallError Robot → Prog Ensured
after_create r ha name (ok robot) = ret (ensured robot true)
after_create r ha name (err already_exists) = call (get_robot name) (after_conflict r ha)
after_create r ha name (err e) = mark_transient_error r ha (call_failed e)

abbrev pub after_lookup :
    Reconciler
    → HarborAccess
    → Bytes
    → Bytes
    → List ProjectPermission
    → Result CallError Robot
    → Prog Ensured
after_lookup r ha name description perms (ok existing) = adopt r ha existing
after_lookup r ha name description perms (err not_found) =
    call (create_robot name description perms) (after_create r ha name)
after_lookup r ha name description perms (err e) = mark_transient_error r ha (call_failed e)

-- `ensureRobot`
unfoldable pub ensure_robot :
    Reconciler → HarborAccess → Bytes → Bytes → List ProjectPermission → Prog Ensured
ensure_robot r ha name description perms =
    call (get_robot name) (after_lookup r ha name description perms)

abbrev pub after_finalizer :
    Reconciler
    → HarborAccess
    → Bytes
    → Bytes
    → List ProjectPermission
    → Result CallError Unit
    → Prog Ensured
after_finalizer r ha name description perms (ok u) = ensure_robot r ha name description perms
after_finalizer r ha name description perms (err e) = ret (stopped (retry (call_failed e)))

-- The two steps as `reconcileNormal` takes them.
unfoldable pub provision :
    Reconciler → HarborAccess → Bytes → Bytes → List ProjectPermission → Prog Ensured
provision r ha name description perms =
    bind (ensure_finalizer r ha) (after_finalizer r ha name description perms)
