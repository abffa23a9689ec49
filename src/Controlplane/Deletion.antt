-- ===== src/Controlplane/Deletion.antt =====
-- The end of a HarborAccess and of robots that it no longer uses (`reconcileDelete`,
-- `blockDeletion` and `deleteStaleRobots` of bridge/controlplane/reconciler.go).
pub mod Revoked
use harbor_workload_identity.Base.{
  ℕ, Bool, true, false, not, ◌&&◌, ◌||◌, List, [], ◌∷◌, Option, none, some, Result, ok, err,
  if◌then◌else◌,
}
use harbor_workload_identity.Base.Int.{ℤ, eq_ℤ}
use harbor_workload_identity.Text.{Bytes, text_eq}
use harbor_workload_identity.HarborAccess.{
  HarborAccess, Config, Condition, ready, Reason, deletion_blocked, released_finalizers,
}
use harbor_workload_identity.Contract.{Robot, misnamed_robot, is_pair, robot_owned_by}
use harbor_workload_identity.Controlplane.Effect.{
  CallError, Call, update_status, list_robots, delete_robot, patch_finalizers, Prog, ret, call,
  bind,
}
use harbor_workload_identity.Controlplane.Secrets.{
  Reconciler, Failure, call_failed, robot_prefix_mismatch, robot_name_or_empty, ignore_not_found,
  delete_own_robot_secret,
}

-- What a pass returns: nothing more to do, the next pass after a time, or an error to retry.
pub data Pass : Type 0 where
  done : Pass
  requeue : ℕ → Pass
  retry : Failure → Pass

-- The finalizers of this bridge that the object holds.
unfoldable pub held_of : Reconciler → HarborAccess → List Bytes → List Bytes
held_of r ha [] = []
held_of r ha (f ∷ fs) =
    let rest = held_of r ha fs in if r.contains_finalizer ha.finalizers f then f ∷ rest else rest

abbrev pub held_finalizers : Reconciler → HarborAccess → List Bytes
held_finalizers r ha = held_of r ha (released_finalizers r.config)

-- The loop of `controllerutil.RemoveFinalizer`.
unfoldable pub without : Reconciler → List Bytes → List Bytes → List Bytes
without r [] finalizers = finalizers
without r (f ∷ released) finalizers = without r released (r.remove_finalizer f finalizers)

-- `setNotReady`, less the message.
unfoldable pub not_ready : Reconciler → HarborAccess → Reason → HarborAccess
not_ready r ha reason = record {
  namespace = ha.namespace;
  name = ha.name;
  uid = ha.uid;
  generation = ha.generation;
  labels = ha.labels;
  finalizers = ha.finalizers;
  deletion_timestamp = ha.deletion_timestamp;
  spec = ha.spec;
  status = record {
    robot = ha.status.robot;
    enforced_by_bridge = ha.status.enforced_by_bridge;
    observed_generation = ha.status.observed_generation;
    conditions =
        r.set_condition
          (record {
            type = ready;
            status = false;
            reason = reason;
            observed_generation = ha.generation;
          })
          ha.status.conditions;
  };
}

-- `blockDeletion`, which reports the cause whether or not the status could be written.
unfoldable pub block_deletion : Reconciler → HarborAccess → Failure → Prog Pass
block_deletion r ha cause =
    call (update_status (not_ready r ha deletion_blocked)) (λ a. ret (retry cause))

-- The robot is this HarborAccess' by its description, but not by its name.
unfoldable pub is_misnamed : Reconciler → HarborAccess → Robot → Bool
is_misnamed r ha robot = is_pair (misnamed_robot r.config.cluster_name robot) ha.namespace ha.name

unfoldable pub is_own : Reconciler → HarborAccess → Robot → Bool
is_own r ha robot = robot_owned_by r.config.cluster_name robot ha.namespace ha.name

-- `robot.ID == keepID`; the deletion of the HarborAccess keeps none.
unfoldable pub is_kept : Option ℤ → ℤ → Bool
is_kept none id = false
is_kept (some keep) id = eq_ℤ id keep

-- The loop over the listed robots that `reconcileDelete` and `deleteStaleRobots` share.
unfoldable pub delete_own_robots :
    Reconciler → HarborAccess → Option ℤ → List Robot → Prog (Result Failure Unit)
delete_own_robots r ha keep [] = ret (ok tt)
delete_own_robots r ha keep (robot ∷ robots) =
    let rest = delete_own_robots r ha keep robots in
    if is_misnamed r ha robot
    then ret (err robot_prefix_mismatch)
    else if is_kept keep robot.id || not (is_own r ha robot)
    then rest
    else call (delete_robot robot.id)
        (λ a. elim a [ err e ↦ ret (err (call_failed e)) | ok u ↦ rest ])

-- `deleteStaleRobots`
unfoldable pub delete_stale_robots : Reconciler → HarborAccess → ℤ → Prog (Result Failure Unit)
delete_stale_robots r ha keep = call list_robots (λ a. elim a [
  | err e ↦ ret (err (call_failed e))
  | ok robots ↦ delete_own_robots r ha (some keep) robots
])

abbrev pub pass_of : Result Failure Unit → Prog Pass
pass_of (ok u) = ret done
pass_of (err e) = ret (retry e)

-- The patch that releases the object.
unfoldable pub release : Reconciler → HarborAccess → List Bytes → Prog Pass
release r ha held =
    call (patch_finalizers ha (without r held ha.finalizers)) (λ a. pass_of (ignore_not_found tt a))

-- The steps of `reconcileDelete` once a finalizer is held, each after the one before: the release,
-- the Secret, the robots.
abbrev pub after_secret : Reconciler → HarborAccess → List Bytes → Result Failure Unit → Prog Pass
after_secret r ha held (ok u) = release r ha held
after_secret r ha held (err e) = block_deletion r ha e

abbrev pub after_robots : Reconciler → HarborAccess → List Bytes → Result Failure Unit → Prog Pass
after_robots r ha held (ok u) =
    bind (delete_own_robot_secret r ha (robot_name_or_empty r ha)) (after_secret r ha held)
after_robots r ha held (err e) = block_deletion r ha e

abbrev pub after_list :
    Reconciler → HarborAccess → List Bytes → Result CallError (List Robot) → Prog Pass
after_list r ha held (ok robots) =
    bind (delete_own_robots r ha none robots) (after_robots r ha held)
after_list r ha held (err e) = block_deletion r ha (call_failed e)

unfoldable pub revoke : Reconciler → HarborAccess → List Bytes → Prog Pass
revoke r ha held = call list_robots (after_list r ha held)

-- `reconcileDelete`
unfoldable pub reconcile_delete : Reconciler → HarborAccess → Prog Pass
reconcile_delete r ha =
    let held = held_finalizers r ha in elim held [ [] ↦ ret done | f ∷ fs ↦ revoke r ha (f ∷ fs) ]
