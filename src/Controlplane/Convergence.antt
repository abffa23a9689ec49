-- ===== src/Controlplane/Convergence.antt =====
-- A whole pass over a HarborAccess (`Reconcile`, `reconcileNormal`, `markReady`, `markTransientError`
-- and `markNotReadyWithRequeue` of bridge/controlplane/reconciler.go).
pub mod Admission
pub mod Current
use harbor_workload_identity.Base.{
  ℕ, Bool, true, false, not, ◌&&◌, ◌||◌, List, [], ◌∷◌, Option, none, some, Result, ok, err, ◌>>=◌,
  ◌>>◌, require, ltb, ◌==◌, if◌then◌else◌, length, is_some,
}
use harbor_workload_identity.Base.Int.{ℤ, negsuc, eq_ℤ}
use harbor_workload_identity.Text.{Bytes, is_empty, text_eq}
use harbor_workload_identity.Naming.{
  ProjectPermission, validate_project_name, robot_name, owns_robot,
}
use harbor_workload_identity.RobotSecret.{Secret, secret_name}
use harbor_workload_identity.HarborAccess.{
  HarborAccess, HarborAccessSpec, RobotRef, Condition, ready, robot_provisioned,
  trust_policy_applied, Reason, reconcile_succeeded, issuer_mismatch, robot_conflict,
  robot_disabled, invalid_spec, audience_mismatch, harbor_error, enforced_by_bridge, token_ttl_ok,
  selects,
}
use harbor_workload_identity.Contract.{
  Robot, harbor_access_name_max_len, robot_description, robot_suspended,
}
use harbor_workload_identity.HarborClient.Permissions.{permissions_match}
use harbor_workload_identity.Controlplane.Effect.{
  CallError, Call, get_secret, delete_secret, update_status, get_harbor_access, update_robot,
  refresh_secret, Prog, ret, call, bind,
}
use harbor_workload_identity.Controlplane.Secrets.{
  Reconciler, Failure, call_failed, name_not_owned, secret_conflict, found_secret, ignore_not_found,
}
use harbor_workload_identity.Controlplane.Rotation.{
  status_names_other, rotation_reason, next_rotation, requeue_after, resync_after,
}
use harbor_workload_identity.Controlplane.Deletion.{
  Pass, done, requeue, retry, not_ready, delete_stale_robots, reconcile_delete,
}
use harbor_workload_identity.Controlplane.Suspension.{refuse}
use harbor_workload_identity.Controlplane.Provision.{Ensured, ensured, stopped, provision}
use harbor_workload_identity.Controlplane.Storage.{write_robot_secret}
use harbor_workload_identity.Controlplane.Outcomes.{
  admitted_name, enabled_copy, harbor_never_expires, mark_ready, name_or_refusal,
  not_ready_until_resync, projects_valid, ready_status, resumed_robot, rotated_or, spec_missing,
  status_or, succeeded, transient,
}

-- A pass over an accepted object: the retries of the Secret's writing, the clock's time, and the
-- robot's name.
module _ (r : Reconciler) (retries now : ℕ) (ha : HarborAccess) (name : Bytes) where
  abbrev pub desired_description : Bytes
  desired_description = robot_description r.config.cluster_name ha.namespace ha.name

  -- `toHarborPerms`; both sides have one type in the model.
  abbrev pub desired_perms : List ProjectPermission
  desired_perms = ha.spec.permissions

  -- Step 10.
  unfoldable pub report : Robot → Option ℕ → ℕ → Prog Pass
  report robot rotated_at not_before =
      if robot.disabled
      then not_ready_until_resync r ha robot_disabled
      else mark_ready r ha robot rotated_at (requeue_after r.fnv32 ha not_before now)

  abbrev pub after_stale : Robot → Option ℕ → ℕ → Result Failure Unit → Prog Pass
  after_stale robot rotated_at not_before (ok u) = report robot rotated_at not_before
  after_stale robot rotated_at not_before (err e) = transient r ha e

  -- Step 9.
  unfoldable pub clean_up : Robot → Bool → Option ℕ → ℕ → Prog Pass
  clean_up robot created rotated_at not_before =
      if created
        || not (ha.status.observed_generation == ha.generation)
        || status_names_other ha robot.id
      then bind (delete_stale_robots r ha robot.id) (after_stale robot rotated_at not_before)
      else report robot rotated_at not_before

  abbrev pub after_write : Robot → Bool → Option ℕ → ℕ → Result Failure Unit → Prog Pass
  after_write robot created rotated_at not_before (ok u) =
      clean_up robot created rotated_at not_before
  after_write robot created rotated_at not_before (err e) = transient r ha e

  -- The end of step 8.
  unfoldable pub store : Option Secret → Robot → Bool → Bytes → Option ℕ → Prog Pass
  store secret robot created password rotated_at =
      let not_before = next_rotation r.clock ha secret now rotated_at in
      bind (write_robot_secret r ha retries secret robot password not_before)
        (after_write robot created rotated_at not_before)

  abbrev pub after_refresh : Option Secret → Robot → Result CallError Bytes → Prog Pass
  after_refresh secret robot (ok password) = store secret robot false password (some now)
  after_refresh secret robot (err e) = transient r ha (call_failed e)

  -- Step 8 of a robot that was found.
  unfoldable pub rotate : Option Secret → Robot → Prog Pass
  rotate secret robot =
      if is_some (rotation_reason r.clock ha secret robot now)
      then call (refresh_secret robot.id) (after_refresh secret robot)
      else store secret robot false [] none

  abbrev pub after_update : Option Secret → Robot → Result CallError Unit → Prog Pass
  after_update secret robot (ok u) = rotate secret robot
  after_update secret robot (err e) = transient r ha (call_failed e)

  -- The robot is not as the object wants it.
  unfoldable pub has_drifted : Robot → Bool
  has_drifted robot =
      not (permissions_match robot desired_perms)
      || not (text_eq robot.description desired_description)
      || not (eq_ℤ robot.expires_at harbor_never_expires)

  -- Step 7 of a robot that was found.
  unfoldable pub converge : Option Secret → Robot → Prog Pass
  converge secret robot =
      if has_drifted robot
      then call (update_robot robot desired_description desired_perms) (after_update secret robot)
      else rotate secret robot

  abbrev pub after_resume : Robot → Bytes → Result CallError Unit → Prog Pass
  after_resume robot password (ok u) =
      store none (resumed_robot robot desired_description) false password (some now)
  after_resume robot password (err e) = transient r ha (call_failed e)

  abbrev pub after_new_password : Robot → Result CallError Bytes → Prog Pass
  after_new_password robot (ok password) =
      call (update_robot (enabled_copy robot) desired_description desired_perms)
        (after_resume robot password)
  after_new_password robot (err e) = transient r ha (call_failed e)

  abbrev pub after_secret_gone : Robot → Result Failure Unit → Prog Pass
  after_secret_gone robot (ok u) = call (refresh_secret robot.id) (after_new_password robot)
  after_secret_gone robot (err e) = transient r ha e

  -- Step 6b: the Secret goes, the password is rotated, and only then the robot is enabled.
  unfoldable pub resume : Option Secret → Robot → Prog Pass
  resume none robot = call (refresh_secret robot.id) (after_new_password robot)
  resume (some s) robot =
      call (delete_secret s) (λ a. after_secret_gone robot (ignore_not_found tt a))

  abbrev pub after_provision : Option Secret → Ensured → Prog Pass
  after_provision secret (stopped pass) = ret pass
  after_provision secret (ensured robot true) = store secret robot true robot.secret (some now)
  after_provision secret (ensured robot false) =
      if robot.disabled && robot_suspended robot.description
      then resume secret robot
      else converge secret robot

  abbrev pub after_read : Result Failure (Option Secret) → Prog Pass
  after_read (err e) = transient r ha e
  after_read (ok secret) =
      if secret_conflict r ha secret name
      then not_ready_until_resync r ha robot_conflict
      else bind (provision r ha name desired_description desired_perms) (after_provision secret)

  -- The steps from 5 on.
  unfoldable pub accept : Prog Pass
  accept =
      call (get_secret r.config.namespace (secret_name r.hash_of ha.namespace ha.name))
        (λ a. after_read (found_secret a))

-- `reconcileNormal`
unfoldable pub reconcile_normal : Reconciler → ℕ → ℕ → HarborAccess → Prog Pass
reconcile_normal r retries now ha = elim (admitted_name r ha) [
  | err reason ↦ refuse r ha reason
  | ok name ↦
      if not (owns_robot r.config.cluster_name name)
      then ret (retry name_not_owned)
      else accept r retries now ha name
]

abbrev pub after_get : Reconciler → ℕ → ℕ → Result Failure (Option HarborAccess) → Prog Pass
after_get r retries now (err e) = ret (retry e)
after_get r retries now (ok none) = ret done
after_get r retries now (ok (some ha)) =
    if not (selects r.config ha)
    then ret done
    else if is_some ha.deletion_timestamp
    then reconcile_delete r ha
    else reconcile_normal r retries now ha

abbrev found : Result CallError HarborAccess → Result CallError (Option HarborAccess)
found (ok ha) = ok (some ha)
found (err e) = err e

-- `Reconcile`
unfoldable pub reconcile : Reconciler → ℕ → ℕ → Bytes → Bytes → Prog Pass
reconcile r retries now namespace name =
    call (get_harbor_access namespace name)
      (λ a. after_get r retries now (ignore_not_found none (found a)))
