-- ===== src/Controlplane/Outcomes.antt =====
-- What a pass checks before it begins and what it reports at its end (`reconcileNormal`, `markReady`,
-- `markTransientError` and `markNotReadyWithRequeue` of bridge/controlplane/reconciler.go).
use harbor_workload_identity.Base.{
  ℕ, Bool, true, false, not, ◌&&◌, List, [], ◌∷◌, Option, none, some, Result, ok, err, ◌>>◌,
  require, ltb, ◌==◌, length,
}
use harbor_workload_identity.Base.Int.{ℤ, negsuc}
use harbor_workload_identity.Text.{Bytes, is_empty, text_eq}
use harbor_workload_identity.Naming.{ProjectPermission, validate_project_name, robot_name}
use harbor_workload_identity.RobotSecret.{secret_name}
use harbor_workload_identity.HarborAccess.{
  HarborAccess, HarborAccessSpec, RobotRef, Condition, ready, robot_provisioned,
  trust_policy_applied, Reason, reconcile_succeeded, issuer_mismatch, invalid_spec,
  audience_mismatch, harbor_error, enforced_by_bridge, token_ttl_ok,
}
use harbor_workload_identity.Contract.{Robot, harbor_access_name_max_len}
use harbor_workload_identity.Controlplane.Effect.{CallError, update_status, Prog, ret, call}
use harbor_workload_identity.Controlplane.Secrets.{Reconciler, Failure, call_failed}
use harbor_workload_identity.Controlplane.Rotation.{resync_after}
use harbor_workload_identity.Controlplane.Deletion.{Pass, requeue, retry, not_ready}

-- `ha.Spec` has none of its fields set.
unfoldable pub spec_missing : HarborAccessSpec → Bool
spec_missing s =
    is_empty s.service_account_ref.namespace
    && is_empty s.service_account_ref.name
    && is_empty s.trust_policy.issuer
    && is_empty s.trust_policy.audience
    && length s.permissions == 0

-- The loop over the projects' names.
unfoldable pub projects_valid : List ProjectPermission → Bool
projects_valid [] = true
projects_valid (p ∷ perms) = elim (validate_project_name p.project) [
  | err e ↦ false
  | ok u ↦ projects_valid perms
]

abbrev pub name_or_refusal : {E : Type 0} → Result E Bytes → Result Reason Bytes
name_or_refusal (ok name) = ok name
name_or_refusal (err e) = err invalid_spec

-- The refusals of `reconcileNormal` in their order (its steps 0 to 3), and the robot's name.
unfoldable pub admitted_name : Reconciler → HarborAccess → Result Reason Bytes
admitted_name r ha = do
  require (not (spec_missing ha.spec)) invalid_spec
  require (text_eq ha.spec.trust_policy.issuer r.config.oidc_issuer) issuer_mismatch
  require (text_eq ha.spec.trust_policy.audience r.config.audience) audience_mismatch
  require (not (ltb harbor_access_name_max_len (length ha.name))) invalid_spec
  require (projects_valid ha.spec.permissions) invalid_spec
  require (token_ttl_ok ha.spec.token_ttl) invalid_spec
  name_or_refusal (
      robot_name r.hash_of r.config.cluster_name ha.spec.service_account_ref.namespace
        ha.spec.service_account_ref.name)

abbrev pub status_or : Pass → Result CallError Unit → Prog Pass
status_or pass (ok u) = ret pass
status_or pass (err e) = ret (retry (call_failed e))

-- `markTransientError`
unfoldable pub transient : Reconciler → HarborAccess → Failure → Prog Pass
transient r ha cause = call (update_status (not_ready r ha harbor_error)) (status_or (retry cause))

-- `markNotReadyWithRequeue`
unfoldable pub not_ready_until_resync : Reconciler → HarborAccess → Reason → Prog Pass
not_ready_until_resync r ha reason =
    call (update_status (not_ready r ha reason)) (status_or (requeue (resync_after r.fnv32 ha)))

abbrev pub rotated_or : Option ℕ → Option RobotRef → Option ℕ
rotated_or (some t) status = some t
rotated_or none none = none
rotated_or none (some ref) = ref.last_rotated

abbrev pub succeeded : HarborAccess → Condition
succeeded ha = record {
  type = ready;
  status = true;
  reason = reconcile_succeeded;
  observed_generation = ha.generation;
}

-- The status that `markReady` writes.
unfoldable pub ready_status : Reconciler → HarborAccess → Robot → Option ℕ → HarborAccess
ready_status r ha robot rotated_at = record {
  namespace = ha.namespace;
  name = ha.name;
  uid = ha.uid;
  generation = ha.generation;
  labels = ha.labels;
  finalizers = ha.finalizers;
  deletion_timestamp = ha.deletion_timestamp;
  spec = ha.spec;
  status = record {
    robot = some (record {
      name = robot.wire_name;
      id = robot.id;
      password_secret_ref = secret_name r.hash_of ha.namespace ha.name;
      last_rotated = rotated_or rotated_at ha.status.robot;
    });
    enforced_by_bridge = true;
    observed_generation = ha.generation;
    conditions = r.set_condition (succeeded ha) (
        r.set_condition
          (record {
            type = trust_policy_applied;
            status = true;
            reason = enforced_by_bridge;
            observed_generation = ha.generation;
          })
          (r.set_condition
            (record {
              type = robot_provisioned;
              status = true;
              reason = reconcile_succeeded;
              observed_generation = ha.generation;
            })
            ha.status.conditions));
  };
}

-- `markReady`
unfoldable pub mark_ready : Reconciler → HarborAccess → Robot → Option ℕ → ℕ → Prog Pass
mark_ready r ha robot rotated_at after =
    call (update_status (ready_status r ha robot rotated_at)) (status_or (requeue after))

-- The robot as the pass holds it once it is resumed.
abbrev pub resumed_robot : Robot → Bytes → Robot
resumed_robot robot description = record {
  id = robot.id;
  name = robot.name;
  wire_name = robot.wire_name;
  description = description;
  disabled = false;
  expires_at = robot.expires_at;
  permissions = robot.permissions;
  foreign_access = robot.foreign_access;
  secret = robot.secret;
}

-- `enabled`: the robot with `Disabled` unset.
abbrev pub enabled_copy : Robot → Robot
enabled_copy robot = resumed_robot robot robot.description

-- `harborNeverExpires`
abbrev pub harbor_never_expires : ℤ
harbor_never_expires = negsuc 0
