-- ===== src/Tests/Passes.antt =====
-- Passes of the controller over the samples.
use harbor_workload_identity.Base.{
  ◌+◌, ◌*◌, ◌≤◌, ◌≡◌, ◌↔◌, ◌⊎◌, refl, [], ◌∷◌, none, some, ok, err, arith,
}
use harbor_workload_identity.Base.Int.{pos, eq_ℤ}
use harbor_workload_identity.Text.{Bytes, codes, text_eq}
use harbor_workload_identity.Dict.{insert_all}
use harbor_workload_identity.Instant.{hour}
use harbor_workload_identity.HarborAccess.{Reason, issuer_mismatch}
use harbor_workload_identity.RobotSecret.{Secret, rotation_not_before, credentials}
use harbor_workload_identity.RobotSecret.Promise.{stamps}
use harbor_workload_identity.Dataplane.CacheTtl.{cache_duration}
use harbor_workload_identity.Contract.{rotation_safety_margin}
use harbor_workload_identity.Controlplane.Rotation.{
  scheduled, rotation_reason, requeue_after, next_rotation,
}
use harbor_workload_identity.Controlplane.Rotation.Promise.{
  rotation_reason-cache_duration, rotation_reason-stamps,
}
use harbor_workload_identity.Controlplane.Effect.{Safe}
use harbor_workload_identity.Controlplane.Deletion.{reconcile_delete}
use harbor_workload_identity.Controlplane.Deletion.Revoked.{
  Allowed, Finished, reconcile_delete-Safe,
}
use harbor_workload_identity.Controlplane.Suspension.{refuse}
use harbor_workload_identity.Controlplane.Suspension.Own.{MayRefuse, refuse-Safe}
use harbor_workload_identity.Controlplane.Storage.{put_robot_secret}
use harbor_workload_identity.Controlplane.Storage.Readable.{MayStore, Stored, put_robot_secret-Safe}
use harbor_workload_identity.Controlplane.Provision.{provision}
use harbor_workload_identity.Controlplane.Provision.Adopted.{
  MayProvision, Provisioned, provision-Safe,
}
use harbor_workload_identity.Controlplane.Janitor.{sweep_robots, sweep_secrets}
use harbor_workload_identity.Controlplane.Janitor.Sweeps.{
  MaySweep, sweep_robots-Safe, sweep_secrets-Safe,
}
use harbor_workload_identity.Controlplane.Convergence.{accept, reconcile_normal}
use harbor_workload_identity.Controlplane.Outcomes.{admitted_name}
use harbor_workload_identity.Controlplane.Convergence.Admission.{
  IsServable, admitted_name_iff, reconcile_normal_cases,
}
use harbor_workload_identity.Controlplane.Convergence.Current.Whole.{accept-Safe}
use harbor_workload_identity.Controlplane.Convergence.Current.{Any, MayPass}
use harbor_workload_identity.Tests.Samples.{
  short_name, pushes, access, clock, secret_of_pull, robot_of_pull, reconciler,
}

pub promise_read : rotation_not_before clock secret_of_pull ≡ some (50 * hour)
unfolding rotation_not_before harbor_workload_identity.Dict.lookup text_eq
promise_read = refl

pub rotated_on_schedule :
    rotation_reason clock access (some secret_of_pull) robot_of_pull (51 * hour) ≡ some scheduled
unfolding rotation_reason credentials harbor_workload_identity.Dict.get text_eq
    harbor_workload_identity.Controlplane.Rotation.is_re_created
    harbor_workload_identity.RobotSecret.robot_id harbor_workload_identity.Decimal.parse_int
    harbor_workload_identity.Decimal.parse_unsigned eq_ℤ
    harbor_workload_identity.Controlplane.Rotation.due rotation_not_before
rotated_on_schedule = refl

rotation_reason-cache_duration_example :
    (cache_duration (pos hour) (rotation_not_before clock secret_of_pull) (40 * hour) ≡ 0)
    ⊎ (40 * hour
          + cache_duration (pos hour) (rotation_not_before clock secret_of_pull) (40 * hour)
          + rotation_safety_margin
        ≤ 51 * hour)
rotation_reason-cache_duration_example =
    rotation_reason-cache_duration clock access secret_of_pull robot_of_pull (pos hour) (50 * hour)
      (40 * hour) (51 * hour) promise_read rotated_on_schedule

stamped :
    secret_of_pull.annotations
    ≡ insert_all
        (stamps clock (pos 5) (next_rotation clock access none (30 * hour) (some (26 * hour))))
        []
unfolding insert_all text_eq harbor_workload_identity.RobotSecret.format_robot_id
    harbor_workload_identity.RobotSecret.format_rotation_not_before
    harbor_workload_identity.Decimal.format_int next_rotation
    harbor_workload_identity.Decimal.format_digits
stamped = refl

held : credentials secret_of_pull ≡ some (robot_of_pull.wire_name, codes "hunter2")
unfolding credentials harbor_workload_identity.Dict.get text_eq
held = refl

rotation_reason-stamps_example :
    rotation_reason clock access (some secret_of_pull) robot_of_pull (30 * hour) ≡ none
rotation_reason-stamps_example =
    rotation_reason-stamps clock access secret_of_pull robot_of_pull (codes "hunter2") []
      (26 * hour) (30 * hour) stamped held (omega arith) (omega arith) (omega arith)

reconcile_delete-Safe_example :
    Safe
      (Allowed reconciler access)
      (Finished reconciler access)
      []
      (reconcile_delete reconciler access)
reconcile_delete-Safe_example = reconcile_delete-Safe reconciler access

refuse-Safe_example :
    Safe
      (MayRefuse reconciler access issuer_mismatch)
      (λ h p. Unit)
      []
      (refuse reconciler access issuer_mismatch)
refuse-Safe_example = refuse-Safe reconciler access issuer_mismatch

sweep_robots-Safe_example :
    Safe
      (MaySweep reconciler (robot_of_pull ∷ []) [])
      (λ h u. Unit)
      []
      (sweep_robots reconciler (λ ns name. none) (robot_of_pull ∷ []))
sweep_robots-Safe_example = sweep_robots-Safe reconciler (λ ns name. none) (robot_of_pull ∷ []) []

sweep_secrets-Safe_example :
    Safe
      (MaySweep reconciler [] (secret_of_pull ∷ []))
      (λ h u. Unit)
      []
      (sweep_secrets reconciler (λ ns name. none) (secret_of_pull ∷ []))
sweep_secrets-Safe_example =
    sweep_secrets-Safe reconciler (λ ns name. none) (secret_of_pull ∷ []) []

put_robot_secret-Safe_example :
    Safe
      (MayStore reconciler access robot_of_pull (codes "hunter2") (50 * hour))
      (Stored reconciler access robot_of_pull (codes "hunter2") (50 * hour))
      []
      (put_robot_secret reconciler access
        (some secret_of_pull)
        robot_of_pull
        (codes "hunter2")
        (50 * hour))
put_robot_secret-Safe_example =
    put_robot_secret-Safe reconciler access robot_of_pull (codes "hunter2") (50 * hour)
      (λ e. ground arith) (λ e. ground arith) (omega arith) (omega arith) (some secret_of_pull)

provision-Safe_example :
    Safe
      (MayProvision reconciler access short_name (codes "d") pushes)
      (Provisioned reconciler access short_name (codes "d") pushes)
      []
      (provision reconciler access short_name (codes "d") pushes)
provision-Safe_example = provision-Safe reconciler access short_name (codes "d") pushes

accept-Safe_example :
    Safe
      (MayPass reconciler 4 (40 * hour) access short_name)
      Any
      []
      (accept reconciler 4 (40 * hour) access short_name)
accept-Safe_example = accept-Safe reconciler 4 (40 * hour) access short_name

admitted_name_iff_example :
    (admitted_name reconciler access ≡ ok short_name) ↔ IsServable reconciler access short_name
admitted_name_iff_example = admitted_name_iff reconciler access short_name

reconcile_normal_cases_example :
    ((reason : Reason) × (admitted_name reconciler access ≡ err reason)
      × (reconcile_normal reconciler 4 (40 * hour) access ≡ refuse reconciler access reason))
    ⊎ ((name : Bytes) × IsServable reconciler access name
        × (reconcile_normal reconciler 4 (40 * hour) access
            ≡ accept reconciler 4 (40 * hour) access name))
reconcile_normal_cases_example =
    reconcile_normal_cases reconciler access 4 (40 * hour) (λ s. refl) (λ e. ground arith)
