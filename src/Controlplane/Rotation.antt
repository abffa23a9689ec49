-- ===== src/Controlplane/Rotation.antt =====
-- When a robot's password is rotated and when the next pass runs (`rotationReason`,
-- `rotationNotBefore`, `requeueAfter` and `resyncAfter` of bridge/controlplane/reconciler.go).
pub mod Promise
pub mod Requeue
use harbor_workload_identity.Base.{
  ℕ, ◌+◌, ◌-◌, ◌*◌, ◌/◌, ◌%◌, Bool, true, false, not, ◌&&◌, ◌||◌, Option, none, some, leb, ltb,
  if◌then◌else◌,
}
use harbor_workload_identity.Base.Int.{ℤ, pos, eq_ℤ}
use harbor_workload_identity.Text.{Bytes, text_eq}
use harbor_workload_identity.Instant.{second, before, Rfc3339}
use harbor_workload_identity.HarborAccess.{HarborAccess}
use harbor_workload_identity.RobotSecret.{Secret, credentials, robot_id, rotation_not_before}
use harbor_workload_identity.Contract.{
  Robot, password_rotation_interval, rotation_safety_margin, resync_interval,
}

-- What `rotationReason` returns, which is "" where no rotation is due.
pub data RotationReason : Type 0 where
  secret_missing secret_incomplete credentials_of_another_robot re_created : RotationReason
  scheduled no_record : RotationReason

-- `ha.Status.Robot.LastRotated`, if both are there.
unfoldable pub last_rotated : HarborAccess → Option ℕ
last_rotated ha = elim ha.status.robot [ none ↦ none | some r ↦ r.last_rotated ]

-- The status names a robot, and another one than this.
unfoldable pub status_names_other : HarborAccess → ℤ → Bool
status_names_other ha id = elim ha.status.robot [
  | none ↦ false
  | some r ↦ not (eq_ℤ r.id (pos 0)) && not (eq_ℤ r.id id)
]

-- The robot is not the one whose password the Secret holds.
unfoldable pub is_re_created : HarborAccess → Secret → ℤ → Bool
is_re_created ha s id = elim (robot_id s) [
  | some held ↦ not (eq_ℤ held id)
  | none ↦ status_names_other ha id
]

module _ (clock : Rfc3339) where
  -- The checks by time, from the promise on.
  unfoldable pub due : HarborAccess → Secret → ℕ → Option RotationReason
  due ha s now = elim (rotation_not_before clock s) [
    | some nb ↦ if not (before now (nb + rotation_safety_margin)) then some scheduled else none
    | none ↦ elim (last_rotated ha) [
      | none ↦ some no_record
      | some t ↦
          if not (before now (t + (password_rotation_interval + rotation_safety_margin)))
          then some scheduled
          else none
    ]
  ]

  unfoldable pub rotation_reason : HarborAccess → Option Secret → Robot → ℕ → Option RotationReason
  rotation_reason ha none robot now = some secret_missing
  rotation_reason ha (some s) robot now = elim (credentials s) [
    | none ↦ some secret_incomplete
    | some (username, _) ↦
        if not (text_eq username robot.wire_name)
        then some credentials_of_another_robot
        else if is_re_created ha s robot.id
        then some re_created
        else due ha s now
  ]

  -- The promise of the Secret, if it exists.
  abbrev promised : Option Secret → Option ℕ
  promised none = none
  promised (some s) = rotation_not_before clock s

  -- `rotationNotBefore`
  unfoldable pub next_rotation : HarborAccess → Option Secret → ℕ → Option ℕ → ℕ
  next_rotation ha secret now (some rotated) = rotated + password_rotation_interval
  next_rotation ha secret now none = elim (promised secret) [
    | some nb ↦ nb
    | none ↦ elim (last_rotated ha) [ some t ↦ t + password_rotation_interval | none ↦ now ]
  ]

-- `resyncAfter`; `fnv32` is the 32-bit FNV-1a hash of hash/fnv.
unfoldable pub resync_after : (Bytes → ℕ) → HarborAccess → ℕ
resync_after fnv32 ha = resync_interval - fnv32 ha.uid % (resync_interval / 10 / second) * second

-- `requeueAfter`. Where `now` is past the rotation, `untilRotation` is negative, and the result is
-- the same as for 0.
unfoldable pub requeue_after : (Bytes → ℕ) → HarborAccess → ℕ → ℕ → ℕ
requeue_after fnv32 ha not_before now =
    let until_rotation = not_before + rotation_safety_margin - now in
    let next =
      if ltb until_rotation (resync_after fnv32 ha)
      then until_rotation
      else resync_after fnv32 ha in
    if ltb next second then second else next
