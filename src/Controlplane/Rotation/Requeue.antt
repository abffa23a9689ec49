-- ===== src/Controlplane/Rotation/Requeue.antt =====
-- The time of the next pass (`requeueAfter` of bridge/controlplane/reconciler.go).
use harbor_workload_identity.Base.{ℕ, ◌+◌, ◌*◌, ◌≤◌, ◌<◌, ◌⊎◌, ◌≡◌, arith}
use harbor_workload_identity.Text.{Bytes}
use harbor_workload_identity.Instant.{second, minute}
use harbor_workload_identity.HarborAccess.{HarborAccess}
use harbor_workload_identity.Contract.{rotation_safety_margin, resync_interval}
use harbor_workload_identity.Controlplane.Rotation.{resync_after, requeue_after}

module _ (fnv32 : Bytes → ℕ) (ha : HarborAccess) where
  resync_after_bounds :
      (resync_after fnv32 ha ≤ resync_interval) × (54 * minute < resync_after fnv32 ha)
  unfolding resync_after
  resync_after_bounds = omega arith

  -- The next pass comes after at least a second and at most an hour; and where the rotation is due in
  -- more than a second, no later than that.
  pub requeue_after_bounds :
      (not_before now : ℕ)
      → (second ≤ requeue_after fnv32 ha not_before now)
        × (requeue_after fnv32 ha not_before now ≤ resync_interval)
        × ((now + requeue_after fnv32 ha not_before now ≤ not_before + rotation_safety_margin)
            ⊎ (requeue_after fnv32 ha not_before now ≡ second))
  unfolding requeue_after
  requeue_after_bounds not_before now = ground (arith, resync_after_bounds)
