-- ===== src/Plugin/Cached.antt =====
-- How long kubelet caches what the plugin hands on (plugin/main.go), against the rotation of the
-- password (bridge/controlplane/reconciler.go) and the duration that the endpoint answers with
-- (bridge/dataplane/handler.go).
use harbor_workload_identity.Base.{ℕ, ◌+◌, ◌≤◌, ◌≡◌, ◌⊎◌, inl, inr, some, arith}
use harbor_workload_identity.Base.Int.{ℤ, pos}
use harbor_workload_identity.Instant.{Rfc3339}
use harbor_workload_identity.RobotSecret.{Secret, rotation_not_before}
use harbor_workload_identity.HarborAccess.{HarborAccess}
use harbor_workload_identity.Contract.{Robot, rotation_safety_margin}
use harbor_workload_identity.Dataplane.CacheTtl.{cache_duration, whole_seconds}
use harbor_workload_identity.Controlplane.Rotation.{scheduled, rotation_reason}
use harbor_workload_identity.Controlplane.Rotation.Promise.{rotation_reason-cache_duration}
use harbor_workload_identity.Plugin.{max_cache_duration, kubelet_duration, not_negative}

-- The plugin never asks kubelet for more than a day, nor for more than the bridge allowed.
kubelet_duration-le :
    (ttl : ℕ)
    → (kubelet_duration (pos (whole_seconds ttl)) ≤ max_cache_duration)
      × (kubelet_duration (pos (whole_seconds ttl)) ≤ ttl)
unfolding kubelet_duration not_negative
kubelet_duration-le ttl = ground arith

-- A credential that the endpoint served with its cache duration, and that kubelet received within the
-- safety margin, is not cached any more by kubelet when the scheduled rotation replaces the password.
pub kubelet_duration-rotation_reason :
    (clock : Rfc3339) (ha : HarborAccess) (s : Secret) (robot : Robot) (token_ttl : ℤ)
    (not_before served received now : ℕ)
    → rotation_not_before clock s ≡ some not_before
    → rotation_reason clock ha (some s) robot now ≡ some scheduled
    → received ≤ served + rotation_safety_margin
    → (kubelet_duration
          (pos (whole_seconds (cache_duration token_ttl (rotation_not_before clock s) served)))
        ≡ 0)
      ⊎ (received
            + kubelet_duration (
                pos (whole_seconds (cache_duration token_ttl (rotation_not_before clock s) served)))
          ≤ now)
kubelet_duration-rotation_reason clock ha s robot token_ttl not_before served received now promised
      due soon =
    let ttl = cache_duration token_ttl (rotation_not_before clock s) served in
    let (_, within) = kubelet_duration-le ttl in
    elim (rotation_reason-cache_duration clock ha s robot token_ttl not_before served now promised
      due) [ inl zero_ttl ↦ inl (omega arith) | inr before ↦ inr (omega arith) ]
