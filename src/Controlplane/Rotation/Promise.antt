-- ===== src/Controlplane/Rotation/Promise.antt =====
-- The decision to rotate and the promise in the Secret, which the endpoint reads too
-- (`rotationReason` of bridge/controlplane/reconciler.go).
use harbor_workload_identity.Base.{ℕ, ◌+◌, ◌≤◌, ◌<◌, ◌⊎◌, ◌≡◌, refl, none, some, inl, inr, arith}
use harbor_workload_identity.Base.Int.{ℤ, eq_ℤ_iff}
use harbor_workload_identity.Text.{Bytes}
use harbor_workload_identity.Text.Prefix.{text_eq_self}
use harbor_workload_identity.Dict.{Dict, insert_all}
use harbor_workload_identity.Decimal.{IsInt64}
use harbor_workload_identity.Instant.{second, year_10000, Rfc3339}
use harbor_workload_identity.HarborAccess.{HarborAccess}
use harbor_workload_identity.RobotSecret.{Secret, credentials, rotation_not_before}
use harbor_workload_identity.RobotSecret.Promise.{stamps, rotation_not_before-stamps}
use harbor_workload_identity.Dataplane.CacheTtl.{cache_duration, cache_duration-le}
use harbor_workload_identity.Contract.{Robot, password_rotation_interval, rotation_safety_margin}
use harbor_workload_identity.Controlplane.Rotation.{
  scheduled, is_re_created, due, rotation_reason, next_rotation,
}

module _ (clock : Rfc3339) where
  scheduled_after :
      (ha : HarborAccess) (s : Secret) (robot : Robot) (not_before now : ℕ)
      → rotation_not_before clock s ≡ some not_before
      → rotation_reason clock ha (some s) robot now ≡ some scheduled
      → not_before + rotation_safety_margin ≤ now
  unfolding rotation_reason due
  scheduled_after ha s robot not_before now promised e = ground arith

  -- A credential that the endpoint let kubelet cache is not cached any more when the scheduled
  -- rotation replaces the password: the cache has ended at least the safety margin before.
  pub rotation_reason-cache_duration :
      (ha : HarborAccess) (s : Secret) (robot : Robot) (token_ttl : ℤ) (not_before served now : ℕ)
      → rotation_not_before clock s ≡ some not_before
      → rotation_reason clock ha (some s) robot now ≡ some scheduled
      → (cache_duration token_ttl (rotation_not_before clock s) served ≡ 0)
        ⊎ (served
              + cache_duration token_ttl (rotation_not_before clock s) served
              + rotation_safety_margin
            ≤ now)
  rotation_reason-cache_duration ha s robot token_ttl not_before served now promised e =
      let late = scheduled_after ha s robot not_before now promised e in
      let (within, _) = cache_duration-le token_ttl not_before served in
      rw promised (elim within [ inl z ↦ inl z | inr le ↦ inr (omega arith) ])

  -- A Secret that was stored for a robot when its password was rotated at an instant needs no rotation
  -- until a day and the margin have passed.
  pub rotation_reason-stamps :
      (ha : HarborAccess) (s : Secret) (robot : Robot) (password : Bytes) (old : Dict)
      (rotated now : ℕ)
      → s.annotations
        ≡ insert_all (stamps clock robot.id (next_rotation clock ha none now (some rotated))) old
      → credentials s ≡ some (robot.wire_name, password)
      → IsInt64 robot.id
      → rotated + password_rotation_interval + second < year_10000
      → now < rotated + password_rotation_interval + rotation_safety_margin
      → rotation_reason clock ha (some s) robot now ≡ none
  unfolding rotation_reason is_re_created due next_rotation
  rotation_reason-stamps ha s robot password old rotated now written held range early soon =
      let (id, promise, low, high) =
        rotation_not_before-stamps clock s robot.id (rotated + password_rotation_interval) old
          written range early in
      let same = text_eq_self robot.wire_name in
      let one = (eq_ℤ_iff robot.id robot.id).1 refl in ground arith
