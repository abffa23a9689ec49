-- ===== src/RobotSecret/Promise.antt =====
-- The annotations of a Secret as they are written and read
-- (bridge/internal/robotsecret/robotsecret.go).
use harbor_workload_identity.Base.{ℕ, ◌+◌, ◌%◌, ◌≤◌, ◌<◌, ◌≡◌, ap, ◌∙◌, [], ◌∷◌, some, arith}
use harbor_workload_identity.Base.Int.{ℤ}
use harbor_workload_identity.Text.{text_eq}
use harbor_workload_identity.Dict.{Dict, lookup, insert_all, lookup-insert}
use harbor_workload_identity.Decimal.{IsInt64, parse_int-format_int}
use harbor_workload_identity.Instant.{second, year_10000, Rfc3339}
use harbor_workload_identity.RobotSecret.{
  Secret, annotation_robot_id, annotation_rotation_not_before, robot_id, format_robot_id,
  ceil_second, rotation_not_before, format_rotation_not_before,
}

pub ceil_second_bounds :
    (t : ℕ) → (t ≤ ceil_second t) × (ceil_second t < t + second) × (ceil_second t % second ≡ 0)
unfolding ceil_second
ceil_second_bounds t = ground arith

-- The annotations of `putRobotSecret` for a robot and a promised instant.
abbrev pub stamps : Rfc3339 → ℤ → ℕ → Dict
stamps clock id not_before =
    (annotation_robot_id, format_robot_id id)
    ∷ (annotation_rotation_not_before, format_rotation_not_before clock not_before)
    ∷ []

lookup-robot_id :
    (clock : Rfc3339) (id : ℤ) (t : ℕ) (old : Dict)
    → lookup annotation_robot_id (insert_all (stamps clock id t) old) ≡ some (format_robot_id id)
unfolding insert_all text_eq
lookup-robot_id clock id t old = simp lookup-insert

lookup-rotation_not_before :
    (clock : Rfc3339) (id : ℤ) (t : ℕ) (old : Dict)
    → lookup annotation_rotation_not_before (insert_all (stamps clock id t) old)
      ≡ some (format_rotation_not_before clock t)
unfolding insert_all text_eq
lookup-rotation_not_before clock id t old = simp lookup-insert

-- A Secret stamped with a robot's id and a promised instant is read back: the id, and the first whole
-- second from the instant on, which is no earlier and less than a second later.
pub rotation_not_before-stamps :
    (clock : Rfc3339) (s : Secret) (id : ℤ) (t : ℕ) (old : Dict)
    → s.annotations ≡ insert_all (stamps clock id t) old
    → IsInt64 id
    → t + second < year_10000
    → (robot_id s ≡ some id)
      × (rotation_not_before clock s ≡ some (ceil_second t))
      × (t ≤ ceil_second t)
      × (ceil_second t < t + second)
unfolding robot_id rotation_not_before
rotation_not_before-stamps clock s id t old written range early =
    let (low, high, whole) = ceil_second_bounds t in
    let with_id = ap (lookup annotation_robot_id) written ∙ lookup-robot_id clock id t old in
    let with_promise =
      ap (lookup annotation_rotation_not_before) written
      ∙ lookup-rotation_not_before clock id t old in
    (
      rw (with_id, robot_id) (unfold format_robot_id in parse_int-format_int id range),
      rw (with_promise, rotation_not_before)
          (unfold format_rotation_not_before in
            clock.parse-format (ceil_second t) whole (omega arith)),
      low,
      high,
    )
