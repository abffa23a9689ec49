-- ===== src/Controlplane/Convergence/Current.antt =====
-- The calls of a pass over an accepted HarborAccess (`reconcileNormal` of
-- bridge/controlplane/reconciler.go, from its step 5 on).
pub mod Written
pub mod Stored
pub mod Whole
use harbor_workload_identity.Base.{
  ℕ, Bool, true, false, not, ◌≡◌, ◌⊎◌, inl, inr, refl, List, [], ◌∷◌, Option, none, some, Result,
  ok, err, In,
}
use harbor_workload_identity.Base.Int.{ℤ}
use harbor_workload_identity.Text.{Bytes}
use harbor_workload_identity.Naming.{ProjectPermission}
use harbor_workload_identity.RobotSecret.{Secret, secret_name}
use harbor_workload_identity.HarborAccess.{HarborAccess, Reason}
use harbor_workload_identity.Contract.{Robot, robot_suspended}
use harbor_workload_identity.Controlplane.Effect.{
  CallError, not_found, Call, get_secret, create_secret, update_secret, delete_secret,
  patch_finalizers, update_status, get_harbor_access, get_robot, list_robots, create_robot,
  update_robot, refresh_secret, delete_robot, Event, answered, History,
}
use harbor_workload_identity.Controlplane.Secrets.{Reconciler}
use harbor_workload_identity.Controlplane.Rotation.{rotation_reason}
use harbor_workload_identity.Controlplane.Deletion.{Pass, not_ready, is_own, is_kept}
use harbor_workload_identity.Controlplane.Storage.{data_of}
use harbor_workload_identity.Controlplane.Convergence.{desired_description, desired_perms}
use harbor_workload_identity.Controlplane.Outcomes.{ready_status, enabled_copy, resumed_robot}

-- Nothing is asked of the result.
abbrev pub Any : History → Pass → Type 0
Any h pass = Unit

module _ (r : Reconciler) (retries now : ℕ) (ha : HarborAccess) (name : Bytes) where
  abbrev pub read_call : Call
  read_call = get_secret r.config.namespace (secret_name r.hash_of ha.namespace ha.name)

  abbrev pub description : Bytes
  description = desired_description r retries now ha name

  abbrev pub perms : List ProjectPermission
  perms = desired_perms r retries now ha name

  -- Harbor returned the robot under the name, or created it there.
  abbrev pub Found : History → Robot → Type 0
  Found h robot = In (answered (get_robot name) (ok robot)) h

  abbrev pub Made : History → Robot → Type 0
  Made h robot = In (answered (create_robot name description perms) (ok robot)) h

  abbrev pub Known : History → ℤ → Type 0
  Known h id = (robot : Robot) × (Found h robot ⊎ Made h robot) × (robot.id ≡ id)

  -- Harbor gave this password to the robot of this id in the pass.
  abbrev pub FromHarbor : History → ℤ → Bytes → Type 0
  FromHarbor h id password =
      In (answered (refresh_secret id) (ok password)) h
      ⊎ ((robot : Robot) × Made h robot × (robot.id ≡ id) × (robot.secret ≡ password))

  -- The Secret was not there, or was deleted.
  abbrev pub SecretGone : History → Type 0
  SecretGone h =
      In (answered read_call (err not_found)) h
      ⊎ ((s : Secret) × (In (answered (delete_secret s) (ok tt)) h
            ⊎ In (answered (delete_secret s) (err not_found)) h))

  -- The data of the Secret: a password that Harbor gave in this pass, or those that were read.
  abbrev pub HoldsCurrent : History → Secret → Type 0
  HoldsCurrent h s =
      ((robot : Robot) × (password : Bytes) × (s.content ≡ data_of robot password)
        × FromHarbor h robot.id password)
      ⊎ ((read : Secret) × In (answered read_call (ok read)) h × (s.content ≡ read.content))

  -- The Secret was written, or the one that was read needs no writing: no rotation was due for its
  -- password, or the password that Harbor gave was empty.
  abbrev pub IsWritten : History → ℤ → Type 0
  IsWritten h id =
      (s : Secret) × (In (answered (create_secret s) (ok tt)) h
        ⊎ (In (answered (update_secret s) (ok tt)) h
            ⊎ (In (answered read_call (ok s)) h
                × (((robot : Robot) × (robot.id ≡ id)
                      × (rotation_reason r.clock ha (some s) robot now ≡ none))
                    ⊎ FromHarbor h id []))))

  -- The robot as the pass holds it: as Harbor returned or created it, or enabled by an update that Harbor
  -- confirmed.
  abbrev pub Held : History → Robot → Type 0
  Held h robot =
      Found h robot
      ⊎ (Made h robot
          ⊎ ((was : Robot) × Found h was
              × In (answered (update_robot (enabled_copy was) description perms) (ok tt)) h
              × (robot ≡ resumed_robot was description)))

  -- What the pass may do: the Secret at the name is read, and deleted only to resume a suspended robot;
  -- only the robot at the name is looked up, created or rotated; it is updated to what the object
  -- wants, as it is, or enabled once its Secret is gone and its password was rotated; the Secret's
  -- password is one that Harbor gave in this pass, or stays; only other robots of this HarborAccess
  -- are deleted; and Ready is written once the Secret is, for a robot that the pass holds as enabled.
  unfoldable pub MayPass : History → Call → Type 0
  MayPass h (get_secret ns n) =
      (ns ≡ r.config.namespace) × (n ≡ secret_name r.hash_of ha.namespace ha.name)
  MayPass h (delete_secret s) =
      In (answered read_call (ok s)) h
      × (robot : Robot) × Found h robot
      × (robot.disabled ≡ true)
      × (robot_suspended robot.description ≡ true)
  MayPass h (get_robot n) = n ≡ name
  MayPass h (create_robot n d p) = (n ≡ name) × (d ≡ description) × (p ≡ perms)
  MayPass h (refresh_secret id) = (robot : Robot) × Found h robot × (robot.id ≡ id)
  MayPass h (update_robot changed d p) =
      (d ≡ description)
      × (p ≡ perms)
      × (robot : Robot) × Found h robot
      × ((changed ≡ robot)
          ⊎ ((changed ≡ enabled_copy robot)
              × SecretGone h
              × (password : Bytes) × In (answered (refresh_secret robot.id) (ok password)) h))
  MayPass h (create_secret s) = HoldsCurrent h s
  MayPass h (update_secret s) = HoldsCurrent h s
  MayPass h list_robots = Unit
  MayPass h (delete_robot id) =
      (robots : List Robot) × (robot : Robot) × (keep : ℤ) × In (answered list_robots (ok robots)) h
      × In robot robots
      × (robot.id ≡ id)
      × (is_own r ha robot ≡ true)
      × Known h keep
      × (is_kept (some keep) id ≡ false)
  MayPass h (update_status status) =
      ((reason : Reason) × (status ≡ not_ready r ha reason))
      ⊎ ((robot : Robot) × (rotated_at : Option ℕ) × (status ≡ ready_status r ha robot rotated_at)
          × Held h robot
          × (robot.disabled ≡ false)
          × IsWritten h robot.id)
  MayPass h (patch_finalizers object finalizers) = object ≡ ha
  MayPass h (get_harbor_access ns n) = ⊥
