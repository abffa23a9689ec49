-- ===== src/Controlplane/Storage/Retried.antt =====
-- How the writing of the robot Secret is retried (`writeRobotSecret` of
-- bridge/controlplane/reconciler.go).
use harbor_workload_identity.Base.{
  ℕ, suc, ◌+◌, ◌≤◌, true, false, ◌≡◌, ◌⊎◌, [], ◌∷◌, Option, none, some, Result, ok, err,
}
use harbor_workload_identity.Text.{Bytes}
use harbor_workload_identity.RobotSecret.{Secret, secret_name}
use harbor_workload_identity.HarborAccess.{HarborAccess}
use harbor_workload_identity.Contract.{Robot}
use harbor_workload_identity.Controlplane.Effect.{
  CallError, Call, get_harbor_access, get_secret, create_secret, update_secret, delete_secret,
  patch_finalizers, update_status, get_robot, list_robots, create_robot, update_robot,
  refresh_secret, delete_robot, answered, History,
}
use harbor_workload_identity.Controlplane.Secrets.{Reconciler, Failure, found_secret}
use harbor_workload_identity.Controlplane.Storage.{
  new_secret, updated_secret, is_unchanged, is_secret_write_race,
}

abbrev writes_of : Call → ℕ
writes_of (create_secret s) = 1
writes_of (update_secret s) = 1
writes_of _ = 0

-- The writes of Secrets so far.
unfoldable pub writes : History → ℕ
writes [] = 0
writes (answered c a ∷ h) = writes_of c + writes h

-- The last call was a write that failed with this error, or that was confirmed.
abbrev FailedWrite : History → CallError → Type 0
FailedWrite h e =
    ((s : Secret) × (before : History) × (h ≡ answered (create_secret s) (err e) ∷ before))
    ⊎ ((s : Secret) × (before : History) × (h ≡ answered (update_secret s) (err e) ∷ before))

abbrev ConfirmedWrite : History → Type 0
ConfirmedWrite h =
    ((s : Secret) × (before : History) × (h ≡ answered (create_secret s) (ok tt) ∷ before))
    ⊎ ((s : Secret) × (before : History) × (h ≡ answered (update_secret s) (ok tt) ∷ before))

module _ (r : Reconciler) (ha : HarborAccess) (robot : Robot) (retries : ℕ)
    (existing : Option Secret) (password : Bytes) (not_before : ℕ) where
  abbrev pub reread : Call
  reread = get_secret r.config.namespace (secret_name r.hash_of ha.namespace ha.name)

  -- The Secret that a write starts from: at first the given one, later the one that the call just before
  -- it read.
  abbrev pub StartsFrom : History → Option Secret → Type 0
  StartsFrom h current =
      ((h ≡ []) × (current ≡ existing))
      ⊎ ((a : Result CallError Secret) × (before : History) × (h ≡ answered reread a ∷ before)
          × (found_secret a ≡ ok current))

  -- What the writing may do: write from the given Secret, or from the one that was read just before,
  -- once more than there are retries at most; and read the Secret only just after a write that lost a
  -- race.
  unfoldable pub MayRetry : History → Call → Type 0
  MayRetry h (create_secret s) =
      StartsFrom h none × (s ≡ new_secret r ha robot password not_before) × (writes h ≤ retries)
  MayRetry h (update_secret s) =
      (current : Secret) × StartsFrom h (some current)
      × (s ≡ updated_secret r ha current robot password not_before)
      × (writes h ≤ retries)
  MayRetry h (get_secret namespace name) =
      (namespace ≡ r.config.namespace)
      × (name ≡ secret_name r.hash_of ha.namespace ha.name)
      × (e : CallError) × FailedWrite h e
      × (is_secret_write_race e ≡ true)
  MayRetry h (get_harbor_access namespace name) = ⊥
  MayRetry h (delete_robot id) = ⊥
  MayRetry h (delete_secret s) = ⊥
  MayRetry h (patch_finalizers object finalizers) = ⊥
  MayRetry h (update_status status) = ⊥
  MayRetry h (get_robot name) = ⊥
  MayRetry h list_robots = ⊥
  MayRetry h (create_robot name description permissions) = ⊥
  MayRetry h (update_robot changed description permissions) = ⊥
  MayRetry h (refresh_secret id) = ⊥

  -- The last call confirmed a write, or the Secret to start from needs none.
  abbrev pub IsStored : History → Type 0
  IsStored h =
      ConfirmedWrite h
      ⊎ ((current : Secret) × StartsFrom h (some current)
          × (is_unchanged (updated_secret r ha current robot password not_before) current password
              ≡ true))

  abbrev pub IsWritten : History → Result Failure Unit → Type 0
  IsWritten h (ok u) = IsStored h
  IsWritten h (err e) = Unit

  -- After one try.
  abbrev Tried : History → History → Result CallError Unit → Type 0
  Tried h h' (ok u) = IsStored h'
  Tried h h' (err e) =
      (is_secret_write_race e ≡ false) ⊎ (FailedWrite h' e × (writes h' ≡ suc (writes h)))
