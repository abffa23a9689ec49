-- ===== src/Controlplane/Provision/Adopted.antt =====
-- The calls of `ensureFinalizer` and `ensureRobot` (bridge/controlplane/reconciler.go), in the order
-- of `reconcileNormal`.
use harbor_workload_identity.Base.{
  true, false, not, ◌≡◌, ◌⊎◌, refl, List, [], ◌∷◌, Result, ok, err, In, inl, inr, arith,
}
use harbor_workload_identity.Text.{Bytes}
use harbor_workload_identity.Naming.{ProjectPermission}
use harbor_workload_identity.HarborAccess.{HarborAccess, harbor_error, robot_conflict, finalizer}
use harbor_workload_identity.Contract.{Robot, robot_belongs_to_cluster}
use harbor_workload_identity.Controlplane.Effect.{
  CallError, not_found, already_exists, conflict, failed, Call, get_secret, create_secret,
  update_secret, delete_secret, patch_finalizers, update_status, get_harbor_access, get_robot,
  list_robots, create_robot, update_robot, refresh_secret, delete_robot, ret, Event, answered,
  History, Safe, Safe-ret, Safe-call, Safe-if, Safe-bind,
}
use harbor_workload_identity.Controlplane.Secrets.{Reconciler, Failure}
use harbor_workload_identity.Controlplane.Deletion.{Pass, not_ready, retry, requeue}
use harbor_workload_identity.Controlplane.Rotation.{resync_after}
use harbor_workload_identity.Controlplane.Provision.{
  ensure_finalizer, Ensured, ensured, stopped, after_status, mark_transient_error,
  mark_not_ready_with_requeue, names_other, adopt, after_conflict, after_create, after_lookup,
  ensure_robot, after_finalizer, provision,
}

module _ (r : Reconciler) (ha : HarborAccess) (name description : Bytes)
    (perms : List ProjectPermission) where
  -- The object held the finalizer, or the API server confirmed that it was added.
  abbrev pub IsHeld : History → Type 0
  IsHeld h =
      (r.contains_finalizer ha.finalizers (finalizer r.config) ≡ true)
      ⊎ In
          (answered (patch_finalizers ha (r.add_finalizer (finalizer r.config) ha.finalizers))
            (ok tt))
          h

  -- The finalizer is added, the robot looked up at its name, and created there with the description and
  -- the grants once the finalizer is held; the status is written for a failure or a conflict.
  unfoldable pub MayProvision : History → Call → Type 0
  MayProvision h (patch_finalizers object finalizers) =
      (object ≡ ha) × (finalizers ≡ r.add_finalizer (finalizer r.config) ha.finalizers)
  MayProvision h (get_robot n) = (n ≡ name) × IsHeld h
  MayProvision h (create_robot n d p) = (n ≡ name) × (d ≡ description) × (p ≡ perms) × IsHeld h
  MayProvision h (update_status status) =
      (status ≡ not_ready r ha harbor_error) ⊎ (status ≡ not_ready r ha robot_conflict)
  MayProvision h (get_secret namespace n) = ⊥
  MayProvision h (create_secret s) = ⊥
  MayProvision h (update_secret s) = ⊥
  MayProvision h (delete_secret s) = ⊥
  MayProvision h (get_harbor_access namespace n) = ⊥
  MayProvision h list_robots = ⊥
  MayProvision h (update_robot robot d p) = ⊥
  MayProvision h (refresh_secret id) = ⊥
  MayProvision h (delete_robot id) = ⊥

  -- The finalizer is held, and the robot is the one that was just created, or one that was found at the
  -- name, carries this cluster's token and names no other HarborAccess.
  unfoldable pub Provisioned : History → Ensured → Type 0
  Provisioned h (ensured robot true) =
      IsHeld h × In (answered (create_robot name description perms) (ok robot)) h
  Provisioned h (ensured robot false) =
      IsHeld h
      × In (answered (get_robot name) (ok robot)) h
      × (robot_belongs_to_cluster robot.description r.config.cluster_name ≡ true)
      × (names_other r ha robot ≡ false)
  Provisioned h (stopped pass) = Unit

  after_status-Safe :
      (h : History) (pass : Pass) (a : Result CallError Unit)
      → Safe MayProvision Provisioned h (after_status pass a)
  unfolding Provisioned
  after_status-Safe h pass (ok u) = Safe-ret MayProvision Provisioned tt
  after_status-Safe h pass (err e) = Safe-ret MayProvision Provisioned tt

  mark_transient_error-Safe :
      (h : History) (cause : Failure)
      → Safe MayProvision Provisioned h (mark_transient_error r ha cause)
  unfolding mark_transient_error MayProvision
  mark_transient_error-Safe h cause =
      Safe-call MayProvision Provisioned (update_status (not_ready r ha harbor_error)) _ (inl refl)
        (λ v. after_status-Safe _ (retry cause) (ok v))
        (λ e. after_status-Safe _ (retry cause) (err e))

  conflict-Safe :
      (h : History)
      → Safe MayProvision Provisioned h (mark_not_ready_with_requeue r ha robot_conflict)
  unfolding mark_not_ready_with_requeue MayProvision
  conflict-Safe h =
      Safe-call MayProvision Provisioned (update_status (not_ready r ha robot_conflict)) _
        (inr refl) (λ v. after_status-Safe _ (requeue (resync_after r.fnv32 ha)) (ok v))
        (λ e. after_status-Safe _ (requeue (resync_after r.fnv32 ha)) (err e))

  adopt-Safe :
      (h : History) (robot : Robot)
      → IsHeld h
      → In (answered (get_robot name) (ok robot)) h
      → Safe MayProvision Provisioned h (adopt r ha robot)
  unfolding adopt Provisioned
  adopt-Safe h robot held seen =
      let belongs = robot_belongs_to_cluster robot.description r.config.cluster_name in
      Safe-if MayProvision Provisioned h (not belongs) _ _ (λ e. conflict-Safe h)
        (λ ours.
          Safe-if MayProvision Provisioned h (names_other r ha robot) _ _ (λ e. conflict-Safe h)
            (λ mine. Safe-ret MayProvision Provisioned (held, seen, ground arith, mine)))

  later : (h : History) (e : Event) → IsHeld h → IsHeld (e ∷ h)
  later h e (inl held) = inl held
  later h e (inr held) = inr (inr held)

  after_conflict-Safe :
      (h : History) (a : Result CallError Robot)
      → IsHeld h
      → Safe MayProvision Provisioned (answered (get_robot name) a ∷ h) (after_conflict r ha a)
  after_conflict-Safe h (ok robot) held =
      adopt-Safe (answered (get_robot name) (ok robot) ∷ h) robot
        (later h (answered (get_robot name) (ok robot)) held) (inl refl)
  after_conflict-Safe h (err e) held = mark_transient_error-Safe _ _

  after_create-Safe :
      (h : History) (a : Result CallError Robot)
      → IsHeld h
      → Safe MayProvision Provisioned
          (answered (create_robot name description perms) a ∷ h)
          (after_create r ha name a)
  unfolding MayProvision Provisioned
  after_create-Safe h (ok robot) held =
      Safe-ret MayProvision Provisioned
        (later h (answered (create_robot name description perms) (ok robot)) held, inl refl)
  after_create-Safe h (err already_exists) held =
      let h1 = answered (create_robot name description perms) (err already_exists) ∷ h in
      let held1 =
        later h (answered (create_robot name description perms) (err already_exists)) held in
      Safe-call MayProvision Provisioned (get_robot name) (after_conflict r ha) (refl, held1)
        (λ v. after_conflict-Safe h1 (ok v) held1) (λ e. after_conflict-Safe h1 (err e) held1)
  after_create-Safe h (err not_found) held = mark_transient_error-Safe _ _
  after_create-Safe h (err conflict) held = mark_transient_error-Safe _ _
  after_create-Safe h (err (failed message)) held = mark_transient_error-Safe _ _

  after_lookup-Safe :
      (h : History) (a : Result CallError Robot)
      → IsHeld h
      → Safe MayProvision Provisioned
          (answered (get_robot name) a ∷ h)
          (after_lookup r ha name description perms a)
  unfolding MayProvision
  after_lookup-Safe h (ok robot) held =
      adopt-Safe (answered (get_robot name) (ok robot) ∷ h) robot
        (later h (answered (get_robot name) (ok robot)) held) (inl refl)
  after_lookup-Safe h (err not_found) held =
      let h1 = answered (get_robot name) (err not_found) ∷ h in
      let held1 = later h (answered (get_robot name) (err not_found)) held in
      Safe-call MayProvision Provisioned (create_robot name description perms)
        (after_create r ha name) (refl, refl, refl, held1) (λ v. after_create-Safe h1 (ok v) held1)
        (λ e. after_create-Safe h1 (err e) held1)
  after_lookup-Safe h (err already_exists) held = mark_transient_error-Safe _ _
  after_lookup-Safe h (err conflict) held = mark_transient_error-Safe _ _
  after_lookup-Safe h (err (failed message)) held = mark_transient_error-Safe _ _

  -- What `ensureFinalizer` leaves.
  abbrev Held : History → Result CallError Unit → Type 0
  Held h (ok u) = IsHeld h
  Held h (err e) = Unit

  ensure_finalizer-Safe : Safe MayProvision Held [] (ensure_finalizer r ha)
  unfolding ensure_finalizer MayProvision
  ensure_finalizer-Safe =
      let held = r.contains_finalizer ha.finalizers (finalizer r.config) in
      let patch = patch_finalizers ha (r.add_finalizer (finalizer r.config) ha.finalizers) in
      Safe-if MayProvision Held [] held _ _ (λ e. Safe-ret MayProvision Held (inl e))
        (λ e.
          Safe-call MayProvision Held patch (λ a. ret a) (refl, refl)
            (λ v. Safe-ret MayProvision Held (inr (inl refl))) (λ x. Safe-ret MayProvision Held tt))

  after_finalizer-Safe :
      (h : History) (a : Result CallError Unit)
      → Held h a
      → Safe MayProvision Provisioned h (after_finalizer r ha name description perms a)
  unfolding ensure_robot MayProvision Provisioned
  after_finalizer-Safe h (ok u) held =
      Safe-call MayProvision Provisioned (get_robot name) (after_lookup r ha name description perms)
        (refl, held) (λ v. after_lookup-Safe h (ok v) held) (λ e. after_lookup-Safe h (err e) held)
  after_finalizer-Safe h (err e) held = Safe-ret MayProvision Provisioned tt

  -- Whatever Harbor and the API server answer, the finalizer is held before the robot is looked up or
  -- created; and a robot that is returned was created, or was found at the name with this cluster's
  -- token and no other HarborAccess in its description.
  pub provision-Safe : Safe MayProvision Provisioned [] (provision r ha name description perms)
  unfolding provision
  provision-Safe =
      Safe-bind MayProvision Held Provisioned [] (ensure_finalizer r ha)
        (after_finalizer r ha name description perms) ensure_finalizer-Safe
        (λ h a held. after_finalizer-Safe h a held)
