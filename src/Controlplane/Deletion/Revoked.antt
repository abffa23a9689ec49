-- ===== src/Controlplane/Deletion/Revoked.antt =====
-- The calls of `reconcileDelete` (bridge/controlplane/reconciler.go).
use harbor_workload_identity.Base.{
  true, false, not, ◌||◌, ◌≡◌, ◌⊎◌, refl, List, [], ◌∷◌, Option, none, some, Result, ok, err, All,
  In, inl, inr, List-cases, arith,
}
use harbor_workload_identity.Base.Int.{ℤ}
use harbor_workload_identity.Text.{Bytes}
use harbor_workload_identity.HarborAccess.{HarborAccess}
use harbor_workload_identity.RobotSecret.{secret_name}
use harbor_workload_identity.Contract.{Robot}
use harbor_workload_identity.Controlplane.Effect.{
  Call, get_secret, create_secret, update_secret, delete_secret, patch_finalizers, update_status,
  get_harbor_access, get_robot, list_robots, create_robot, update_robot, refresh_secret,
  delete_robot, Answer, answered, History, Extends, Safe, Safe-ret, Safe-call, Safe-if, Safe-bind,
  Safe-weaken,
}
use harbor_workload_identity.Controlplane.Secrets.{
  Reconciler, Failure, call_failed, robot_name_or_empty, secret_delete_conflict,
  delete_own_robot_secret,
}
use harbor_workload_identity.Controlplane.Secrets.Deleted.{Removed, delete_own_robot_secret-Safe}
use harbor_workload_identity.Controlplane.Deletion.{
  Pass, done, requeue, retry, held_finalizers, is_misnamed, is_own, is_kept, delete_own_robots,
  block_deletion, release, revoke, reconcile_delete, without, pass_of, after_secret, after_robots,
}

module _ (r : Reconciler) (ha : HarborAccess) where
  -- Harbor listed these robots.
  abbrev pub Listed : History → List Robot → Type 0
  Listed h robots = In (answered list_robots (ok robots)) h

  -- Harbor confirmed the robot's deletion.
  abbrev pub IsDeleted : History → Robot → Type 0
  IsDeleted h robot = In (answered (delete_robot robot.id) (ok tt)) h

  -- A listed robot stands in the way of the release no more: it is none of this HarborAccess', or it
  -- is deleted; and it is not one that only a corrected prefix could tell.
  abbrev pub IsCleared : History → Robot → Type 0
  IsCleared h robot =
      (is_misnamed r ha robot ≡ false) × ((is_own r ha robot ≡ false) ⊎ IsDeleted h robot)

  abbrev pub AllCleared : History → Type 0
  AllCleared h = (robots : List Robot) × Listed h robots × All (IsCleared h) robots

  -- A robot's deletion: Harbor listed it, and it is this HarborAccess'.
  abbrev pub MayDelete : History → ℤ → Type 0
  MayDelete h id =
      (robots : List Robot) × (robot : Robot) × Listed h robots
      × In robot robots
      × (robot.id ≡ id)
      × (is_own r ha robot ≡ true)

  -- What a deletion may do: list the robots and delete its own; read the Secret at its name, and
  -- delete what was read there if it does not belong to someone else; write its status; and release
  -- the object once all listed robots are cleared.
  unfoldable pub Allowed : History → Call → Type 0
  Allowed h list_robots = Unit
  Allowed h (delete_robot id) = MayDelete h id
  Allowed h (get_secret namespace name) =
      (namespace ≡ r.config.namespace) × (name ≡ secret_name r.hash_of ha.namespace ha.name)
  Allowed h (delete_secret s) =
      (secret_delete_conflict r ha s (robot_name_or_empty r ha) ≡ false)
      × In
          (answered (get_secret r.config.namespace (secret_name r.hash_of ha.namespace ha.name))
            (ok s))
          h
  Allowed h (update_status status) = Unit
  Allowed h (patch_finalizers object finalizers) = AllCleared h
  Allowed h (create_secret s) = ⊥
  Allowed h (update_secret s) = ⊥
  Allowed h (get_harbor_access namespace name) = ⊥
  Allowed h (get_robot name) = ⊥
  Allowed h (create_robot name description permissions) = ⊥
  Allowed h (update_robot robot description permissions) = ⊥
  Allowed h (refresh_secret id) = ⊥

  -- The history so far stays, and after a success the robots are cleared.
  abbrev Cleared : Option ℤ → List Robot → History → History → Result Failure Unit → Type 0
  Cleared keep robots h h' result =
      Extends h h' × (result ≡ ok tt → keep ≡ none → All (IsCleared h') robots)

  not_own :
      (keep : Option ℤ) (robot : Robot)
      → keep ≡ none
      → (is_kept keep robot.id || not (is_own r ha robot)) ≡ true
      → is_own r ha robot ≡ false
  unfolding is_kept
  not_own none robot e f = ground arith
  not_own (some k) robot e f = absurd (ground arith)

  delete_own_robots-Safe :
      (keep : Option ℤ) (all : List Robot) (robots : List Robot) (h : History)
      → Listed h all
      → ((robot : Robot) → In robot robots → In robot all)
      → Safe Allowed (Cleared keep robots h) h (delete_own_robots r ha keep robots)
  unfolding delete_own_robots Allowed
  delete_own_robots-Safe keep all [] h l inside =
      Safe-ret Allowed (Cleared keep [] h) ((λ e i. i), (λ f g. tt))
  delete_own_robots-Safe keep all (robot ∷ robots) h l inside =
      let wanted = Cleared keep (robot ∷ robots) h in
      Safe-if Allowed wanted h (is_misnamed r ha robot) _ _
        (λ e. Safe-ret Allowed wanted ((λ x i. i), (λ f g. absurd (ground arith))))
        (λ named.
          Safe-if Allowed wanted h (is_kept keep robot.id || not (is_own r ha robot)) _ _
            (λ skip.
              Safe-weaken Allowed (Cleared keep robots h) wanted h _
                (delete_own_robots-Safe keep all robots h l (λ x i. inside x (inr i)))
                (λ h' res c. (c.0, λ f g. ((named, inl (not_own keep robot g skip)), c.1 f g))))
            (λ own.
              Safe-call Allowed wanted (delete_robot robot.id) _
                (all, robot, l, inside robot (inl refl), refl, ground arith)
                (λ v.
                  let h1 = answered (delete_robot robot.id) (ok v) ∷ h in
                  Safe-weaken Allowed (Cleared keep robots h1) wanted h1 _
                    (delete_own_robots-Safe keep all robots h1 (inr l) (λ x i. inside x (inr i)))
                    (λ h' res c.
                      ((λ x i. c.0 x (inr i)), λ f g. ((named, inr (c.0 _ (inl refl))), c.1 f g))))
                (λ e. Safe-ret Allowed wanted ((λ x i. inr i), (λ f g. absurd (ground arith))))))

  -- The pass ends well only if nothing was held, or once every listed robot is cleared.
  unfoldable pub Finished : History → Pass → Type 0
  Finished h done = (held_finalizers r ha ≡ []) ⊎ AllCleared h
  Finished h (requeue t) = ⊥
  Finished h (retry f) = Unit

  All-IsCleared :
      (h h' : History)
      → Extends h h'
      → (robots : List Robot) → All (IsCleared h) robots
      → All (IsCleared h') robots
  All-IsCleared h h' e [] c = tt
  All-IsCleared h h' e (robot ∷ robots) c = (
    ((c.0).0, elim (c.0).1 [ inl o ↦ inl o | inr d ↦ inr (e _ d) ]),
    All-IsCleared h h' e robots c.1,
  )

  own_secret-Safe :
      (h : History)
      → Safe Allowed (Removed h) h (delete_own_robot_secret r ha (robot_name_or_empty r ha))
  unfolding Allowed
  own_secret-Safe h =
      delete_own_robot_secret-Safe r ha (robot_name_or_empty r ha) Allowed (λ h. (refl, refl))
        (λ h s free read. (free, read)) h

  block_deletion-Safe :
      (h : History) (cause : Failure) → Safe Allowed Finished h (block_deletion r ha cause)
  unfolding block_deletion Allowed Finished
  block_deletion-Safe h cause =
      Safe-call Allowed Finished (update_status _) _ tt (λ v. Safe-ret Allowed Finished tt)
        (λ e. Safe-ret Allowed Finished tt)

  pass_of-Safe :
      (h : History) (res : Result Failure Unit)
      → AllCleared h
      → Safe Allowed Finished h (pass_of res)
  unfolding Finished
  pass_of-Safe h (ok u) c = Safe-ret Allowed Finished (inr c)
  pass_of-Safe h (err e) c = Safe-ret Allowed Finished tt

  still_cleared : (h h' : History) → Extends h h' → AllCleared h → AllCleared h'
  still_cleared h h' e (robots, l, c) = (robots, e _ l, All-IsCleared h h' e robots c)

  release-Safe :
      (h : History) (held : List Bytes) → AllCleared h → Safe Allowed Finished h (release r ha held)
  unfolding release Allowed
  release-Safe h held c =
      let patch = patch_finalizers ha (without r held ha.finalizers) in
      let still : (a : Answer patch) → AllCleared (answered patch a ∷ h) =
        λ a. still_cleared h (answered patch a ∷ h) (λ x i. inr i) c in
      Safe-call Allowed Finished patch _ c
        (λ v. pass_of-Safe (answered patch (ok v) ∷ h) _ (still (ok v)))
        (λ e. pass_of-Safe (answered patch (err e) ∷ h) _ (still (err e)))

  after_secret-Safe :
      (h : History) (held : List Bytes) (res : Result Failure Unit)
      → AllCleared h
      → Safe Allowed Finished h (after_secret r ha held res)
  after_secret-Safe h held (ok u) c = release-Safe h held c
  after_secret-Safe h held (err e) c = block_deletion-Safe h e

  after_robots-Safe :
      (all : List Robot) (h h' : History) (held : List Bytes) (res : Result Failure Unit)
      → Listed h all
      → Cleared none all h h' res
      → Safe Allowed Finished h' (after_robots r ha held res)
  after_robots-Safe all h h' held (ok u) l c =
      let cleared : AllCleared h' = (all, c.0 _ l, c.1 refl refl) in
      Safe-bind Allowed (Removed h') Finished h' _ (after_secret r ha held) (own_secret-Safe h')
        (λ g res e. after_secret-Safe g held res (still_cleared h' g e cleared))
  after_robots-Safe all h h' held (err e) l c = block_deletion-Safe h' e

  revoke-Safe : (h : History) (held : List Bytes) → Safe Allowed Finished h (revoke r ha held)
  unfolding revoke Allowed
  revoke-Safe h held =
      Safe-call Allowed Finished list_robots _ tt
        (λ robots.
          let h1 = answered list_robots (ok robots) ∷ h in
          Safe-bind Allowed (Cleared none robots h1) Finished h1 _ (after_robots r ha held)
            (delete_own_robots-Safe none robots robots h1 (inl refl) (λ x i. i))
            (λ h' res c. after_robots-Safe robots h1 h' held res (inl refl) c))
        (λ e. block_deletion-Safe _ (call_failed e))

  -- Whatever Harbor and the API server answer, the end of a HarborAccess makes only calls that
  -- `Allowed` permits, the release of the object after all its robots among them; and it ends well
  -- only where nothing was held or every robot that Harbor listed is cleared.
  pub reconcile_delete-Safe : Safe Allowed Finished [] (reconcile_delete r ha)
  unfolding reconcile_delete Finished
  reconcile_delete-Safe = elim (List-cases (held_finalizers r ha)) [
    | inl e ↦ rw (e, reconcile_delete) (Safe-ret Allowed Finished (inl e))
    | inr (f, fs, e) ↦ rw (e, reconcile_delete) (revoke-Safe [] (f ∷ fs))
  ]
