-- ===== src/Controlplane/Suspension/Own.antt =====
-- The calls of `refuse` (bridge/controlplane/reconciler.go).
use harbor_workload_identity.Base.{
  Bool, true, false, not, ◌||◌, ◌≡◌, refl, List, [], ◌∷◌, none, Result, ok, err, All, In, inl, inr,
  List-cases, Option-cases, arith,
}
use harbor_workload_identity.Text.{Bytes, is_empty}
use harbor_workload_identity.Naming.{owns_robot}
use harbor_workload_identity.HarborAccess.{HarborAccess, Reason}
use harbor_workload_identity.RobotSecret.{secret_name}
use harbor_workload_identity.Contract.{Robot}
use harbor_workload_identity.Controlplane.Effect.{
  CallError, not_found, already_exists, conflict, failed, Call, get_secret, create_secret,
  update_secret, delete_secret, patch_finalizers, update_status, get_harbor_access, get_robot,
  list_robots, create_robot, update_robot, refresh_secret, delete_robot, Answer, ret, call,
  answered, History, Safe, Safe-ret, Safe-call, Safe-if, Safe-bind,
}
use harbor_workload_identity.Controlplane.Secrets.{
  Reconciler, Failure, robot_name_or_empty, secret_delete_conflict,
}
use harbor_workload_identity.Controlplane.Secrets.Deleted.{Removed, delete_own_robot_secret-Safe}
use harbor_workload_identity.Controlplane.Deletion.{held_finalizers, without, is_misnamed, is_own}
use harbor_workload_identity.Controlplane.Suspension.{
  can_write_back, disabled_copy, suspended_description, giving, suspend_found, suspend_answer,
  suspend_robot, Suspended, suspended_of, suspend_rest, suspend, refused_release, release_barrier,
  release_listed, release_refused, pass_after, after_suspension, refused_status, refuse_rest,
  refuse,
}

module _ (r : Reconciler) (ha : HarborAccess) where
  abbrev own_name : Bytes
  own_name = robot_name_or_empty r ha

  -- Harbor listed no robot that is the HarborAccess' by its name or its description.
  abbrev pub NoneLeft : History → Type 0
  NoneLeft h =
      (robots : List Robot) × In (answered list_robots (ok robots)) h
      × All (λ robot. (is_misnamed r ha robot ≡ false) × (is_own r ha robot ≡ false)) robots

  -- What a refusal may do: read the Secret at the name, and delete what was read there if it does not
  -- belong to someone else; disable its own robot, with the description of a suspended one and the
  -- grants it has; delete that robot only if its grants cannot be written back; write the refusing
  -- status; list the robots; and release the object when none is left.
  unfoldable pub MayRefuse : Reason → History → Call → Type 0
  MayRefuse reason h (get_secret namespace name) =
      (namespace ≡ r.config.namespace) × (name ≡ secret_name r.hash_of ha.namespace ha.name)
  MayRefuse reason h (delete_secret s) =
      (secret_delete_conflict r ha s (robot_name_or_empty r ha) ≡ false)
      × In
          (answered (get_secret r.config.namespace (secret_name r.hash_of ha.namespace ha.name))
            (ok s))
          h
  MayRefuse reason h (get_robot name) = name ≡ robot_name_or_empty r ha
  MayRefuse reason h (update_robot robot description permissions) =
      (found : Robot) × In (answered (get_robot (robot_name_or_empty r ha)) (ok found)) h
      × (is_own r ha found ≡ true)
      × (found.disabled ≡ false)
      × (robot ≡ disabled_copy found)
      × (description ≡ suspended_description r ha)
      × (permissions ≡ found.permissions)
  MayRefuse reason h (delete_robot id) =
      (found : Robot) × In (answered (get_robot (robot_name_or_empty r ha)) (ok found)) h
      × (is_own r ha found ≡ true)
      × (found.id ≡ id)
      × (can_write_back found.permissions ≡ false)
  MayRefuse reason h (update_status status) = status ≡ refused_status r ha reason
  MayRefuse reason h list_robots = Unit
  MayRefuse reason h (patch_finalizers object finalizers) = NoneLeft h
  MayRefuse reason h (create_secret s) = ⊥
  MayRefuse reason h (update_secret s) = ⊥
  MayRefuse reason h (get_harbor_access namespace name) = ⊥
  MayRefuse reason h (create_robot name description permissions) = ⊥
  MayRefuse reason h (refresh_secret id) = ⊥

  abbrev Any : {A : Type 0} → History → A → Type 0
  Any h a = Unit

  module _ (reason : Reason) where
    abbrev May : History → Call → Type 0
    May = MayRefuse reason

    giving-Safe :
        (kept : Bool) (h : History) (c : Call) (k : Answer c → Result CallError Unit)
        → May h c
        → Safe May Any h (call c (λ a. giving kept (k a)))
    giving-Safe kept h c k may =
        Safe-call May Any c _ may (λ v. given (answered c (ok v) ∷ h) (k (ok v)))
          (λ e. given (answered c (err e) ∷ h) (k (err e)))
      where
        given : (h : History) (a : Result CallError Unit) → Safe May Any h (giving kept a)
        given h (ok u) = Safe-ret May Any tt
        given h (err e) = Safe-ret May Any tt

    suspend_found-Safe :
        (h : History) (robot : Robot)
        → In (answered (get_robot own_name) (ok robot)) h
        → Safe May Any h (suspend_found r ha robot)
    unfolding suspend_found MayRefuse
    suspend_found-Safe h robot seen =
        Safe-if May Any h (not (is_own r ha robot)) _ _ (λ e. Safe-ret May Any tt)
          (λ own.
            Safe-if May Any h robot.disabled _ _ (λ e. Safe-ret May Any tt)
              (λ enabled.
                Safe-if May Any h (can_write_back robot.permissions) _ _
                  (λ e.
                    giving-Safe true h
                      (update_robot (disabled_copy robot) (suspended_description r ha)
                        robot.permissions)
                      (λ a. a) (robot, seen, ground arith, enabled, refl, refl, refl))
                  (λ stuck.
                    giving-Safe false h (delete_robot robot.id) (λ a. a)
                      (robot, seen, ground arith, refl, stuck))))

    suspend_answer-Safe :
        (h : History) (a : Result CallError Robot)
        → Safe May Any (answered (get_robot own_name) a ∷ h) (suspend_answer r ha a)
    suspend_answer-Safe h (ok robot) =
        suspend_found-Safe (answered (get_robot own_name) (ok robot) ∷ h) robot (inl refl)
    suspend_answer-Safe h (err not_found) = Safe-ret May Any tt
    suspend_answer-Safe h (err already_exists) = Safe-ret May Any tt
    suspend_answer-Safe h (err conflict) = Safe-ret May Any tt
    suspend_answer-Safe h (err (failed message)) = Safe-ret May Any tt

    suspend_robot-Safe : (h : History) → Safe May Any h (suspend_robot r ha own_name)
    unfolding suspend_robot MayRefuse
    suspend_robot-Safe h =
        Safe-if May Any h (is_empty own_name || not (owns_robot r.config.cluster_name own_name)) _ _
          (λ e. Safe-ret May Any tt)
          (λ e.
            Safe-call May Any (get_robot own_name) (suspend_answer r ha) refl
              (λ v. suspend_answer-Safe h (ok v)) (λ x. suspend_answer-Safe h (err x)))

    suspend_rest-Safe :
        (h : History) (secret : Result Failure Unit) → Safe May Any h (suspend_rest r ha secret)
    unfolding suspend_rest
    suspend_rest-Safe h secret = elim (List-cases (held_finalizers r ha)) [
      | inl e ↦ rw (e, suspend_rest) (Safe-ret May Any tt)
      | inr (f, fs, e) ↦
          rw (e, suspend_rest)
            (Safe-bind May Any Any h (suspend_robot r ha own_name)
              (λ kept. ret (suspended_of secret kept)) (suspend_robot-Safe h)
              (λ h' kept u. Safe-ret May Any tt))
    ]

    suspend-Safe : (h : History) → Safe May Any h (suspend r ha)
    unfolding suspend MayRefuse
    suspend-Safe h =
        Safe-bind May (Removed h) Any h _ (suspend_rest r ha)
          (delete_own_robot_secret-Safe r ha own_name May (λ h. (refl, refl))
            (λ h s free read. (free, read)) h)
          (λ h' res c. suspend_rest-Safe h' res)

    release_barrier-none :
        (robots : List Robot)
        → release_barrier r ha robots ≡ none
        → All (λ robot. (is_misnamed r ha robot ≡ false) × (is_own r ha robot ≡ false)) robots
    unfolding release_barrier
    release_barrier-none [] e = tt
    release_barrier-none (robot ∷ robots) e =
        ((ground arith, ground arith), release_barrier-none robots (ground arith))

    release_listed-Safe :
        (h : History) (released : List Bytes) (a : Result CallError (List Robot))
        → Safe May Any (answered list_robots a ∷ h) (release_listed r ha released a)
    unfolding release_listed MayRefuse
    release_listed-Safe h released (err e) = Safe-ret May Any tt
    release_listed-Safe h released (ok robots) = elim (Option-cases (release_barrier r ha robots)) [
      | inr (result, e) ↦ rw (e, release_listed) (Safe-ret May Any tt)
      | inl e ↦
          rw (e, release_listed)
            (Safe-call May Any (patch_finalizers ha (without r released ha.finalizers)) _
              (robots, inl refl, release_barrier-none robots e) (λ v. Safe-ret May Any tt)
              (λ x. Safe-ret May Any tt))
    ]

    release_refused-Safe : (h : History) → Safe May Any h (release_refused r ha)
    unfolding release_refused MayRefuse
    release_refused-Safe h = elim (List-cases (refused_release r ha (held_finalizers r ha))) [
      | inl e ↦ rw (e, release_refused) (Safe-ret May Any tt)
      | inr (f, fs, e) ↦
          rw (e, release_refused)
            (Safe-call May Any list_robots (release_listed r ha (f ∷ fs)) tt
              (λ v. release_listed-Safe h (f ∷ fs) (ok v))
              (λ x. release_listed-Safe h (f ∷ fs) (err x)))
    ]

    pass_after-Safe :
        (h : History) (res : Result Failure Unit) → Safe May Any h (pass_after r ha res)
    pass_after-Safe h (ok u) = Safe-ret May Any tt
    pass_after-Safe h (err e) = Safe-ret May Any tt

    after_suspension-Safe : (h : History) (s : Suspended) → Safe May Any h (after_suspension r ha s)
    after_suspension-Safe h s = elim (Option-cases s.failure) [
      | inr (x, e) ↦ rw (e, after_suspension) (Safe-ret May Any tt)
      | inl e ↦
          rw (e, after_suspension)
            (Safe-if May Any h s.releasable _ _
              (λ f.
                Safe-bind May Any Any h (release_refused r ha) (pass_after r ha)
                  (release_refused-Safe h) (λ h' res u. pass_after-Safe h' res))
              (λ f. Safe-ret May Any tt))
    ]

    refuse_rest-Safe : (h : History) (s : Suspended) → Safe May Any h (refuse_rest r ha reason s)
    unfolding refuse_rest MayRefuse
    refuse_rest-Safe h s =
        Safe-call May Any (update_status (refused_status r ha reason)) _ refl
          (λ v. after_suspension-Safe _ s) (λ e. Safe-ret May Any tt)

    -- Whatever Harbor and the API server answer, a refusal makes only the calls that `MayRefuse`
    -- permits.
    pub refuse-Safe : Safe (MayRefuse reason) Any [] (refuse r ha reason)
    unfolding refuse
    refuse-Safe =
        Safe-bind May Any Any [] (suspend r ha) (refuse_rest r ha reason) (suspend-Safe [])
          (λ h s u. refuse_rest-Safe h s)
