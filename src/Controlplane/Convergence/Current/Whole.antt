-- ===== src/Controlplane/Convergence/Current/Whole.antt =====
-- A pass over an accepted HarborAccess, call by call (`reconcileNormal` of
-- bridge/controlplane/reconciler.go, from its step 5 on).
use harbor_workload_identity.Base.{
  ℕ, true, false, ◌&&◌, ◌≡◌, inl, inr, refl, [], ◌∷◌, ◌++◌, Option, none, some, Result, ok, err, In,
  and_true, is_some, arith,
}
use harbor_workload_identity.Text.{Bytes}
use harbor_workload_identity.RobotSecret.{Secret}
use harbor_workload_identity.HarborAccess.{HarborAccess, harbor_error, robot_conflict}
use harbor_workload_identity.Contract.{Robot, robot_suspended}
use harbor_workload_identity.Controlplane.Effect.{
  CallError, not_found, already_exists, conflict, failed, Call, get_secret, create_secret,
  update_secret, delete_secret, patch_finalizers, update_status, get_harbor_access, get_robot,
  list_robots, create_robot, update_robot, refresh_secret, delete_robot, call, answered, History,
  Extends, Safe, Safe-ret, Safe-call, Safe-if, Safe-bind, Safe-frame, In-frame,
}
use harbor_workload_identity.Controlplane.Secrets.{
  Reconciler, Failure, call_failed, secret_conflict, found_secret, ignore_not_found,
}
use harbor_workload_identity.Controlplane.Rotation.{rotation_reason, resync_after}
use harbor_workload_identity.Controlplane.Deletion.{requeue}
use harbor_workload_identity.Controlplane.Provision.{Ensured, ensured, stopped, provision}
use harbor_workload_identity.Controlplane.Provision.Adopted.{
  MayProvision, Provisioned, provision-Safe,
}
use harbor_workload_identity.Controlplane.Convergence.{
  desired_description, desired_perms, rotate, after_update, has_drifted, converge,
  after_new_password, after_secret_gone, resume, after_provision, after_read, accept,
}
use harbor_workload_identity.Controlplane.Outcomes.{
  not_ready_until_resync, resumed_robot, enabled_copy,
}
use harbor_workload_identity.Controlplane.Convergence.Current.{
  Any, read_call, description, perms, Found, Made, SecretGone, MayPass,
}
use harbor_workload_identity.Controlplane.Convergence.Current.Written.{ReadAs}
use harbor_workload_identity.Controlplane.Convergence.Current.Stored.{
  not_ready-Safe, transient-Safe, store-Safe, ReadIn-later,
}

module _ (r : Reconciler) (retries now : ℕ) (ha : HarborAccess) (name : Bytes) where
  abbrev May : History → Call → Type 0
  May = MayPass r retries now ha name

  abbrev FoundIn : History → Robot → Type 0
  FoundIn = Found r retries now ha name

  rotate-Safe :
      (h : History) (secret : Option Secret) (robot : Robot)
      → FoundIn h robot
      → ReadAs r retries now ha name h secret
      → Safe May Any h (rotate r retries now ha name secret robot)
  unfolding rotate MayPass
  rotate-Safe h secret robot found read =
      Safe-if May Any h (is_some (rotation_reason r.clock ha secret robot now)) _ _
        (λ due.
          Safe-call May Any (refresh_secret robot.id) _ (robot, found, refl)
            (λ password.
              let h1 = answered (refresh_secret robot.id) (ok password) ∷ h in
              store-Safe r retries now ha name h1 secret robot false password (some now)
                (inl (inr found))
                (
                  ReadIn-later r retries now ha name h h1 secret (λ x i. inr i) read,
                  inl (inl (inl refl)),
                ))
            (λ e. transient-Safe r retries now ha name _ (call_failed e)))
        (λ quiet.
          store-Safe r retries now ha name h secret robot false [] none (inl found)
            (read, inr (refl, none_of (rotation_reason r.clock ha secret robot now) quiet)))
    where
      none_of : {A : Type 0} (o : Option A) → is_some o ≡ false → o ≡ none
      none_of none e = refl
      none_of (some a) e = absurd (ground arith)

  converge-Safe :
      (h : History) (secret : Option Secret) (robot : Robot)
      → FoundIn h robot
      → ReadAs r retries now ha name h secret
      → Safe May Any h (converge r retries now ha name secret robot)
  unfolding converge MayPass
  converge-Safe h secret robot found read =
      let wanted = desired_description r retries now ha name in
      let grants = desired_perms r retries now ha name in
      Safe-if May Any h (has_drifted r retries now ha name robot) _ _
        (λ drifted.
          Safe-call May Any (update_robot robot wanted grants)
            (after_update r retries now ha name secret robot) (refl, refl, robot, found, inl refl)
            (λ v.
              let h1 = answered (update_robot robot wanted grants) (ok v) ∷ h in
              rotate-Safe h1 secret robot (inr found)
                (ReadIn-later r retries now ha name h h1 secret (λ x i. inr i) read))
            (λ e. transient-Safe r retries now ha name _ (call_failed e)))
        (λ same. rotate-Safe h secret robot found read)

  refreshed-Safe :
      (h : History) (robot : Robot)
      → FoundIn h robot
      → SecretGone r retries now ha name h
      → Safe May Any h
          (call (refresh_secret robot.id) (after_new_password r retries now ha name robot))
  unfolding MayPass
  refreshed-Safe h robot found gone =
      let wanted = desired_description r retries now ha name in
      let grants = desired_perms r retries now ha name in
      Safe-call May Any (refresh_secret robot.id) _ (robot, found, refl)
        (λ password.
          let h1 = answered (refresh_secret robot.id) (ok password) ∷ h in
          Safe-call May Any (update_robot (enabled_copy robot) wanted grants) _
            (
              refl,
              refl,
              robot,
              inr found,
              inr (refl, gone_later h h1 (λ x i. inr i) gone, password, inl refl),
            )
            (λ v.
              let h2 = answered (update_robot (enabled_copy robot) wanted grants) (ok v) ∷ h1 in
              store-Safe r retries now ha name h2 none (resumed_robot robot wanted) false password
                (some now) (inr (inr (robot, inr (inr found), inl refl, refl)))
                (tt, inl (inl (inr (inl refl)))))
            (λ e. transient-Safe r retries now ha name _ (call_failed e)))
        (λ e. transient-Safe r retries now ha name _ (call_failed e))
    where
      gone_later :
          (h h' : History)
          → Extends h h'
          → SecretGone r retries now ha name h
          → SecretGone r retries now ha name h'
      gone_later h h' e (inl i) = inl (e _ i)
      gone_later h h' e (inr (s, inl i)) = inr (s, inl (e _ i))
      gone_later h h' e (inr (s, inr i)) = inr (s, inr (e _ i))

  secret_gone-Safe :
      (h : History) (robot : Robot) (s : Secret) (a : Result CallError Unit)
      → FoundIn h robot
      → Safe May Any
          (answered (delete_secret s) a ∷ h)
          (after_secret_gone r retries now ha name robot (ignore_not_found tt a))
  unfolding ignore_not_found
  secret_gone-Safe h robot s (ok u) found =
      refreshed-Safe (answered (delete_secret s) (ok tt) ∷ h) robot (inr found)
        (inr (s, inl (inl refl)))
  secret_gone-Safe h robot s (err not_found) found =
      refreshed-Safe (answered (delete_secret s) (err not_found) ∷ h) robot (inr found)
        (inr (s, inr (inl refl)))
  secret_gone-Safe h robot s (err already_exists) found = transient-Safe r retries now ha name _ _
  secret_gone-Safe h robot s (err conflict) found = transient-Safe r retries now ha name _ _
  secret_gone-Safe h robot s (err (failed message)) found = transient-Safe r retries now ha name _ _

  -- What is known of the Secret that the pass read.
  abbrev Read : History → Option Secret → Type 0
  Read h none = In (answered (read_call r retries now ha name) (err not_found)) h
  Read h (some s) = In (answered (read_call r retries now ha name) (ok s)) h

  resume-Safe :
      (h : History) (secret : Option Secret) (robot : Robot)
      → FoundIn h robot
      → Read h secret
      → robot.disabled ≡ true
      → robot_suspended robot.description ≡ true
      → Safe May Any h (resume r retries now ha name secret robot)
  unfolding resume MayPass
  resume-Safe h none robot found read d s = refreshed-Safe h robot found (inl read)
  resume-Safe h (some secret) robot found read d s =
      Safe-call May Any (delete_secret secret) _ (read, robot, found, d, s)
        (λ v. secret_gone-Safe h robot secret (ok v) found)
        (λ e. secret_gone-Safe h robot secret (err e) found)

  read_as :
      (h : History) (secret : Option Secret) → Read h secret → ReadAs r retries now ha name h secret
  read_as h none i = tt
  read_as h (some s) i = i

  -- A robot that was provisioned is one that Harbor returned or created.
  abbrev Ready : History → Ensured → Type 0
  Ready h (ensured robot true) = Made r retries now ha name h robot
  Ready h (ensured robot false) = FoundIn h robot
  Ready h (stopped pass) = Unit

  after_provision-Safe :
      (h : History) (secret : Option Secret) (e : Ensured)
      → Read h secret
      → Ready h e
      → Safe May Any h (after_provision r retries now ha name secret e)
  after_provision-Safe h secret (stopped pass) read w = Safe-ret May Any tt
  after_provision-Safe h secret (ensured robot true) read made =
      store-Safe r retries now ha name h secret robot true robot.secret (some now) (inr (inl made))
        (read_as h secret read, inl (inr (robot, made, refl, refl)))
  after_provision-Safe h secret (ensured robot false) read found =
      Safe-if May Any h (robot.disabled && robot_suspended robot.description) _ _
        (λ e.
          let (d, s) = and_true robot.disabled (robot_suspended robot.description) e in
          resume-Safe h secret robot found read d s)
        (λ e. converge-Safe h secret robot found (read_as h secret read))

  abbrev wanted : Bytes
  wanted = description r retries now ha name

  provision_frame :
      (g h : History) (c : Call)
      → MayProvision r ha name wanted (perms r retries now ha name) h c
      → May (h ++ g) c
  unfolding MayProvision MayPass
  provision_frame g h (patch_finalizers object finalizers) m = m.0
  provision_frame g h (get_robot n) m = m.0
  provision_frame g h (create_robot n d p) m = (m.0, m.1, m.2)
  provision_frame g h (update_status status) (inl e) = inl (harbor_error, e)
  provision_frame g h (update_status status) (inr e) = inl (robot_conflict, e)
  provision_frame g h (get_secret ns n) m = absurd m
  provision_frame g h (create_secret s) m = absurd m
  provision_frame g h (update_secret s) m = absurd m
  provision_frame g h (delete_secret s) m = absurd m
  provision_frame g h (get_harbor_access ns n) m = absurd m
  provision_frame g h list_robots m = absurd m
  provision_frame g h (update_robot robot d p) m = absurd m
  provision_frame g h (refresh_secret id) m = absurd m
  provision_frame g h (delete_robot id) m = absurd m

  -- The robot, and the history before the provisioning.
  abbrev Behind : History → History → Ensured → Type 0
  Behind g h e = Ready h e × Extends g h

  Extends-frame : (h g : History) → Extends g (h ++ g)
  Extends-frame [] g e i = i
  Extends-frame (x ∷ h) g e i = inr (Extends-frame h g e i)

  Provisioned-frame :
      (g h : History) (e : Ensured)
      → Provisioned r ha name wanted (perms r retries now ha name) h e
      → Behind g (h ++ g) e
  unfolding Provisioned
  Provisioned-frame g h (ensured robot true) p = (In-frame _ h g p.1, Extends-frame h g)
  Provisioned-frame g h (ensured robot false) p = (In-frame _ h g p.1, Extends-frame h g)
  Provisioned-frame g h (stopped pass) p = (tt, Extends-frame h g)

  Read-later :
      (h h' : History) (secret : Option Secret) → Extends h h' → Read h secret → Read h' secret
  Read-later h h' none e i = e _ i
  Read-later h h' (some s) e i = e _ i

  after_read-Safe :
      (h : History) (found : Result Failure (Option Secret))
      → ((secret : Option Secret) → found ≡ ok secret → Read h secret)
      → Safe May Any h (after_read r retries now ha name found)
  unfolding not_ready_until_resync
  after_read-Safe h (err e) read = transient-Safe r retries now ha name h e
  after_read-Safe h (ok secret) read =
      let grants = perms r retries now ha name in
      Safe-if May Any h (secret_conflict r ha secret name) _ _
        (λ taken.
          not_ready-Safe r retries now ha name h robot_conflict (requeue (resync_after r.fnv32 ha)))
        (λ free.
          Safe-bind May (Behind h) Any h (provision r ha name wanted grants) _
            (Safe-frame (MayProvision r ha name wanted grants) May
              (Provisioned r ha name wanted grants) (Behind h) h [] _ (provision_frame h)
              (Provisioned-frame h) (provision-Safe r ha name wanted grants))
            (λ h' e b.
              after_provision-Safe h' secret e (Read-later h h' secret b.1 (read secret refl)) b.0))

  found_secret-Read :
      (h : History) (a : Result CallError Secret) (secret : Option Secret)
      → found_secret a ≡ ok secret
      → Read (answered (read_call r retries now ha name) a ∷ h) secret
  unfolding found_secret
  found_secret-Read h (ok v) none e = absurd (ground arith)
  found_secret-Read h (ok v) (some s) e = let same : v ≡ s = ground arith in inl (rw same refl)
  found_secret-Read h (err not_found) none e = inl refl
  found_secret-Read h (err not_found) (some s) e = absurd (ground arith)
  found_secret-Read h (err already_exists) secret e = absurd (ground arith)
  found_secret-Read h (err conflict) secret e = absurd (ground arith)
  found_secret-Read h (err (failed message)) secret e = absurd (ground arith)

  -- Whatever Harbor and the API server answer, a pass over an accepted HarborAccess looks up, creates
  -- and rotates only the robot at its name; enables it only once its Secret is gone and its password
  -- was rotated, and otherwise updates it as it is to what the object wants; deletes a Secret only to
  -- resume a suspended robot, and only robots that are its own beside the one it keeps; stores only
  -- passwords that Harbor gave in the pass, or leaves the data that were read; and writes Ready only
  -- for the robot that Harbor returned or created, or that it confirmed as enabled, if that robot is
  -- not disabled, once the Secret is written or needs no writing.
  pub accept-Safe : Safe May Any [] (accept r retries now ha name)
  unfolding accept MayPass
  accept-Safe =
      Safe-call May Any (read_call r retries now ha name) _ (refl, refl)
        (λ v. after_read-Safe _ (found_secret (ok v)) (found_secret-Read [] (ok v)))
        (λ e. after_read-Safe _ (found_secret (err e)) (found_secret-Read [] (err e)))
