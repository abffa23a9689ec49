-- ===== src/Controlplane/Convergence/Current/Stored.antt =====
-- The end of a pass over an accepted HarborAccess, from the writing of the Secret on
-- (`reconcileNormal` of bridge/controlplane/reconciler.go, steps 8 to 10).
use harbor_workload_identity.Base.{
  ℕ, Bool, not, ◌||◌, inl, inr, refl, sym, ap, List, [], ◌∷◌, Option, none, some, Result, ok, err,
  In, arith,
}
use harbor_workload_identity.Base.Int.{ℤ}
use harbor_workload_identity.Text.{Bytes}
use harbor_workload_identity.RobotSecret.{Secret}
use harbor_workload_identity.HarborAccess.{HarborAccess, Reason, harbor_error, robot_disabled}
use harbor_workload_identity.Contract.{Robot}
use harbor_workload_identity.Controlplane.Effect.{
  CallError, Call, update_status, list_robots, delete_robot, call, answered, History, Extends, Safe,
  Safe-ret, Safe-call, Safe-if, Safe-bind, Safe-weaken,
}
use harbor_workload_identity.Controlplane.Secrets.{Reconciler, Failure}
use harbor_workload_identity.Controlplane.Rotation.{next_rotation, requeue_after, resync_after}
use harbor_workload_identity.Controlplane.Deletion.{
  Pass, requeue, retry, not_ready, is_misnamed, is_own, is_kept, delete_own_robots,
  delete_stale_robots,
}
use harbor_workload_identity.Controlplane.Convergence.{
  report, after_stale, clean_up, after_write, store,
}
use harbor_workload_identity.Controlplane.Outcomes.{
  status_or, transient, not_ready_until_resync, ready_status, mark_ready,
}
use harbor_workload_identity.Controlplane.Convergence.Current.{
  Any, Found, Known, Held, IsWritten, MayPass,
}
use harbor_workload_identity.Controlplane.Convergence.Current.Written.{
  ReadAs, Storable, Wrote, write_robot_secret-Wrote,
}

module _ (r : Reconciler) (retries now : ℕ) (ha : HarborAccess) (name : Bytes) where
  abbrev pub May : History → Call → Type 0
  May = MayPass r retries now ha name

  abbrev KnownId : History → ℤ → Type 0
  KnownId = Known r retries now ha name

  abbrev HeldIn : History → Robot → Type 0
  HeldIn = Held r retries now ha name

  held_id : (h : History) (robot : Robot) → HeldIn h robot → KnownId h robot.id
  held_id h robot (inl found) = (robot, inl found, refl)
  held_id h robot (inr (inl made)) = (robot, inr made, refl)
  held_id h robot (inr (inr (was, found, enabled, same))) =
      (was, inl found, ap (λ (x : Robot). x.id) (sym same))

  HeldIn-later : (h h' : History) (robot : Robot) → Extends h h' → HeldIn h robot → HeldIn h' robot
  HeldIn-later h h' robot e (inl found) = inl (e _ found)
  HeldIn-later h h' robot e (inr (inl made)) = inr (inl (e _ made))
  HeldIn-later h h' robot e (inr (inr (was, found, enabled, same))) =
      inr (inr (was, e _ found, e _ enabled, same))

  abbrev WrittenFor : History → ℤ → Type 0
  WrittenFor = IsWritten r retries now ha name

  status_or-Safe :
      (h : History) (pass : Pass) (a : Result CallError Unit) → Safe May Any h (status_or pass a)
  status_or-Safe h pass (ok u) = Safe-ret May Any tt
  status_or-Safe h pass (err e) = Safe-ret May Any tt

  pub not_ready-Safe :
      (h : History) (reason : Reason) (pass : Pass)
      → Safe May Any h (call (update_status (not_ready r ha reason)) (status_or pass))
  unfolding MayPass
  not_ready-Safe h reason pass =
      Safe-call May Any (update_status (not_ready r ha reason)) _ (inl (reason, refl))
        (λ v. status_or-Safe _ pass (ok v)) (λ e. status_or-Safe _ pass (err e))

  pub transient-Safe : (h : History) (cause : Failure) → Safe May Any h (transient r ha cause)
  unfolding transient
  transient-Safe h cause = not_ready-Safe h harbor_error (retry cause)

  report-Safe :
      (h : History) (robot : Robot) (rotated_at : Option ℕ) (not_before : ℕ)
      → HeldIn h robot
      → WrittenFor h robot.id
      → Safe May Any h (report r retries now ha name robot rotated_at not_before)
  unfolding report not_ready_until_resync mark_ready MayPass
  report-Safe h robot rotated_at not_before k w =
      Safe-if May Any h robot.disabled _ _
        (λ e. not_ready-Safe h robot_disabled (requeue (resync_after r.fnv32 ha)))
        (λ e.
          let next = requeue (requeue_after r.fnv32 ha not_before now) in
          Safe-call May Any (update_status (ready_status r ha robot rotated_at)) _
            (inr (robot, rotated_at, refl, k, e, w)) (λ v. status_or-Safe _ next (ok v))
            (λ x. status_or-Safe _ next (err x)))

  WrittenFor-later : (h h' : History) (id : ℤ) → Extends h h' → WrittenFor h id → WrittenFor h' id
  WrittenFor-later h h' id e (s, inl i) = (s, inl (e _ i))
  WrittenFor-later h h' id e (s, inr (inl i)) = (s, inr (inl (e _ i)))
  WrittenFor-later h h' id e (s, inr (inr (i, inl quiet))) = (s, inr (inr (e _ i, inl quiet)))
  WrittenFor-later h h' id e (s, inr (inr (i, inr (inl g)))) =
      (s, inr (inr (e _ i, inr (inl (e _ g)))))
  WrittenFor-later h h' id e (s, inr (inr (i, inr (inr (robot, made, same, given))))) =
      (s, inr (inr (e _ i, inr (inr (robot, e _ made, same, given)))))

  KnownId-later : (h h' : History) (id : ℤ) → Extends h h' → KnownId h id → KnownId h' id
  KnownId-later h h' id e (robot, inl found, same) = (robot, inl (e _ found), same)
  KnownId-later h h' id e (robot, inr made, same) = (robot, inr (e _ made), same)

  -- The other robots of the object go, and the history so far stays.
  abbrev Kept : History → History → Result Failure Unit → Type 0
  Kept h h' res = Extends h h'

  delete_own_robots-Kept :
      (keep : ℤ) (all robots : List Robot) (h : History)
      → In (answered list_robots (ok all)) h
      → ((robot : Robot) → In robot robots → In robot all)
      → KnownId h keep
      → Safe May (Kept h) h (delete_own_robots r ha (some keep) robots)
  unfolding delete_own_robots MayPass
  delete_own_robots-Kept keep all [] h l inside k = Safe-ret May (Kept h) (λ e i. i)
  delete_own_robots-Kept keep all (robot ∷ robots) h l inside k =
      Safe-if May (Kept h) h (is_misnamed r ha robot) _ _ (λ e. Safe-ret May (Kept h) (λ x i. i))
        (λ named.
          Safe-if May (Kept h) h (is_kept (some keep) robot.id || not (is_own r ha robot)) _ _
            (λ skip. delete_own_robots-Kept keep all robots h l (λ x i. inside x (inr i)) k)
            (λ own.
              Safe-call May (Kept h) (delete_robot robot.id) _
                (all, robot, keep, l, inside robot (inl refl), refl, ground arith, k, ground arith)
                (λ v.
                  let h1 = answered (delete_robot robot.id) (ok v) ∷ h in
                  Safe-weaken May (Kept h1) (Kept h) h1 _
                    (delete_own_robots-Kept keep all robots h1 (inr l) (λ x i. inside x (inr i))
                      (KnownId-later h h1 keep (λ x i. inr i) k))
                    (λ h' res e x i. e x (inr i)))
                (λ e. Safe-ret May (Kept h) (λ x i. inr i))))

  delete_stale_robots-Kept :
      (h : History) (keep : ℤ)
      → KnownId h keep
      → Safe May (Kept h) h (delete_stale_robots r ha keep)
  unfolding delete_stale_robots MayPass
  delete_stale_robots-Kept h keep k =
      Safe-call May (Kept h) list_robots _ tt
        (λ robots.
          let h1 = answered list_robots (ok robots) ∷ h in
          Safe-weaken May (Kept h1) (Kept h) h1 _
            (delete_own_robots-Kept keep robots robots h1 (inl refl) (λ x i. i)
              (KnownId-later h h1 keep (λ x i. inr i) k))
            (λ h' res e x i. e x (inr i)))
        (λ e. Safe-ret May (Kept h) (λ x i. inr i))

  clean_up-Safe :
      (h : History) (robot : Robot) (created : Bool) (rotated_at : Option ℕ) (not_before : ℕ)
      → HeldIn h robot
      → WrittenFor h robot.id
      → Safe May Any h (clean_up r retries now ha name robot created rotated_at not_before)
  unfolding clean_up
  clean_up-Safe h robot created rotated_at not_before k w =
      Safe-if May Any h _ _ _
        (λ e.
          Safe-bind May (Kept h) Any h (delete_stale_robots r ha robot.id) _
            (delete_stale_robots-Kept h robot.id (held_id h robot k)) after)
        (λ e. report-Safe h robot rotated_at not_before k w)
    where
      after :
          (h' : History) (res : Result Failure Unit)
          → Extends h h'
          → Safe May Any h' (after_stale r retries now ha name robot rotated_at not_before res)
      after h' (ok u) e =
          report-Safe h' robot rotated_at not_before (HeldIn-later h h' robot e k)
            (WrittenFor-later h h' robot.id e w)
      after h' (err x) e = transient-Safe h' x

  pub store-Safe :
      (h : History) (secret : Option Secret) (robot : Robot) (created : Bool) (password : Bytes)
      (rotated_at : Option ℕ)
      → HeldIn h robot
      → Storable r retries now ha name h secret robot password
      → Safe May Any h (store r retries now ha name secret robot created password rotated_at)
  unfolding store
  store-Safe h secret robot created password rotated_at k st =
      let not_before = next_rotation r.clock ha secret now rotated_at in
      Safe-bind May (Wrote r retries now ha name robot.id h) Any h _
        (after_write r retries now ha name robot created rotated_at not_before)
        (write_robot_secret-Wrote r retries now ha name h secret robot password not_before st)
        (after not_before)
    where
      after :
          (not_before : ℕ) (h' : History) (res : Result Failure Unit)
          → Wrote r retries now ha name robot.id h h' res
          → Safe May Any h'
              (after_write r retries now ha name robot created rotated_at not_before res)
      after not_before h' (ok u) w =
          clean_up-Safe h' robot created rotated_at not_before (HeldIn-later h h' robot w.0 k) w.1
      after not_before h' (err x) w = transient-Safe h' x

  abbrev pub FoundIn : History → Robot → Type 0
  FoundIn = Found r retries now ha name

  pub ReadIn-later :
      (h h' : History) (secret : Option Secret)
      → Extends h h'
      → ReadAs r retries now ha name h secret
      → ReadAs r retries now ha name h' secret
  ReadIn-later h h' none e i = tt
  ReadIn-later h h' (some s) e i = e _ i
