-- ===== src/Controlplane/Convergence/Current/Written.antt =====
-- The writing of the robot Secret in a pass (`writeRobotSecret` and `putRobotSecret` of
-- bridge/controlplane/reconciler.go).
use harbor_workload_identity.Base.{
  ℕ, zero, suc, true, false, ◌≡◌, ◌⊎◌, inl, inr, refl, ap, subst, [], ◌∷◌, Option, none, some,
  Result, ok, err, In, Bool-cases, arith,
}
use harbor_workload_identity.Base.Int.{ℤ}
use harbor_workload_identity.Text.{Bytes, is_empty}
use harbor_workload_identity.RobotSecret.{Secret}
use harbor_workload_identity.HarborAccess.{HarborAccess}
use harbor_workload_identity.Contract.{Robot}
use harbor_workload_identity.Controlplane.Effect.{
  CallError, not_found, already_exists, conflict, failed, Call, create_secret, update_secret, Prog,
  answered, History, Extends, Safe, Safe-ret, Safe-call, Safe-if, Safe-bind, Safe-weaken,
}
use harbor_workload_identity.Controlplane.Secrets.{
  Reconciler, Failure, secret_conflict, found_secret,
}
use harbor_workload_identity.Controlplane.Rotation.{rotation_reason}
use harbor_workload_identity.Controlplane.Storage.{
  new_secret, updated_secret, is_unchanged, put_robot_secret, is_secret_write_race, after_reread,
  after_put, write_with_retries, stored_or_failed, write_robot_secret,
}
use harbor_workload_identity.Controlplane.Convergence.Current.{
  read_call, FromHarbor, HoldsCurrent, IsWritten, MayPass,
}

module _ (r : Reconciler) (retries now : ℕ) (ha : HarborAccess) (name : Bytes) where
  abbrev May : History → Call → Type 0
  May = MayPass r retries now ha name

  -- The Secret as it was read; none where it was not there.
  abbrev pub ReadAs : History → Option Secret → Type 0
  ReadAs h none = Unit
  ReadAs h (some s) = In (answered (read_call r retries now ha name) (ok s)) h

  -- What is to be stored: a password of Harbor's, or none where no rotation was due.
  abbrev pub Storable : History → Option Secret → Robot → Bytes → Type 0
  Storable h secret robot password =
      ReadAs h secret
      × (FromHarbor r retries now ha name h robot.id password
          ⊎ ((password ≡ []) × (rotation_reason r.clock ha secret robot now ≡ none)))

  -- The history so far stays, and a success means that the Secret is written.
  abbrev pub Wrote : {E : Type 0} → ℤ → History → History → Result E Unit → Type 0
  Wrote id h h' (ok u) = Extends h h' × IsWritten r retries now ha name h' id
  Wrote id h h' (err e) = Extends h h'

  from_harbor :
      (h : History) (secret : Option Secret) (robot : Robot) (password : Bytes)
      → is_empty password ≡ false
      → Storable h secret robot password
      → FromHarbor r retries now ha name h robot.id password
  from_harbor h secret robot password e s = elim s.1 [
    | inl given ↦ given
    | inr empty ↦ absurd (let t = ap is_empty empty.0 in ground arith)
  ]

  nil_of : (password : Bytes) → is_empty password ≡ true → password ≡ []
  nil_of [] e = refl
  nil_of (c ∷ s) e = absurd (ground arith)

  kept-IsWritten :
      (h : History) (s updated : Secret) (robot : Robot) (password : Bytes)
      → is_unchanged updated s password ≡ true
      → Storable h (some s) robot password
      → IsWritten r retries now ha name h robot.id
  unfolding is_unchanged
  kept-IsWritten h s updated robot password same st =
      let empty = nil_of password (ground arith) in
      (
        s,
        inr (
            inr (
              st.0,
              elim st.1 [
                | inl given ↦ inr (subst (FromHarbor r retries now ha name h robot.id) empty given)
                | inr quiet ↦ inl (robot, refl, quiet.1)
              ],
            )),
      )

  updated-HoldsCurrent :
      (h : History) (s : Secret) (robot : Robot) (password : Bytes) (not_before : ℕ)
      → Storable h (some s) robot password
      → HoldsCurrent r retries now ha name h (updated_secret r ha s robot password not_before)
  unfolding updated_secret
  updated-HoldsCurrent h s robot password not_before st = elim (Bool-cases (is_empty password)) [
    | inl e ↦ inr (s, st.0, rw e refl)
    | inr e ↦ inl (robot, password, rw e refl, from_harbor h (some s) robot password e st)
  ]

  put_robot_secret-Wrote :
      (h : History) (secret : Option Secret) (robot : Robot) (password : Bytes) (not_before : ℕ)
      → Storable h secret robot password
      → Safe May (Wrote robot.id h) h (put_robot_secret r ha secret robot password not_before)
  unfolding put_robot_secret MayPass new_secret
  put_robot_secret-Wrote h none robot password not_before s =
      Safe-if May (Wrote robot.id h) h (is_empty password) _ _
        (λ e. Safe-ret May (Wrote robot.id h) (λ x i. i))
        (λ e.
          let written = new_secret r ha robot password not_before in
          Safe-call May (Wrote robot.id h) (create_secret written) _
            (inl (robot, password, refl, from_harbor h none robot password e s))
            (λ v. Safe-ret May (Wrote robot.id h) ((λ x i. inr i), (written, inl (inl refl))))
            (λ x. Safe-ret May (Wrote robot.id h) (λ y i. inr i)))
  put_robot_secret-Wrote h (some s) robot password not_before st =
      let updated = updated_secret r ha s robot password not_before in
      Safe-if May (Wrote robot.id h) h (is_unchanged updated s password) _ _
        (λ same.
          Safe-ret May (Wrote robot.id h)
            ((λ x i. i), kept-IsWritten h s updated robot password same st))
        (λ changed.
          Safe-call May (Wrote robot.id h) (update_secret updated) _
            (updated-HoldsCurrent h s robot password not_before st)
            (λ v. Safe-ret May (Wrote robot.id h) ((λ x i. inr i), (updated, inr (inl (inl refl)))))
            (λ x. Safe-ret May (Wrote robot.id h) (λ y i. inr i)))

  -- A failure leaves the history behind it.
  Wrote-later :
      {E : Type 0} (id : ℤ) (h h1 h' : History) (res : Result E Unit)
      → Extends h h1
      → Wrote id h1 h' res
      → Wrote id h h' res
  Wrote-later id h h1 h' (ok u) e w = ((λ x i. w.0 x (e x i)), w.1)
  Wrote-later id h h1 h' (err x) e w = λ y i. w y (e y i)

  FromHarbor-later :
      (h h' : History) (id : ℤ) (password : Bytes)
      → Extends h h'
      → FromHarbor r retries now ha name h id password
      → FromHarbor r retries now ha name h' id password
  FromHarbor-later h h' id password e (inl i) = inl (e _ i)
  FromHarbor-later h h' id password e (inr (robot, made, same, given)) =
      inr (robot, e _ made, same, given)

  pub found_secret-ReadAs :
      (h : History) (a : Result CallError Secret) (fresh : Option Secret)
      → found_secret a ≡ ok fresh
      → ReadAs (answered (read_call r retries now ha name) a ∷ h) fresh
  unfolding found_secret
  found_secret-ReadAs h (ok v) none e = tt
  found_secret-ReadAs h (ok v) (some s) e = let same : v ≡ s = ground arith in inl (rw same refl)
  found_secret-ReadAs h (err not_found) none e = tt
  found_secret-ReadAs h (err not_found) (some s) e = absurd (ground arith)
  found_secret-ReadAs h (err already_exists) fresh e = absurd (ground arith)
  found_secret-ReadAs h (err conflict) fresh e = absurd (ground arith)
  found_secret-ReadAs h (err (failed message)) fresh e = absurd (ground arith)

  module _ (robot : Robot) (password : Bytes) (not_before : ℕ) where
    -- What follows a write is safe if the next try is, from whatever Secret is read again.
    after_put-Wrote :
        (h : History) (next : CallError → Option Secret → Prog (Result Failure Unit))
        → ((h1 : History) (e : CallError) (fresh : Option Secret)
            → Extends h h1
            → ReadAs h1 fresh
            → Safe May (Wrote robot.id h1) h1 (next e fresh))
        → (h1 : History) (res : Result CallError Unit) → Wrote robot.id h h1 res
        → Safe May (Wrote robot.id h) h1 (after_put r ha robot next res)
    unfolding MayPass
    after_put-Wrote h next step h1 (ok u) w = Safe-ret May (Wrote robot.id h) w
    after_put-Wrote h next step h1 (err e) w =
        Safe-if May (Wrote robot.id h) h1 (is_secret_write_race e) _ _
          (λ race.
            Safe-call May (Wrote robot.id h) (read_call r retries now ha name) _ (refl, refl)
              (λ v.
                reread (answered (read_call r retries now ha name) (ok v) ∷ h1) (λ x i. inr (w x i))
                  (found_secret (ok v)) (found_secret-ReadAs h1 (ok v)))
              (λ x.
                reread (answered (read_call r retries now ha name) (err x) ∷ h1)
                  (λ y i. inr (w y i)) (found_secret (err x)) (found_secret-ReadAs h1 (err x))))
          (λ other. Safe-ret May (Wrote robot.id h) w)
      where
        reread :
            (h2 : History)
            → Extends h h2
            → (found : Result Failure (Option Secret))
            → ((fresh : Option Secret) → found ≡ ok fresh → ReadAs h2 fresh)
            → Safe May (Wrote robot.id h) h2 (after_reread r ha robot (next e) found)
        reread h2 later (err x) read = Safe-ret May (Wrote robot.id h) later
        reread h2 later (ok fresh) read =
            Safe-if May (Wrote robot.id h) h2 (secret_conflict r ha fresh robot.name) _ _
              (λ taken. Safe-ret May (Wrote robot.id h) later)
              (λ free.
                Safe-weaken May (Wrote robot.id h2) (Wrote robot.id h) h2 (next e fresh)
                  (step h2 e fresh later (read fresh refl))
                  (λ h' res d. Wrote-later robot.id h h2 h' res later d))

    write_with_retries-Wrote :
        (tries : ℕ) (h : History) (secret : Option Secret)
        → ReadAs h secret
        → FromHarbor r retries now ha name h robot.id password
        → Safe May
            (Wrote robot.id h)
            h
            (write_with_retries r ha robot password not_before tries secret)
    unfolding write_with_retries
    write_with_retries-Wrote zero h secret read given =
        Safe-bind May (Wrote robot.id h) (Wrote robot.id h) h _ _
          (put_robot_secret-Wrote h secret robot password not_before (read, inl given))
          (after_put-Wrote h _
            (λ h1 e fresh later again. Safe-ret May (Wrote robot.id h1) (λ x i. i)))
    write_with_retries-Wrote (suc tries) h secret read given =
        Safe-bind May (Wrote robot.id h) (Wrote robot.id h) h _ _
          (put_robot_secret-Wrote h secret robot password not_before (read, inl given))
          (after_put-Wrote h _ (λ h1 e fresh later again.
            write_with_retries-Wrote tries h1 fresh again
              (FromHarbor-later h h1 robot.id password later given)))

  stored_or_failed-Wrote :
      (h : History) (id : ℤ) (h1 : History) (res : Result CallError Unit)
      → Wrote id h h1 res
      → Safe May (Wrote id h) h1 (stored_or_failed res)
  stored_or_failed-Wrote h id h1 (ok u) w = Safe-ret May (Wrote id h) w
  stored_or_failed-Wrote h id h1 (err e) w = Safe-ret May (Wrote id h) w

  -- With or without a new password, the Secret is written as the pass may, and a success means that
  -- it is.
  pub write_robot_secret-Wrote :
      (h : History) (secret : Option Secret) (robot : Robot) (password : Bytes) (not_before : ℕ)
      → Storable h secret robot password
      → Safe May
          (Wrote robot.id h)
          h
          (write_robot_secret r ha retries secret robot password not_before)
  unfolding write_robot_secret
  write_robot_secret-Wrote h secret robot password not_before st =
      Safe-if May (Wrote robot.id h) h (is_empty password) _ _
        (λ e.
          Safe-bind May (Wrote robot.id h) (Wrote robot.id h) h _ stored_or_failed
            (put_robot_secret-Wrote h secret robot [] not_before
              (subst (Storable h secret robot) (nil_of password e) st))
            (stored_or_failed-Wrote h robot.id))
        (λ e.
          write_with_retries-Wrote robot password not_before retries h secret st.0
            (from_harbor h secret robot password e st))
