-- ===== src/Controlplane/Secrets/Deleted.antt =====
-- The calls of `deleteOwnRobotSecret` (bridge/controlplane/reconciler.go), for any rule that lets it
-- read and delete.
use harbor_workload_identity.Base.{
  false, ◌≡◌, refl, sym, ap, ◌∷◌, Option, none, some, Result, ok, err, In, inl, inr, arith,
}
use harbor_workload_identity.Text.{Bytes}
use harbor_workload_identity.HarborAccess.{HarborAccess}
use harbor_workload_identity.RobotSecret.{Secret, secret_name}
use harbor_workload_identity.Controlplane.Effect.{
  CallError, Call, get_secret, delete_secret, Event, answered, History, Extends, Safe, Safe-ret,
  Safe-call, Safe-if, Safe-weaken,
}
use harbor_workload_identity.Controlplane.Secrets.{
  Reconciler, Failure, secret_delete_conflict, found_secret, delete_found_secret, delete_if_found,
  delete_own_robot_secret,
}

abbrev pub Removed : History → History → Result Failure Unit → Type 0
Removed h h' res = Extends h h'

module _ (r : Reconciler) (ha : HarborAccess) (name : Bytes) (allowed : History → Call → Type 0)
    (may_read : (h : History)
      → allowed h (get_secret r.config.namespace (secret_name r.hash_of ha.namespace ha.name)))
    (may_delete : (h : History) (s : Secret)
      → secret_delete_conflict r ha s name ≡ false
      → In
          (answered
            (get_secret r.config.namespace (secret_name r.hash_of ha.namespace ha.name))
            (ok s))
          h
      → allowed h (delete_secret s)) where
  delete_found_secret-Safe :
      (found : Option Secret) (h : History)
      → ((s : Secret)
          → found ≡ some s
          → In
              (answered
                (get_secret r.config.namespace (secret_name r.hash_of ha.namespace ha.name))
                (ok s))
              h)
      → Safe allowed (λ h' res. Extends h h') h (delete_found_secret r ha name found)
  unfolding delete_found_secret
  delete_found_secret-Safe none h read = Safe-ret allowed (λ h' res. Extends h h') (λ e i. i)
  delete_found_secret-Safe (some s) h read =
      let wanted : History → Result Failure Unit → Type 0 = λ h' res. Extends h h' in
      Safe-if allowed wanted h (secret_delete_conflict r ha s name) _ _
        (λ e. Safe-ret allowed wanted (λ x i. i))
        (λ free.
          Safe-call allowed wanted (delete_secret s) _ (may_delete h s free (read s refl))
            (λ v. Safe-ret allowed wanted (λ x i. inr i))
            (λ e. Safe-ret allowed wanted (λ x i. inr i)))

  found_secret-some :
      (a : Result CallError Secret) (s : Secret) → found_secret a ≡ ok (some s) → a ≡ ok s
  unfolding found_secret
  found_secret-some a s e = ground arith

  shorter :
      (h h' : History) (e : Event) (res : Result Failure Unit)
      → Removed (e ∷ h) h' res
      → Removed h h' res
  shorter h h' e res c = λ x i. c x (inr i)

  delete_if_found-Safe :
      (h : History) (res : Result Failure (Option Secret))
      → ((s : Secret)
          → res ≡ ok (some s)
          → In
              (answered
                (get_secret r.config.namespace (secret_name r.hash_of ha.namespace ha.name))
                (ok s))
              h)
      → Safe allowed (Removed h) h (delete_if_found r ha name res)
  delete_if_found-Safe h (ok found) read =
      delete_found_secret-Safe found h (λ s e. read s (ap ok e))
  delete_if_found-Safe h (err e) read = Safe-ret allowed (λ h' res. Extends h h') (λ x i. i)

  -- The deletion reads the Secret at the name, and deletes what it read there if it may.
  pub delete_own_robot_secret-Safe :
      (h : History) → Safe allowed (Removed h) h (delete_own_robot_secret r ha name)
  unfolding delete_own_robot_secret
  delete_own_robot_secret-Safe h =
      let read = get_secret r.config.namespace (secret_name r.hash_of ha.namespace ha.name) in
      let more : (a : Result CallError Secret)
          → Safe allowed (Removed h) (answered read a ∷ h)
              (delete_if_found r ha name (found_secret a)) =
        λ a.
          Safe-weaken allowed (Removed (answered read a ∷ h)) (Removed h) _ _
            (delete_if_found-Safe (answered read a ∷ h) (found_secret a)
              (λ s e. inl (ap (answered read) (sym (found_secret-some a s e)))))
            (λ h' res c. shorter h h' (answered read a) res c) in
      Safe-call allowed (Removed h) read _ (may_read h) (λ s. more (ok s)) (λ e. more (err e))
