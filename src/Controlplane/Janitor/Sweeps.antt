-- ===== src/Controlplane/Janitor/Sweeps.antt =====
-- The calls of the sweeps (bridge/controlplane/janitor.go).
use harbor_workload_identity.Base.{
  true, ◌≡◌, refl, List, [], ◌∷◌, Option, none, some, Result, ok, err, In, inl, inr, is_some,
  Option-cases,
}
use harbor_workload_identity.Text.{Bytes}
use harbor_workload_identity.HarborAccess.{HarborAccess}
use harbor_workload_identity.RobotSecret.{Secret, owner}
use harbor_workload_identity.Naming.{owns_legacy_robot}
use harbor_workload_identity.Contract.{Robot}
use harbor_workload_identity.Controlplane.Effect.{
  CallError, Call, get_harbor_access, get_secret, create_secret, update_secret, delete_secret,
  patch_finalizers, update_status, get_robot, list_robots, create_robot, update_robot,
  refresh_secret, delete_robot, Prog, answered, History, Safe, Safe-ret, Safe-call,
}
use harbor_workload_identity.Controlplane.Secrets.{Reconciler}
use harbor_workload_identity.Controlplane.Janitor.{
  Verdict, robot_verdict, secret_verdict, live_owner, Owners, delete_if, decide, judge,
  owner_of_robot, sweep_robots, sweep_secrets,
}

-- The last call asked the API server for this owner, and its answer gives a verdict.
abbrev pub Condemned : (Option HarborAccess → Option Verdict) → Bytes → Bytes → History → Type 0
Condemned verdict namespace name h =
    (a : Result CallError HarborAccess) × (live : Option HarborAccess) × (before : History) × (h
      ≡ answered (get_harbor_access namespace name) a ∷ before)
    × (live_owner a ≡ ok live)
    × (is_some (verdict live) ≡ true)

module _ (r : Reconciler) where
  abbrev pub verdict_on : Robot → Option HarborAccess → Option Verdict
  verdict_on robot = robot_verdict r robot (owns_legacy_robot r.config.cluster_name robot.name)

  -- What a sweep of these robots and Secrets may do: ask for an owner, and delete a robot or a Secret
  -- of the list whose owner the API server was asked for just before, if the answer condemns it.
  unfoldable pub MaySweep : List Robot → List Secret → History → Call → Type 0
  MaySweep robots secrets h (get_harbor_access namespace name) = Unit
  MaySweep robots secrets h (delete_robot id) =
      (robot : Robot) × (namespace : Bytes) × (name : Bytes) × In robot robots
      × (robot.id ≡ id)
      × (owner_of_robot r robot ≡ some (namespace, name))
      × Condemned (verdict_on robot) namespace name h
  MaySweep robots secrets h (delete_secret s) =
      (namespace : Bytes) × (name : Bytes) × In s secrets
      × (owner s ≡ some (namespace, name))
      × Condemned (secret_verdict r s) namespace name h
  MaySweep robots secrets h (get_secret namespace name) = ⊥
  MaySweep robots secrets h (create_secret s) = ⊥
  MaySweep robots secrets h (update_secret s) = ⊥
  MaySweep robots secrets h (patch_finalizers ha finalizers) = ⊥
  MaySweep robots secrets h (update_status ha) = ⊥
  MaySweep robots secrets h (get_robot name) = ⊥
  MaySweep robots secrets h list_robots = ⊥
  MaySweep robots secrets h (create_robot name description permissions) = ⊥
  MaySweep robots secrets h (update_robot robot description permissions) = ⊥
  MaySweep robots secrets h (refresh_secret id) = ⊥

  abbrev Any : History → Unit {0} → Type 0
  Any h u = Unit

  module _ (robots : List Robot) (secrets : List Secret)
      (verdict : Option HarborAccess → Option Verdict) (c : Call) (rest : Prog Unit) where
    abbrev May : History → Call → Type 0
    May = MaySweep robots secrets

    delete_if-Safe :
        (v : Option Verdict) (h : History)
        → (is_some v ≡ true → May h c)
        → ((h' : History) → Safe May Any h' rest)
        → Safe May Any h (delete_if v c rest)
    delete_if-Safe none h may next = next h
    delete_if-Safe (some why) h may next =
        Safe-call May Any c _ (may refl) (λ v. next (answered c (ok v) ∷ h))
          (λ e. next (answered c (err e) ∷ h))

    decide-Safe :
        (namespace name : Bytes) (a : Result CallError HarborAccess) (h : History)
        → ((h' : History) → Condemned verdict namespace name h' → May h' c)
        → ((h' : History) → Safe May Any h' rest)
        → (res : Result CallError (Option HarborAccess)) → live_owner a ≡ res
        → Safe May Any
            (answered (get_harbor_access namespace name) a ∷ h)
            (decide verdict c rest res)
    decide-Safe namespace name a h may next (ok live) e =
        delete_if-Safe (verdict live) _ (λ s. may _ (a, live, h, refl, e, s)) next
    decide-Safe namespace name a h may next (err x) e = next _

    judge-Safe :
        (owners : Owners) (o : Option (Bytes × Bytes)) (h : History)
        → ((namespace name : Bytes) (h' : History)
            → o ≡ some (namespace, name)
            → Condemned verdict namespace name h'
            → May h' c)
        → ((h' : History) → Safe May Any h' rest)
        → Safe May Any h (judge verdict owners o c rest)
    unfolding MaySweep
    judge-Safe owners none h may next = next h
    judge-Safe owners (some (namespace, name)) h may next =
        elim (Option-cases (verdict (owners namespace name))) [
          | inl e ↦ rw (e, judge) (next h)
          | inr (why, e) ↦
              rw (e, judge)
                (Safe-call May Any (get_harbor_access namespace name) _ tt
                  (λ v.
                    decide-Safe namespace name (ok v) h (λ h' d. may namespace name h' refl d) next
                      _ refl)
                  (λ x.
                    decide-Safe namespace name (err x) h (λ h' d. may namespace name h' refl d) next
                      _ refl))
        ]

  sweep_robots_from :
      (owners : Owners) (all : List Robot) (robots : List Robot)
      → ((robot : Robot) → In robot robots → In robot all)
      → (h : History) → Safe (MaySweep all []) Any h (sweep_robots r owners robots)
  unfolding sweep_robots MaySweep
  sweep_robots_from owners all [] inside h = Safe-ret (MaySweep all []) Any tt
  sweep_robots_from owners all (robot ∷ robots) inside h =
      judge-Safe all [] (verdict_on robot) (delete_robot robot.id) _ owners (owner_of_robot r robot)
        h (λ namespace name h' e d. (robot, namespace, name, inside robot (inl refl), refl, e, d))
        (sweep_robots_from owners all robots (λ x i. inside x (inr i)))

  -- Whatever is answered, the sweep of a list of robots deletes a robot only if it is on the list, is
  -- the bridge's by its name and its cluster token, and the API server's answer about the owner it
  -- names, asked for just before, condemns it.
  pub sweep_robots-Safe :
      (owners : Owners) (robots : List Robot) (h : History)
      → Safe (MaySweep robots []) Any h (sweep_robots r owners robots)
  sweep_robots-Safe owners robots h = sweep_robots_from owners robots robots (λ x i. i) h

  sweep_secrets_from :
      (owners : Owners) (all : List Secret) (secrets : List Secret)
      → ((s : Secret) → In s secrets → In s all)
      → (h : History) → Safe (MaySweep [] all) Any h (sweep_secrets r owners secrets)
  unfolding sweep_secrets MaySweep
  sweep_secrets_from owners all [] inside h = Safe-ret (MaySweep [] all) Any tt
  sweep_secrets_from owners all (s ∷ secrets) inside h =
      judge-Safe [] all (secret_verdict r s) (delete_secret s) _ owners (owner s) h
        (λ namespace name h' e d. (namespace, name, inside s (inl refl), e, d))
        (sweep_secrets_from owners all secrets (λ x i. inside x (inr i)))

  -- The same of the sweep of a list of Secrets: it deletes a Secret only if it is on the list, its
  -- labels name an owner, and the API server's answer about that owner condemns it.
  pub sweep_secrets-Safe :
      (owners : Owners) (secrets : List Secret) (h : History)
      → Safe (MaySweep [] secrets) Any h (sweep_secrets r owners secrets)
  sweep_secrets-Safe owners secrets h = sweep_secrets_from owners secrets secrets (λ x i. i) h
