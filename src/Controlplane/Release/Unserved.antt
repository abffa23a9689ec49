-- ===== src/Controlplane/Release/Unserved.antt =====
-- The calls of the release (bridge/controlplane/janitor.go).
use harbor_workload_identity.Base.{
  true, false, not, ◌&&◌, ◌||◌, ◌≡◌, ◌≢◌, refl, ◌⊎◌, inl, inr, List, [], ◌∷◌, In, All, ok,
  Bool-cases, arith,
}
use harbor_workload_identity.Text.{Bytes, text_eq}
use harbor_workload_identity.HarborAccess.{
  HarborAccess, finalizer_name, selects, finalizer, released_finalizers,
}
use harbor_workload_identity.Contract.{Robot}
use harbor_workload_identity.Controlplane.Effect.{
  Call, get_harbor_access, get_secret, create_secret, update_secret, delete_secret,
  patch_finalizers, update_status, get_robot, list_robots, create_robot, update_robot,
  refresh_secret, delete_robot, answered, History, Safe, Safe-ret, Safe-call, Safe-if,
}
use harbor_workload_identity.Controlplane.Secrets.{Reconciler}
use harbor_workload_identity.Controlplane.Deletion.{without, is_own, is_misnamed}
use harbor_workload_identity.Controlplane.Release.{
  served_here, releasable_finalizers, Candidate, kept_candidate, candidates, any_own, any_misnamed,
  release_each, release_candidates, release_unselected,
}

module _ (r : Reconciler) where
  -- The robot is neither the object's nor of a name that hides it.
  abbrev pub IsForeign : HarborAccess → Robot → Type 0
  IsForeign ha robot = (is_own r ha robot ≡ false) × (is_misnamed r ha robot ≡ false)

  -- The object holds the finalizer, and the shared one is this bridge's.
  abbrev pub IsReleasable : HarborAccess → Bytes → Type 0
  IsReleasable ha f =
      (r.contains_finalizer ha.finalizers f ≡ true)
      × ((text_eq f finalizer_name ≡ false) ⊎ (served_here r ha ≡ true))

  releasable_finalizers-All :
      (ha : HarborAccess) (fs : List Bytes) → All (IsReleasable ha) (releasable_finalizers r ha fs)
  unfolding releasable_finalizers
  releasable_finalizers-All ha [] = tt
  releasable_finalizers-All ha (f ∷ fs) =
      let rest = releasable_finalizers-All ha fs in
      elim (Bool-cases (
        r.contains_finalizer ha.finalizers f
        && (not (text_eq f finalizer_name) || served_here r ha))) [
          | inr e ↦ rw e rest
          | inl e ↦ rw e (is_releasable ha f e, rest)
        ]
    where
      is_releasable :
          (ha : HarborAccess) (f : Bytes)
          → (r.contains_finalizer ha.finalizers f
              && (not (text_eq f finalizer_name) || served_here r ha))
            ≡ true
          → IsReleasable ha f
      is_releasable ha f e = elim (Bool-cases (text_eq f finalizer_name)) [
        | inl n ↦ (ground arith, inr (ground arith))
        | inr n ↦ (ground arith, inl n)
      ]

  -- An object of the list that is not selected, with the finalizers that may be released.
  abbrev pub IsCandidate : List HarborAccess → HarborAccess → List Bytes → Type 0
  IsCandidate owners ha release =
      In ha owners × (selects r.config ha ≡ false) × All (IsReleasable ha) release × (release ≢ [])

  -- What a release may do: list the robots, and take finalizers off an object that is not selected,
  -- once a list of robots was answered that holds none of its own.
  unfoldable pub MayRelease : List HarborAccess → History → Call → Type 0
  MayRelease owners h list_robots = Unit
  MayRelease owners h (patch_finalizers ha finalizers) =
      (release : List Bytes) × (robots : List Robot) × IsCandidate owners ha release
      × (finalizers ≡ without r release ha.finalizers)
      × In (answered list_robots (ok robots)) h
      × All (IsForeign ha) robots
  MayRelease owners h (get_harbor_access namespace name) = ⊥
  MayRelease owners h (delete_robot id) = ⊥
  MayRelease owners h (delete_secret s) = ⊥
  MayRelease owners h (get_secret namespace name) = ⊥
  MayRelease owners h (create_secret s) = ⊥
  MayRelease owners h (update_secret s) = ⊥
  MayRelease owners h (update_status ha) = ⊥
  MayRelease owners h (get_robot name) = ⊥
  MayRelease owners h (create_robot name description permissions) = ⊥
  MayRelease owners h (update_robot robot description permissions) = ⊥
  MayRelease owners h (refresh_secret id) = ⊥

  abbrev pub Any : History → Unit {0} → Type 0
  Any h u = Unit

  none_own :
      (ha : HarborAccess) (robots : List Robot)
      → any_own r ha robots ≡ false
      → any_misnamed r ha robots ≡ false
      → All (IsForeign ha) robots
  unfolding any_own any_misnamed
  none_own ha [] o m = tt
  none_own ha (robot ∷ robots) o m =
      ((ground arith, ground arith), none_own ha robots (ground arith) (ground arith))

  module _ (owners : List HarborAccess) where
    abbrev Good : Candidate → Type 0
    Good c = IsCandidate owners c.ha c.released

    release_each-Safe :
        (robots : List Robot) (cs : List Candidate) (h : History)
        → All Good cs
        → In (answered list_robots (ok robots)) h
        → Safe (MayRelease owners) Any h (release_each r robots cs)
    unfolding release_each MayRelease
    release_each-Safe robots [] h good seen = Safe-ret (MayRelease owners) Any tt
    release_each-Safe robots (c ∷ cs) h (g, good) seen =
        Safe-if (MayRelease owners) Any h (any_own r c.ha robots) _ _
          (λ o. release_each-Safe robots cs h good seen)
          (λ o.
            Safe-if (MayRelease owners) Any h (any_misnamed r c.ha robots) _ _
              (λ m. release_each-Safe robots cs h good seen)
              (λ m.
                Safe-call (MayRelease owners) Any
                  (patch_finalizers c.ha (without r c.released c.ha.finalizers)) _
                  (c.released, robots, g, refl, seen, none_own c.ha robots o m)
                  (λ v. release_each-Safe robots cs _ good (inr seen))
                  (λ e. release_each-Safe robots cs _ good (inr seen))))

    release_candidates-Safe :
        (cs : List Candidate) (h : History)
        → All Good cs
        → Safe (MayRelease owners) Any h (release_candidates r cs)
    unfolding MayRelease
    release_candidates-Safe [] h good = Safe-ret (MayRelease owners) Any tt
    release_candidates-Safe (c ∷ cs) h good =
        Safe-call (MayRelease owners) Any list_robots _ tt
          (λ robots. release_each-Safe robots (c ∷ cs) _ good (inl refl))
          (λ e. Safe-ret (MayRelease owners) Any tt)

    kept_candidate-Good :
        (ha : HarborAccess) (release : List Bytes) (rest : List Candidate)
        → In ha owners
        → selects r.config ha ≡ false
        → All (IsReleasable ha) release
        → All Good rest
        → All Good (kept_candidate ha release rest)
    kept_candidate-Good ha [] rest i s e good = good
    kept_candidate-Good ha (f ∷ fs) rest i s e good = ((i, s, e, λ q. absurd cc), good)

    candidates-Good :
        (some_owners : List HarborAccess)
        → ((ha : HarborAccess) → In ha some_owners → In ha owners)
        → All Good (candidates r some_owners)
    unfolding candidates
    candidates-Good [] inside = tt
    candidates-Good (ha ∷ some_owners) inside =
        let rest = candidates-Good some_owners (λ x i. inside x (inr i)) in
        elim (Bool-cases (selects r.config ha)) [
          | inl s ↦ rw s rest
          | inr s ↦ rw s (
              kept_candidate-Good ha (releasable_finalizers r ha (released_finalizers r.config)) _
                (inside ha (inl refl)) s
                (releasable_finalizers-All ha (released_finalizers r.config)) rest)
        ]

    -- Whatever is answered, the release takes finalizers only off listed objects that the bridge does
    -- not select, only those that the object holds and the shared one only if the bridge served it last,
    -- and only after a list of robots was answered in which none is the object's own, by its
    -- description and name or by its description alone.
    pub release_unselected-Safe :
        (h : History) → Safe (MayRelease owners) Any h (release_unselected r owners)
    unfolding release_unselected
    release_unselected-Safe h =
        Safe-if (MayRelease owners) Any h (text_eq (finalizer r.config) finalizer_name) _ _
          (λ e. Safe-ret (MayRelease owners) Any tt)
          (λ e. release_candidates-Safe (candidates r owners) h (candidates-Good owners (λ x i. i)))
