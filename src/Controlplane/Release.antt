-- ===== src/Controlplane/Release.antt =====
-- The release of objects that a bridge no longer selects (`releaseUnselected` and `servedHere` of
-- bridge/controlplane/janitor.go).
pub mod Unserved
use harbor_workload_identity.Base.{
  Bool, true, false, not, ◌&&◌, ◌||◌, List, [], ◌∷◌, Result, ok, err, if◌then◌else◌, is_some,
}
use harbor_workload_identity.Text.{Bytes, text_eq}
use harbor_workload_identity.HarborAccess.{
  HarborAccess, finalizer_name, selects, finalizer, released_finalizers, status_robot_is_ours,
}
use harbor_workload_identity.Contract.{Robot}
use harbor_workload_identity.Controlplane.Effect.{
  CallError, Call, list_robots, patch_finalizers, Prog, ret, call,
}
use harbor_workload_identity.Controlplane.Secrets.{Reconciler}
use harbor_workload_identity.Controlplane.Deletion.{without, is_own, is_misnamed}

-- `servedHere`
unfoldable pub served_here : Reconciler → HarborAccess → Bool
served_here r ha = is_some ha.status.robot && status_robot_is_ours r.config ha

-- The finalizers to release among these: those that the object holds, the shared one only where this
-- bridge served it.
unfoldable pub releasable_finalizers : Reconciler → HarborAccess → List Bytes → List Bytes
releasable_finalizers r ha [] = []
releasable_finalizers r ha (f ∷ fs) =
    let rest = releasable_finalizers r ha fs in
    if r.contains_finalizer ha.finalizers f && (not (text_eq f finalizer_name) || served_here r ha)
    then f ∷ rest
    else rest

-- `candidate`
pub record Candidate : Type 0 where
  pub ha : HarborAccess
  pub released : List Bytes

abbrev pub kept_candidate : HarborAccess → List Bytes → List Candidate → List Candidate
kept_candidate ha [] rest = rest
kept_candidate ha (f ∷ fs) rest = record { ha = ha; released = f ∷ fs } ∷ rest

unfoldable pub candidates : Reconciler → List HarborAccess → List Candidate
candidates r [] = []
candidates r (ha ∷ owners) =
    let rest = candidates r owners in
    if selects r.config ha
    then rest
    else kept_candidate ha (releasable_finalizers r ha (released_finalizers r.config)) rest

-- Some robot of the list is the object's, by description and name, or by description only.
unfoldable pub any_own : Reconciler → HarborAccess → List Robot → Bool
any_own r ha [] = false
any_own r ha (robot ∷ robots) = is_own r ha robot || any_own r ha robots

unfoldable pub any_misnamed : Reconciler → HarborAccess → List Robot → Bool
any_misnamed r ha [] = false
any_misnamed r ha (robot ∷ robots) = is_misnamed r ha robot || any_misnamed r ha robots

-- The loop over the candidates. The patch carries the listed version, and its failure is only logged.
unfoldable pub release_each : Reconciler → List Robot → List Candidate → Prog Unit
release_each r robots [] = ret tt
release_each r robots (c ∷ cs) =
    let rest = release_each r robots cs in
    if any_own r c.ha robots
    then rest
    else if any_misnamed r c.ha robots
    then rest
    else call (patch_finalizers c.ha (without r c.released c.ha.finalizers)) (λ a. rest)

abbrev after_robots_listed : Reconciler → List Candidate → Result CallError (List Robot) → Prog Unit
after_robots_listed r cs (ok robots) = release_each r robots cs
after_robots_listed r cs (err e) = ret tt

abbrev pub release_candidates : Reconciler → List Candidate → Prog Unit
release_candidates r [] = ret tt
release_candidates r (c ∷ cs) = call list_robots (after_robots_listed r (c ∷ cs))

-- `releaseUnselected`, over the listed owners in some order.
unfoldable pub release_unselected : Reconciler → List HarborAccess → Prog Unit
release_unselected r owners =
    if text_eq (finalizer r.config) finalizer_name
    then ret tt
    else release_candidates r (candidates r owners)
