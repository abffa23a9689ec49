-- ===== src/Controlplane/Janitor.antt =====
-- The janitor's sweeps of orphaned robots and Secrets (bridge/controlplane/janitor.go).
pub mod Sweeps
use harbor_workload_identity.Base.{
  ℕ, Bool, true, false, not, ◌&&◌, ◌||◌, List, [], ◌∷◌, Option, none, some, Result, ok, err,
  if◌then◌else◌,
}
use harbor_workload_identity.Text.{Bytes, text_eq}
use harbor_workload_identity.Naming.{
  NameError, invalid_robot_name, robot_name, owns_robot, owns_legacy_robot,
}
use harbor_workload_identity.RobotSecret.{Secret, secret_name, owner}
use harbor_workload_identity.HarborAccess.{HarborAccess, selects}
use harbor_workload_identity.Contract.{Robot, robot_belongs_to_cluster, parse_robot_description}
use harbor_workload_identity.Controlplane.Effect.{
  CallError, not_found, Call, get_harbor_access, delete_robot, delete_secret, Prog, ret, call,
}
use harbor_workload_identity.Controlplane.Secrets.{Reconciler}

-- The reasons of `robotVerdict` and `secretVerdict`, which return "" where there is none.
pub data Verdict : Type 0 where
  owner_gone owner_unselected legacy_superseded unmappable renamed wrong_secret_name : Verdict

-- The comparison at the end of `robotVerdict`.
abbrev name_verdict : Result NameError Bytes → Bytes → Option Verdict
name_verdict (ok want) name = if text_eq want name then none else some renamed
name_verdict (err invalid_robot_name) name = some unmappable
name_verdict (err e) name = none

-- `robotVerdict`
unfoldable pub robot_verdict : Reconciler → Robot → Bool → Option HarborAccess → Option Verdict
robot_verdict r robot legacy none = some owner_gone
robot_verdict r robot legacy (some ha) =
    if not (selects r.config ha)
    then some owner_unselected
    else if legacy
    then some legacy_superseded
    else name_verdict
        (robot_name r.hash_of r.config.cluster_name ha.spec.service_account_ref.namespace
          ha.spec.service_account_ref.name)
        robot.name

-- `secretVerdict`
unfoldable pub secret_verdict : Reconciler → Secret → Option HarborAccess → Option Verdict
secret_verdict r s none = some owner_gone
secret_verdict r s (some ha) =
    if not (selects r.config ha)
    then some owner_unselected
    else if not (text_eq s.name (secret_name r.hash_of ha.namespace ha.name))
    then some wrong_secret_name
    else none

-- `liveOwner`: no object where the API server knows none.
unfoldable pub live_owner : Result CallError HarborAccess → Result CallError (Option HarborAccess)
live_owner (ok ha) = ok (some ha)
live_owner (err not_found) = ok none
live_owner (err e) = err e

-- `Owner`s by namespace and name, as `listOwners` returns them.
abbrev pub Owners : Type 0
Owners = Bytes → Bytes → Option HarborAccess

-- A deletion under a verdict, whose failure is only logged.
abbrev pub delete_if : Option Verdict → Call → Prog Unit → Prog Unit
delete_if none c rest = rest
delete_if (some why) c rest = call c (λ a. rest)

-- The second look at the owner, at the API server.
abbrev pub decide :
    (Option HarborAccess → Option Verdict)
    → Call
    → Prog Unit
    → Result CallError (Option HarborAccess)
    → Prog Unit
decide verdict c rest (ok live) = delete_if (verdict live) c rest
decide verdict c rest (err e) = rest

-- The two looks: at the listed owner, and at the live one if the first gives a verdict.
abbrev pub judge :
    (Option HarborAccess → Option Verdict)
    → Owners
    → Option (Bytes × Bytes)
    → Call
    → Prog Unit
    → Prog Unit
judge verdict owners none c rest = rest
judge verdict owners (some (namespace, name)) c rest = elim (verdict (owners namespace name)) [
  | none ↦ rest
  | some why ↦ call (get_harbor_access namespace name) (λ a. decide verdict c rest (live_owner a))
]

-- The layers before an owner is read from a robot: its name, then its cluster token.
unfoldable pub owner_of_robot : Reconciler → Robot → Option (Bytes × Bytes)
owner_of_robot r robot =
    if not (owns_robot r.config.cluster_name robot.name)
      && not (owns_legacy_robot r.config.cluster_name robot.name)
    then none
    else if not (robot_belongs_to_cluster robot.description r.config.cluster_name)
    then none
    else parse_robot_description robot.description

-- `sweepRobots`
unfoldable pub sweep_robots : Reconciler → Owners → List Robot → Prog Unit
sweep_robots r owners [] = ret tt
sweep_robots r owners (robot ∷ robots) =
    let rest = sweep_robots r owners robots in
    judge (robot_verdict r robot (owns_legacy_robot r.config.cluster_name robot.name)) owners
      (owner_of_robot r robot) (delete_robot robot.id) rest

-- `sweepSecrets`
unfoldable pub sweep_secrets : Reconciler → Owners → List Secret → Prog Unit
sweep_secrets r owners [] = ret tt
sweep_secrets r owners (s ∷ secrets) =
    let rest = sweep_secrets r owners secrets in
    judge (secret_verdict r s) owners (owner s) (delete_secret s) rest
