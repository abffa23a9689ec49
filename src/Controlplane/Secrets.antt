-- ===== src/Controlplane/Secrets.antt =====
-- The rules for the Secret at a HarborAccess' name, and its deletion (`secretConflict`,
-- `secretDeleteConflict`, `getRobotSecret` and `deleteOwnRobotSecret` of
-- bridge/controlplane/reconciler.go).
pub mod Deleted
use harbor_workload_identity.Base.{
  ℕ, Bool, true, false, not, ◌&&◌, ◌||◌, List, [], ◌∷◌, ◌++◌, Option, none, some, Result, ok, err,
  if◌then◌else◌,
}
use harbor_workload_identity.Text.{Bytes, text_eq}
use harbor_workload_identity.Dict.{get}
use harbor_workload_identity.Instant.{Rfc3339}
use harbor_workload_identity.Naming.{robot_name}
use harbor_workload_identity.RobotSecret.{
  Secret, secret_name, label_cluster, is_managed, stamped_for_other, credentials,
}
use harbor_workload_identity.HarborAccess.{HarborAccess, Config, Condition}
use harbor_workload_identity.Controlplane.Effect.{
  CallError, not_found, Call, get_secret, delete_secret, Prog, ret, call,
}

-- The fields of `Reconciler`, and the library code that it calls: the digests, RFC 3339, the FNV-1a
-- hash, `meta.SetStatusCondition` on a list of conditions, and the functions of `controllerutil` on a
-- list of finalizers.
pub record Reconciler : Type 0 where
  pub config : Config
  pub hash_of : Bytes → Bytes
  pub clock : Rfc3339
  pub fnv32 : Bytes → ℕ
  pub set_condition : Condition → List Condition → List Condition
  pub contains_finalizer : List Bytes → Bytes → Bool
  pub add_finalizer : Bytes → List Bytes → List Bytes
  pub remove_finalizer : Bytes → List Bytes → List Bytes

-- Why a pass failed: a call, or a robot whose name does not start with the configured prefix
-- (`ErrRobotPrefixMismatch`).
pub data Failure : Type 0 where
  call_failed : CallError → Failure
  robot_prefix_mismatch : Failure
  -- The Secret at the name came to belong to someone else, or the name to another cluster.
  secret_taken name_not_owned : Failure
  joined : Failure → Failure → Failure

-- The name of the HarborAccess' robot, "" where it has none.
unfoldable pub robot_name_or_empty : Reconciler → HarborAccess → Bytes
robot_name_or_empty r ha =
    elim (robot_name r.hash_of r.config.cluster_name ha.spec.service_account_ref.namespace
      ha.spec.service_account_ref.name) [ ok name ↦ name | err e ↦ [] ]

-- The Secret holds the credentials of the robot of this name.
unfoldable pub holds_robot : Reconciler → Secret → Bytes → Bool
holds_robot r s name = elim (credentials s) [
  | none ↦ false
  | some (user, _) ↦ text_eq user (r.config.harbor_robot_prefix ++ name)
]

-- `secretConflict`; true where its message is not "".
unfoldable pub secret_conflict : Reconciler → HarborAccess → Option Secret → Bytes → Bool
secret_conflict r ha none name = false
secret_conflict r ha (some s) name =
    if stamped_for_other s ha.namespace ha.name
    then true
    else if not (is_managed s)
    then not (holds_robot r s name)
    else false

-- `secretDeleteConflict` of a Secret that exists.
unfoldable pub secret_delete_conflict : Reconciler → HarborAccess → Secret → Bytes → Bool
unfolding secret_conflict
secret_delete_conflict r ha s name =
    if secret_conflict r ha (some s) name
    then true
    else is_managed s && not (text_eq (get label_cluster s.labels) r.config.cluster_name)

-- `getRobotSecret`; a Secret that is not there is `none`.
unfoldable pub found_secret : Result CallError Secret → Result Failure (Option Secret)
found_secret (ok s) = ok (some s)
found_secret (err not_found) = ok none
found_secret (err e) = err (call_failed e)

-- An error, unless it says that the object is not there.
unfoldable pub ignore_not_found : {A : Type 0} → A → Result CallError A → Result Failure A
ignore_not_found a (ok x) = ok x
ignore_not_found a (err not_found) = ok a
ignore_not_found a (err e) = err (call_failed e)

-- The Secret's deletion, unless it belongs to someone else.
unfoldable pub delete_found_secret :
    Reconciler → HarborAccess → Bytes → Option Secret → Prog (Result Failure Unit)
delete_found_secret r ha name none = ret (ok tt)
delete_found_secret r ha name (some s) =
    if secret_delete_conflict r ha s name
    then ret (ok tt)
    else call (delete_secret s) (λ a. ret (ignore_not_found tt a))

abbrev pub delete_if_found :
    Reconciler → HarborAccess → Bytes → Result Failure (Option Secret) → Prog (Result Failure Unit)
delete_if_found r ha name (ok found) = delete_found_secret r ha name found
delete_if_found r ha name (err e) = ret (err e)

-- `deleteOwnRobotSecret`
unfoldable pub delete_own_robot_secret :
    Reconciler → HarborAccess → Bytes → Prog (Result Failure Unit)
delete_own_robot_secret r ha name =
    call (get_secret r.config.namespace (secret_name r.hash_of ha.namespace ha.name))
      (λ a. delete_if_found r ha name (found_secret a))
