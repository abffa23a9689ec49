-- ===== src/Controlplane/Storage.antt =====
-- The robot Secret as the control plane writes it (`putRobotSecret` of
-- bridge/controlplane/reconciler.go).
pub mod Readable
pub mod Retried
use harbor_workload_identity.Base.{
  ℕ, zero, suc, Bool, true, false, ◌&&◌, List, [], ◌∷◌, Option, none, some, Result, ok, err,
  if◌then◌else◌,
}
use harbor_workload_identity.Text.{Bytes, codes, is_empty}
use harbor_workload_identity.Dict.{Dict, insert_all, equal_string_maps}
use harbor_workload_identity.RobotSecret.{
  Secret, key_username, key_password, annotation_robot_id, annotation_rotation_not_before,
  secret_name, owner_labels, format_robot_id, format_rotation_not_before,
}
use harbor_workload_identity.HarborAccess.{HarborAccess}
use harbor_workload_identity.Contract.{Robot}
use harbor_workload_identity.Controlplane.Effect.{
  CallError, not_found, already_exists, conflict, failed, Call, get_secret, create_secret,
  update_secret, Prog, ret, call, bind,
}
use harbor_workload_identity.Controlplane.Secrets.{
  Reconciler, Failure, call_failed, secret_taken, secret_conflict, found_secret,
}

-- `labels` and `annotations` of putRobotSecret.
unfoldable pub labels_of : Reconciler → HarborAccess → Dict
labels_of r ha = owner_labels r.config.cluster_name ha.namespace ha.name

unfoldable pub annotations_of : Reconciler → Robot → ℕ → Dict
annotations_of r robot not_before =
    (annotation_robot_id, format_robot_id robot.id)
    ∷ (annotation_rotation_not_before, format_rotation_not_before r.clock not_before)
    ∷ []

-- `Data` with a new password.
abbrev pub data_of : Robot → Bytes → Dict
data_of robot password = (key_username, robot.wire_name) ∷ (key_password, password) ∷ []

-- The Secret that is created; its UID and its version are the API server's.
unfoldable pub new_secret : Reconciler → HarborAccess → Robot → Bytes → ℕ → Secret
new_secret r ha robot password not_before = record {
  namespace = r.config.namespace;
  name = secret_name r.hash_of ha.namespace ha.name;
  uid = [];
  resource_version = [];
  labels = labels_of r ha;
  annotations = annotations_of r robot not_before;
  content = data_of robot password;
}

-- The Secret that replaces one that exists; without a new password its data stay.
unfoldable pub updated_secret : Reconciler → HarborAccess → Secret → Robot → Bytes → ℕ → Secret
updated_secret r ha s robot password not_before = record {
  namespace = s.namespace;
  name = s.name;
  uid = s.uid;
  resource_version = s.resource_version;
  labels = insert_all (labels_of r ha) s.labels;
  annotations = insert_all (annotations_of r robot not_before) s.annotations;
  content = if is_empty password then s.content else data_of robot password;
}

-- The Secret stays as it is.
unfoldable pub is_unchanged : Secret → Secret → Bytes → Bool
is_unchanged updated s password =
    equal_string_maps updated.labels s.labels
    && equal_string_maps updated.annotations s.annotations
    && is_empty password

-- `putRobotSecret`
unfoldable pub put_robot_secret :
    Reconciler → HarborAccess → Option Secret → Robot → Bytes → ℕ → Prog (Result CallError Unit)
put_robot_secret r ha none robot password not_before =
    if is_empty password
    then ret
        (err (failed (codes "robot Secret is missing and no password is available to rebuild it")))
    else call (create_secret (new_secret r ha robot password not_before)) (λ a. ret a)
put_robot_secret r ha (some s) robot password not_before =
    let updated = updated_secret r ha s robot password not_before in
    if is_unchanged updated s password
    then ret (ok tt)
    else call (update_secret updated) (λ a. ret a)

-- `isSecretWriteRace`
abbrev pub is_secret_write_race : CallError → Bool
is_secret_write_race conflict = true
is_secret_write_race already_exists = true
is_secret_write_race not_found = true
is_secret_write_race (failed message) = false

-- The Secret that was read again, as the next try starts from it.
abbrev pub after_reread :
    Reconciler
    → HarborAccess
    → Robot
    → (Option Secret → Prog (Result Failure Unit))
    → Result Failure (Option Secret)
    → Prog (Result Failure Unit)
after_reread r ha robot next (err e) = ret (err e)
after_reread r ha robot next (ok fresh) =
    if secret_conflict r ha fresh robot.name then ret (err secret_taken) else next fresh

-- What follows one write.
abbrev pub after_put :
    Reconciler
    → HarborAccess
    → Robot
    → (CallError → Option Secret → Prog (Result Failure Unit))
    → Result CallError Unit
    → Prog (Result Failure Unit)
after_put r ha robot next (ok u) = ret (ok tt)
after_put r ha robot next (err e) =
    if is_secret_write_race e
    then call (get_secret r.config.namespace (secret_name r.hash_of ha.namespace ha.name))
        (λ a. after_reread r ha robot (next e) (found_secret a))
    else ret (err (call_failed e))

-- The function that `retry.OnError` runs, and its further runs: as many as the backoff allows, after
-- which the last error is returned.
unfoldable pub write_with_retries :
    Reconciler → HarborAccess → Robot → Bytes → ℕ → ℕ → Option Secret → Prog (Result Failure Unit)
write_with_retries r ha robot password not_before zero current =
    bind (put_robot_secret r ha current robot password not_before)
      (after_put r ha robot (λ e fresh. ret (err (call_failed e))))
write_with_retries r ha robot password not_before (suc retries) current =
    bind (put_robot_secret r ha current robot password not_before) (
      after_put r ha robot
        (λ e fresh. write_with_retries r ha robot password not_before retries fresh))

abbrev pub stored_or_failed : Result CallError Unit → Prog (Result Failure Unit)
stored_or_failed (ok u) = ret (ok tt)
stored_or_failed (err e) = ret (err (call_failed e))

-- `writeRobotSecret`, with the number of retries of `retry.DefaultRetry`.
unfoldable pub write_robot_secret :
    Reconciler → HarborAccess → ℕ → Option Secret → Robot → Bytes → ℕ → Prog (Result Failure Unit)
write_robot_secret r ha retries existing robot password not_before =
    if is_empty password
    then bind (put_robot_secret r ha existing robot [] not_before) stored_or_failed
    else write_with_retries r ha robot password not_before retries existing
