-- ===== src/Dataplane/Credentials.antt =====
-- The reads behind an issuance: the robot Secret and the username it must hold
-- (`readRobotSecret` and `robotUsername` of bridge/dataplane/handler.go).
use harbor_workload_identity.Base.{
  ℕ, not, Option, none, some, ◌++◌, ◌∷◌, Result, ok, err, ◌>>=◌, if◌then◌else◌,
}
use harbor_workload_identity.Text.{Bytes, codes}
use harbor_workload_identity.Instant.{Rfc3339}
use harbor_workload_identity.HarborAccess.{HarborAccess}
use harbor_workload_identity.RobotSecret.{
  Secret, secret_name, is_managed, stamped_for_other, credentials, rotation_not_before,
}

-- `robotCreds`; the promise is `none` where `hasRotationNotBefore` is false.
pub record RobotCreds : Type 0 where
  pub username : Bytes
  pub password : Bytes
  pub rotation_not_before : Option ℕ

-- An error of the API server: NotFound, or another one with its text.
pub data ApiError : Type 0 where
  not_found : ApiError
  failed : Bytes → ApiError

pub data SecretError : Type 0 where
  -- `errSecretOwnerMismatch`
  owner_mismatch : SecretError
  missing : SecretError
  unreadable : Bytes → SecretError

abbrev of_api : Result ApiError Secret → Result SecretError Secret
of_api (ok s) = ok s
of_api (err not_found) = err missing
of_api (err (failed message)) = err (unreadable message)

module _ (clock : Rfc3339) where
  -- The checks of `readRobotSecret` on the Secret that was read.
  unfoldable pub robot_creds : HarborAccess → Secret → Result SecretError RobotCreds
  robot_creds ha s =
      if not (is_managed s)
      then err owner_mismatch
      else if stamped_for_other s ha.namespace ha.name
      then err owner_mismatch
      else (elim (credentials s) [
        | none ↦ err (
            unreadable (
              codes "robot Secret "
              ++ (s.namespace ++ b'/' ∷ s.name)
              ++ codes " missing \"username\" and/or \"password\" keys"))
        | some (user, pass) ↦ ok (record {
          username = user;
          password = pass;
          rotation_not_before = rotation_not_before clock s;
        })
      ])

  -- `readRobotSecret`; `get` is the API server's answer by namespace and name.
  unfoldable pub read_robot_secret :
      (Bytes → Bytes)
      → (Bytes → Bytes → Result ApiError Secret)
      → Bytes
      → HarborAccess
      → Result SecretError RobotCreds
  read_robot_secret hash_of get namespace ha =
      of_api (get namespace (secret_name hash_of ha.namespace ha.name)) >>= robot_creds ha

-- `robotUsername`; the configured function is `none` where it is nil.
unfoldable pub robot_username :
    Option (Bytes → Bytes → Result Bytes Bytes) → HarborAccess → Result Bytes Bytes
robot_username none ha = err (codes "HandlerConfig.RobotUsername is not set")
robot_username (some username_of) ha =
    username_of ha.spec.service_account_ref.namespace ha.spec.service_account_ref.name
