-- ===== src/HarborAccess.antt =====
-- The HarborAccess resource (bridge/api/v1alpha1) and the part of the configuration that every
-- decision about it reads (bridge/controlplane/config.go).
use harbor_workload_identity.Base.{
  ℕ, Bool, true, false, not, ◌||◌, List, [], ◌∷◌, ◌++◌, Option, none, some, if◌then◌else◌,
}
use harbor_workload_identity.Base.Int.{ℤ}
use harbor_workload_identity.Text.{Bytes, codes, is_empty, trim_prefix}
use harbor_workload_identity.Dict.{Dict}
use harbor_workload_identity.Naming.{ProjectPermission, owns_robot}

pub record ServiceAccountRef : Type 0 where
  pub namespace : Bytes
  pub name : Bytes

pub record TrustPolicy : Type 0 where
  pub issuer : Bytes
  pub audience : Bytes

-- `Duration` of duration.go: nanoseconds, and the raw JSON of a value that is no Go duration.
pub record TokenTtl : Type 0 where
  pub duration : ℤ
  pub invalid : Bytes

pub record HarborAccessSpec : Type 0 where
  pub service_account_ref : ServiceAccountRef
  pub trust_policy : TrustPolicy
  pub permissions : List ProjectPermission
  pub token_ttl : TokenTtl

pub record RobotRef : Type 0 where
  pub name : Bytes
  pub id : ℤ
  pub password_secret_ref : Bytes
  pub last_rotated : Option ℕ

pub data ConditionType : Type 0 where
  ready robot_provisioned trust_policy_applied : ConditionType

-- The reasons of reconciler.go.
pub data Reason : Type 0 where
  reconcile_succeeded issuer_mismatch robot_conflict robot_disabled invalid_spec : Reason
  audience_mismatch harbor_error deletion_blocked enforced_by_bridge : Reason

-- A metav1.Condition, less its message and its transition time.
pub record Condition : Type 0 where
  pub type : ConditionType
  pub status : Bool
  pub reason : Reason
  pub observed_generation : ℕ

pub record HarborAccessStatus : Type 0 where
  pub robot : Option RobotRef
  pub enforced_by_bridge : Bool
  pub observed_generation : ℕ
  pub conditions : List Condition

pub record HarborAccess : Type 0 where
  pub namespace : Bytes
  pub name : Bytes
  pub uid : Bytes
  pub generation : ℕ
  pub labels : Dict
  pub finalizers : List Bytes
  pub deletion_timestamp : Option ℕ
  pub spec : HarborAccessSpec
  pub status : HarborAccessStatus

-- `ha.Spec.TokenTTL.Err() == nil`
unfoldable pub token_ttl_ok : TokenTtl → Bool
token_ttl_ok d = is_empty d.invalid

-- A labels.Selector of the apimachinery library.
pub record Selector : Type 0 where
  pub empty : Bool
  pub matches : Dict → Bool

-- The fields of `Config` that the reconciler and the janitor read.
pub record Config : Type 0 where
  pub cluster_name : Bytes
  pub namespace : Bytes
  pub oidc_issuer : Bytes
  pub audience : Bytes
  pub harbor_robot_prefix : Bytes
  pub instance_name : Bytes
  pub selector : Option Selector

abbrev pub finalizer_name : Bytes
finalizer_name = codes "harbor.aetherize.io/robot"

unfoldable pub selective : Config → Bool
selective c = elim c.selector [ none ↦ false | some s ↦ not s.empty ]

unfoldable pub selects : Config → HarborAccess → Bool
unfolding selective
selects c ha = not (selective c) || elim c.selector [ none ↦ false | some s ↦ s.matches ha.labels ]

unfoldable pub finalizer : Config → Bytes
unfolding selective
finalizer c = if not (selective c) then finalizer_name else finalizer_name ++ b'-' ∷ c.instance_name

unfoldable pub released_finalizers : Config → List Bytes
unfolding selective finalizer
released_finalizers c =
    if selective c
    then finalizer c ∷ finalizer_name ∷ []
    else if not (is_empty c.instance_name)
    then finalizer_name ∷ (finalizer_name ++ b'-' ∷ c.instance_name) ∷ []
    else finalizer_name ∷ []

unfoldable pub status_robot_is_ours : Config → HarborAccess → Bool
unfolding owns_robot trim_prefix
status_robot_is_ours c ha = elim ha.status.robot [
  | none ↦ true
  | some r ↦ owns_robot c.cluster_name (trim_prefix c.harbor_robot_prefix r.name)
]
