-- ===== src/Tests/Samples.antt =====
-- Concrete values for the tests: a digest, a clock, a cluster, an object, its robot and its Secret.
use harbor_workload_identity.Base.{ℕ, ◌*◌, true, false, refl, List, [], ◌∷◌, Option, none, some}
use harbor_workload_identity.Base.Int.{pos, negsuc}
use harbor_workload_identity.Text.{Bytes, codes}
use harbor_workload_identity.Instant.{hour, Rfc3339}
use harbor_workload_identity.Naming.{ProjectPermission}
use harbor_workload_identity.RobotSecret.{
  Secret, key_username, key_password, annotation_robot_id, annotation_rotation_not_before,
  label_managed_by, label_managed_by_value, label_cluster, label_harbor_access_namespace,
  label_harbor_access_name,
}
use harbor_workload_identity.HarborAccess.{HarborAccess, finalizer_name}
use harbor_workload_identity.Contract.{Robot}
use harbor_workload_identity.Controlplane.Secrets.{Reconciler}

abbrev pub prod : Bytes
prod = codes "prod"

abbrev pub team : Bytes
team = codes "team"

abbrev pub pull : Bytes
pull = codes "pull"

abbrev pub builder : Bytes
builder = codes "builder"

-- A digest of the right length.
abbrev pub digest : Bytes → Bytes
digest s = codes "0123456789abcdef"

-- A clock that writes an instant as one symbol.
abbrev pub read_symbol : Bytes → Option ℕ
read_symbol [] = none
read_symbol (t ∷ []) = some t
read_symbol (t ∷ u ∷ s) = none

abbrev pub clock : Rfc3339
clock = record { format = λ t. t ∷ []; parse = read_symbol; parse-format = λ t w e. refl }

abbrev pub issuer : Bytes
issuer = codes "https://issuer"

abbrev pub audience : Bytes
audience = codes "harbor"

abbrev pub pushes : List ProjectPermission
pushes = record { project = codes "images"; action = codes "pull" } ∷ []

abbrev pub access : HarborAccess
access = record {
  namespace = team;
  name = pull;
  uid = codes "u1";
  generation = 3;
  labels = [];
  finalizers = finalizer_name ∷ [];
  deletion_timestamp = none;
  spec = record {
    service_account_ref = record { namespace = team; name = builder };
    trust_policy = record { issuer = issuer; audience = audience };
    permissions = pushes;
    token_ttl = record { duration = pos hour; invalid = [] };
  };
  status = record {
    robot = none;
    enforced_by_bridge = true;
    observed_generation = 3;
    conditions = [];
  };
}

-- Its robot's name in Harbor, as the bridge writes it and as Harbor shows it.
abbrev pub short_name : Bytes
short_name = codes "bridge-prod.team.builder"

abbrev pub wire_name : Bytes
wire_name = codes "robot$bridge-prod.team.builder"

abbrev pub secret_of_pull : Secret
secret_of_pull = record {
  namespace = codes "bridge";
  name = codes "robot-team.pull";
  uid = codes "s1";
  resource_version = codes "7";
  labels =
      (label_managed_by, label_managed_by_value)
      ∷ (label_cluster, prod)
      ∷ (label_harbor_access_namespace, team)
      ∷ (label_harbor_access_name, pull)
      ∷ [];
  annotations =
      (annotation_robot_id, codes "5") ∷ (annotation_rotation_not_before, (50 * hour) ∷ []) ∷ [];
  content = (key_username, wire_name) ∷ (key_password, codes "hunter2") ∷ [];
}

abbrev pub robot_of_pull : Robot
robot_of_pull = record {
  id = pos 5;
  name = short_name;
  wire_name = wire_name;
  description =
      codes "managed-by=harbor-workload-identity-bridge cluster=prod harboraccess=team/pull";
  disabled = false;
  expires_at = negsuc 0;
  permissions = pushes;
  foreign_access = false;
  secret = [];
}

abbrev pub reconciler : Reconciler
reconciler = record {
  config = record {
    cluster_name = prod;
    namespace = codes "bridge";
    oidc_issuer = issuer;
    audience = audience;
    harbor_robot_prefix = codes "robot$";
    instance_name = [];
    selector = none;
  };
  hash_of = digest;
  clock = clock;
  fnv32 = λ s. 1234;
  set_condition = λ c cs. c ∷ cs;
  contains_finalizer = λ fs f. true;
  add_finalizer = λ f fs. f ∷ fs;
  remove_finalizer = λ f fs. [];
}
