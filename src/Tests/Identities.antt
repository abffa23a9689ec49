-- ===== src/Tests/Identities.antt =====
-- Names, descriptions and Secrets of concrete identities.
use harbor_workload_identity.Base.{
  ◌+◌, ◌*◌, ◌≤◌, ◌<◌, true, false, ◌≡◌, ◌⊎◌, ◌↔◌, refl, inl, [], some, ok, length, arith,
}
use harbor_workload_identity.Base.Int.{pos, negsuc}
use harbor_workload_identity.Text.{Bytes, codes, has_byte, text_eq}
use harbor_workload_identity.Dict.{insert_all}
use harbor_workload_identity.Instant.{second, hour}
use harbor_workload_identity.Naming.{
  robot_name, robot_name_cap, owns_robot, owns_legacy_robot, is_valid_harbor_robot_name,
}
use harbor_workload_identity.Naming.Grammar.{MatchesName, is_valid_harbor_robot_name_iff}
use harbor_workload_identity.Naming.Ownership.{owns_robot_unique}
use harbor_workload_identity.Naming.Bounds.{robot_name-owns_robot}
use harbor_workload_identity.Naming.Injective.{IsIdentity, DigestsCollide, robot_name_injective}
use harbor_workload_identity.RobotSecret.{
  Secret, name_max, secret_name, parse_name, owner_labels, owner, stamped_for_other, robot_id,
  rotation_not_before, ceil_second,
}
use harbor_workload_identity.RobotSecret.Promise.{stamps, rotation_not_before-stamps}
use harbor_workload_identity.Contract.{
  Robot, robot_description, suspended_robot_description, robot_belongs_to_cluster,
  parse_robot_description, robot_owned_by, misnamed_robot,
}
use harbor_workload_identity.Contract.Description.{IsDescribable}
use harbor_workload_identity.Contract.Owned.{robot_owned_by_unique, robot_owned_by_created}
use harbor_workload_identity.Tests.Samples.{
  prod, team, pull, builder, digest, clock, short_name, secret_of_pull, robot_of_pull,
}

named : robot_name digest prod team builder ≡ ok short_name
unfolding robot_name
named = refl

builder-IsIdentity : IsIdentity prod team builder
unfolding has_byte harbor_workload_identity.Naming.is_separator
builder-IsIdentity = record {
  cluster_short = omega arith;
  ns_short = omega arith;
  ns_dot_free = refl;
  sa_dot_free = refl;
  sa_head = b'b';
  sa_tail = codes "uilder";
  sa_split = refl;
  sa_starts = refl;
}

robot_name_injective_example :
    ((team ≡ team) × (builder ≡ builder)) ⊎ DigestsCollide digest prod team builder team builder
robot_name_injective_example =
    robot_name_injective digest prod team builder team builder {name = short_name} (λ s. refl)
      builder-IsIdentity builder-IsIdentity named named

robot_name-owns_robot_example :
    (length short_name ≤ robot_name_cap)
    × MatchesName short_name
    × (owns_robot prod short_name ≡ true)
robot_name-owns_robot_example =
    robot_name-owns_robot digest prod team builder {name = short_name} (λ s. refl)
      (λ e. ground arith) named

owned : owns_robot prod short_name ≡ true
unfolding owns_robot
owned = refl

prod_dot_free : has_byte b'.' prod ≡ false
unfolding has_byte
prod_dot_free = refl

owns_robot_unique_example : prod ≡ prod
owns_robot_unique_example =
    owns_robot_unique prod prod short_name prod_dot_free prod_dot_free owned owned

team_dot_free : has_byte b'.' team ≡ false
unfolding has_byte
team_dot_free = refl

abbrev legacy_name : Bytes
legacy_name = codes "bridge-prod-team-builder"

legacy_owned : owns_legacy_robot prod legacy_name ≡ true
unfolding owns_legacy_robot
legacy_owned = refl

is_valid_harbor_robot_name_iff_example :
    (is_valid_harbor_robot_name short_name ≡ true) ↔ MatchesName short_name
is_valid_harbor_robot_name_iff_example = is_valid_harbor_robot_name_iff short_name

labels_written : secret_of_pull.labels ≡ insert_all (owner_labels prod team pull) []
unfolding insert_all owner_labels text_eq
labels_written = refl

annotations_written : secret_of_pull.annotations ≡ insert_all (stamps clock (pos 5) (50 * hour)) []
unfolding insert_all text_eq harbor_workload_identity.RobotSecret.format_robot_id
    harbor_workload_identity.RobotSecret.format_rotation_not_before
    harbor_workload_identity.Decimal.format_int harbor_workload_identity.Decimal.format_digits
annotations_written = refl

rotation_not_before-stamps_example :
    (robot_id secret_of_pull ≡ some (pos 5))
    × (rotation_not_before clock secret_of_pull ≡ some (ceil_second (50 * hour)))
    × (50 * hour ≤ ceil_second (50 * hour))
    × (ceil_second (50 * hour) < 50 * hour + second)
rotation_not_before-stamps_example =
    rotation_not_before-stamps clock secret_of_pull (pos 5) (50 * hour) [] annotations_written
      (omega arith) (omega arith)

describable : IsDescribable prod team pull
unfolding has_byte
describable = record {
  cluster_plain = omega arith;
  namespace_plain = omega arith;
  name_plain = omega arith;
  namespace_whole = refl;
  namespace_ne_nil = λ e. ground arith;
  name_ne_nil = λ e. ground arith;
}

described : robot_of_pull.description ≡ robot_description prod team pull
unfolding robot_description
described = refl

robot_owned_by_created_example : robot_owned_by prod robot_of_pull team pull ≡ true
robot_owned_by_created_example =
    robot_owned_by_created digest prod team builder team pull robot_of_pull (λ s. refl)
      (λ e. ground arith) describable named (inl described)

pull_owned : robot_owned_by prod robot_of_pull team pull ≡ true
unfolding robot_owned_by owns_robot robot_belongs_to_cluster
    harbor_workload_identity.Contract.is_tagged harbor_workload_identity.Contract.first_cluster_is
    harbor_workload_identity.Text.fields harbor_workload_identity.Contract.token_value
    harbor_workload_identity.Text.cut text_eq parse_robot_description
    harbor_workload_identity.Contract.first_owner harbor_workload_identity.Contract.token_owner
pull_owned = refl

robot_owned_by_unique_example : (prod ≡ prod) × (team ≡ team) × (pull ≡ pull)
robot_owned_by_unique_example =
    robot_owned_by_unique prod prod robot_of_pull team pull team pull pull_owned pull_owned

-- The robot under a name with a prefix that is not configured.
abbrev misnamed : Robot
misnamed = record {
  id = pos 6;
  name = codes "xbridge-prod.team.builder";
  wire_name = codes "xbridge-prod.team.builder";
  description = robot_of_pull.description;
  disabled = false;
  expires_at = negsuc 0;
  permissions = [];
  foreign_access = false;
  secret = [];
}

is_misnamed_here : misnamed_robot prod misnamed ≡ some (team, pull)
unfolding misnamed_robot owns_robot owns_legacy_robot robot_belongs_to_cluster
    harbor_workload_identity.Contract.is_tagged harbor_workload_identity.Contract.first_cluster_is
    harbor_workload_identity.Text.fields harbor_workload_identity.Contract.token_value
    harbor_workload_identity.Text.cut text_eq parse_robot_description
    harbor_workload_identity.Contract.first_owner harbor_workload_identity.Contract.token_owner
is_misnamed_here = refl
