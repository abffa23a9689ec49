-- ===== src/RobotSecret.antt =====
-- The robot-password Secret: its name, labels, annotations and data keys
-- (bridge/internal/robotsecret/robotsecret.go).
pub mod Names
pub mod Owners
pub mod Promise
use harbor_workload_identity.Base.{
  ℕ, ◌+◌, ◌-◌, Bool, true, false, not, ◌&&◌, ◌||◌, List, [], ◌∷◌, ◌++◌, Option, none, some, ◌==◌,
  ltb, leb, if◌then◌else◌, length, take, is_some,
}
use harbor_workload_identity.Base.Int.{ℤ}
use harbor_workload_identity.Text.{Bytes, codes, is_empty, text_eq, cut_prefix, cut, trim_right}
use harbor_workload_identity.Dict.{Dict, lookup, get}
use harbor_workload_identity.Decimal.{parse_int, format_int}
use harbor_workload_identity.Instant.{second, floor_second, before, Rfc3339}
use harbor_workload_identity.Naming.{is_separator}

abbrev pub name_prefix : Bytes
name_prefix = codes "robot-"

-- `nameMax` and `nameHashLen`.
abbrev pub name_max : ℕ
name_max = 253

abbrev pub name_hash_len : ℕ
name_hash_len = 16

abbrev pub key_username : Bytes
key_username = codes "username"

abbrev pub key_password : Bytes
key_password = codes "password"

abbrev pub label_managed_by : Bytes
label_managed_by = codes "harbor.aetherize.io/managed-by"

abbrev pub label_managed_by_value : Bytes
label_managed_by_value = codes "harbor-workload-identity-bridge"

abbrev pub label_cluster : Bytes
label_cluster = codes "harbor.aetherize.io/cluster"

abbrev pub label_harbor_access_namespace : Bytes
label_harbor_access_namespace = codes "harbor.aetherize.io/harboraccess-namespace"

abbrev pub label_harbor_access_name : Bytes
label_harbor_access_name = codes "harbor.aetherize.io/harboraccess-name"

abbrev pub annotation_robot_id : Bytes
annotation_robot_id = codes "harbor.aetherize.io/robot-id"

abbrev pub annotation_rotation_not_before : Bytes
annotation_rotation_not_before = codes "harbor.aetherize.io/rotation-not-before"

-- The fields of a corev1.Secret that the bridge reads or writes.
pub record Secret : Type 0 where
  pub namespace : Bytes
  pub name : Bytes
  pub uid : Bytes
  pub resource_version : Bytes
  pub labels : Dict
  pub annotations : Dict
  -- `Data`, its byte slices as texts.
  pub content : Dict

-- What is kept of a name that is cut, and the digest behind it.
with_digest : Bytes → Bytes → Bytes
with_digest [] digest = digest
with_digest (c ∷ mid) digest = (c ∷ mid) ++ b'.' ∷ digest

-- `Name`. `hash_of` is the first 16 hexadecimal digits of a SHA-256 digest.
unfoldable pub secret_name : (Bytes → Bytes) → Bytes → Bytes → Bytes
unfolding with_digest
secret_name hash_of namespace name =
    let full = name_prefix ++ (namespace ++ b'.' ∷ name) in
    let digest = hash_of (namespace ++ 0 ∷ name) in
    let budget = name_max - length name_prefix - 1 - name_hash_len in
    let mid = namespace ++ b'.' ∷ name in
    let cut_mid = if ltb budget (length mid) then take budget mid else mid in
    if leb (length full) name_max
    then full
    else name_prefix ++ with_digest (trim_right is_separator cut_mid) digest

abbrev pub nonempty_pair : Option (Bytes × Bytes) → Option (Bytes × Bytes)
nonempty_pair none = none
nonempty_pair (some (a, b)) = if is_empty a || is_empty b then none else some (a, b)

-- `ParseName`; `none` where Go's `ok` is false.
unfoldable pub parse_name : Bytes → Option (Bytes × Bytes)
parse_name name = elim (cut_prefix name_prefix name) [
  | none ↦ none
  | some rest ↦ nonempty_pair (cut b'.' rest)
]

-- `Labels`
unfoldable pub owner_labels : Bytes → Bytes → Bytes → Dict
owner_labels cluster namespace name =
    (label_managed_by, label_managed_by_value)
    ∷ (label_cluster, cluster)
    ∷ (label_harbor_access_namespace, namespace)
    ∷ (label_harbor_access_name, name)
    ∷ []

unfoldable pub is_managed : Secret → Bool
is_managed s = text_eq (get label_managed_by s.labels) label_managed_by_value

-- `Owner`; `none` where Go's `ok` is false.
unfoldable pub owner : Secret → Option (Bytes × Bytes)
owner s =
    if not (is_managed s)
    then none
    else nonempty_pair
        (some (get label_harbor_access_namespace s.labels, get label_harbor_access_name s.labels))

unfoldable pub stamped_for_other : Secret → Bytes → Bytes → Bool
stamped_for_other s namespace name =
    if not (is_managed s)
    then false
    else not (text_eq (get label_harbor_access_namespace s.labels) namespace)
      || not (text_eq (get label_harbor_access_name s.labels) name)

-- `RobotID`
unfoldable pub robot_id : Secret → Option ℤ
robot_id s = elim (lookup annotation_robot_id s.annotations) [
  | none ↦ none
  | some raw ↦ parse_int raw
]

-- `FormatRobotID`
unfoldable pub format_robot_id : ℤ → Bytes
format_robot_id = format_int

-- `Credentials`; `none` where Go returns an error.
unfoldable pub credentials : Secret → Option (Bytes × Bytes)
credentials s = nonempty_pair (some (get key_username s.content, get key_password s.content))

-- The instant that `FormatRotationNotBefore` writes: the next whole second.
unfoldable pub ceil_second : ℕ → ℕ
ceil_second t = if before (floor_second t) t then floor_second t + second else floor_second t

module _ (clock : Rfc3339) where
  -- `RotationNotBefore`
  unfoldable pub rotation_not_before : Secret → Option ℕ
  rotation_not_before s = elim (lookup annotation_rotation_not_before s.annotations) [
    | none ↦ none
    | some raw ↦ clock.parse raw
  ]

  -- `FormatRotationNotBefore`
  unfoldable pub format_rotation_not_before : ℕ → Bytes
  unfolding ceil_second
  format_rotation_not_before t = clock.format (ceil_second t)
