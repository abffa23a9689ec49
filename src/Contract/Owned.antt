-- ===== src/Contract/Owned.antt =====
-- Whose robot a robot is (`robotOwnedBy` and `misnamedRobot` of bridge/controlplane/contract.go).
use harbor_workload_identity.Base.{
  true, false, ◌||◌, ◌≡◌, ◌≢◌, ◌⊎◌, refl, sym, ap, ◌∙◌, List, [], ◌∷◌, Option, none, some, ok,
  and_true, inl, inr, Option-cases, arith,
}
use harbor_workload_identity.Text.{Bytes, fields}
use harbor_workload_identity.Text.Prefix.{text_eq_iff}
use harbor_workload_identity.Naming.{robot_name, owns_robot, owns_legacy_robot}
use harbor_workload_identity.Naming.Bounds.{IsDigest, robot_name-owns_robot}
use harbor_workload_identity.Contract.{
  Robot, robot_description, suspended_robot_description, cluster_key, token_value, first_cluster_is,
  robot_belongs_to_cluster, parse_robot_description, misnamed_robot, is_pair, robot_owned_by,
}
use harbor_workload_identity.Contract.Description.{
  IsDescribable, parse_robot_description-robot_description, robot_belongs_to_cluster_iff,
}

first_cluster_is_unique :
    (c d : Bytes) (toks : List Bytes)
    → first_cluster_is c toks ≡ true
    → first_cluster_is d toks ≡ true
    → c ≡ d
unfolding first_cluster_is
first_cluster_is_unique c d [] h k = absurd (ground arith)
first_cluster_is_unique c d (tok ∷ toks) h k = elim (Option-cases (token_value cluster_key tok)) [
  | inl none_here ↦ first_cluster_is_unique c d toks (ground arith) (ground arith)
  | inr (v, e) ↦ ground (arith, text_eq_iff v c, text_eq_iff v d)
]

robot_belongs_to_cluster_unique :
    (c d description : Bytes)
    → robot_belongs_to_cluster description c ≡ true
    → robot_belongs_to_cluster description d ≡ true
    → c ≡ d
unfolding robot_belongs_to_cluster
robot_belongs_to_cluster_unique c d description h k =
    first_cluster_is_unique c d (fields description) (and_true _ _ h).1 (and_true _ _ k).1

is_pair-some : (o : Option (Bytes × Bytes)) (a b : Bytes) → is_pair o a b ≡ true → o ≡ some (a, b)
is_pair-some none a b h = absurd (ground arith)
is_pair-some (some (x, y)) a b h = ground (arith, text_eq_iff x a, text_eq_iff y b)

is_pair_self : (a b : Bytes) → is_pair (some (a, b)) a b ≡ true
is_pair_self a b = ground (arith, text_eq_iff a a, text_eq_iff b b)

-- The three layers of ownership.
pub record IsOwned (cluster : Bytes) (robot : Robot) (namespace name : Bytes) : Type 0 where
  pub name_owned : (owns_robot cluster robot.name || owns_legacy_robot cluster robot.name) ≡ true
  pub cluster_tagged : robot_belongs_to_cluster robot.description cluster ≡ true
  pub names_owner : parse_robot_description robot.description ≡ some (namespace, name)

pub robot_owned_by-IsOwned :
    (cluster : Bytes) (robot : Robot) (namespace name : Bytes)
    → robot_owned_by cluster robot namespace name ≡ true
    → IsOwned cluster robot namespace name
unfolding robot_owned_by
robot_owned_by-IsOwned cluster robot namespace name h = record {
  name_owned = ground arith;
  cluster_tagged = ground arith;
  names_owner =
      is_pair-some (parse_robot_description robot.description) namespace name (ground arith);
}

pub IsOwned-robot_owned_by :
    {cluster : Bytes} {robot : Robot} {namespace name : Bytes}
    → IsOwned cluster robot namespace name
    → robot_owned_by cluster robot namespace name ≡ true
unfolding robot_owned_by
IsOwned-robot_owned_by {cluster} {robot} {namespace} {name} o =
    let pair = ap (λ p. is_pair p namespace name) o.names_owner ∙ is_pair_self namespace name in
    let a = o.name_owned in let b = o.cluster_tagged in ground arith

-- A robot is owned by at most one HarborAccess of one cluster.
pub robot_owned_by_unique :
    (c d : Bytes) (robot : Robot) (ns name ns' name' : Bytes)
    → robot_owned_by c robot ns name ≡ true
    → robot_owned_by d robot ns' name' ≡ true
    → (c ≡ d) × (ns ≡ ns') × (name ≡ name')
robot_owned_by_unique c d robot ns name ns' name' h k =
    let o = robot_owned_by-IsOwned c robot ns name h in
    let p = robot_owned_by-IsOwned d robot ns' name' k in
    let same : ◌≡◌ {A = Option (Bytes × Bytes)} (some (ns, name)) (some (ns', name')) =
      sym o.names_owner ∙ p.names_owner in
    (
      robot_belongs_to_cluster_unique c d robot.description o.cluster_tagged p.cluster_tagged,
      ground arith,
      ground arith,
    )

-- A robot that is misnamed is owned by no HarborAccess, so that no owner's pass deletes it.
pub misnamed_robot-robot_owned_by :
    (cluster : Bytes) (robot : Robot) (ns name ns' name' : Bytes)
    → misnamed_robot cluster robot ≡ some (ns', name')
    → robot_owned_by cluster robot ns name ≡ false
unfolding misnamed_robot robot_owned_by
misnamed_robot-robot_owned_by cluster robot ns name ns' name' h = ground arith

-- A robot that carries the name `RobotName` gives and the description the bridge writes, suspended or
-- not, is owned by its HarborAccess.
pub robot_owned_by_created :
    (hash_of : Bytes → Bytes) (cluster sa_ns sa_name namespace name : Bytes) (robot : Robot)
    → IsDigest hash_of
    → cluster ≢ []
    → IsDescribable cluster namespace name
    → robot_name hash_of cluster sa_ns sa_name ≡ ok robot.name
    → (robot.description ≡ robot_description cluster namespace name)
      ⊎ (robot.description ≡ suspended_robot_description cluster namespace name)
    → robot_owned_by cluster robot namespace name ≡ true
robot_owned_by_created hash_of cluster sa_ns sa_name namespace name robot digest n d named
      described =
    let owned = (robot_name-owns_robot hash_of cluster sa_ns sa_name digest n named).2 in
    let back = parse_robot_description-robot_description cluster namespace name d in
    let here = robot_belongs_to_cluster_iff cluster namespace name d cluster in
    let tagged : robot_belongs_to_cluster robot.description cluster ≡ true = elim described [
      | inl e ↦ rw e (here.0.1 refl)
      | inr e ↦ rw e (here.1.1 refl)
    ] in
    let named_owner : parse_robot_description robot.description ≡ some (namespace, name) =
      elim described [ inl e ↦ rw e back.0 | inr e ↦ rw e back.1 ] in
    IsOwned-robot_owned_by
      (record { name_owned = ground arith; cluster_tagged = tagged; names_owner = named_owner })
