-- ===== src/Tests/Harbor.antt =====
-- The client of Harbor over the samples.
use harbor_workload_identity.Base.{
  ℕ, true, false, ◌≡◌, ◌≢◌, ◌↔◌, inl, refl, sym, ap, ◌∙◌, List, [], ◌∷◌, none, some, Result, ok,
  err, length, ◌≤◌, ok_injective, subst, In, arith,
}
use harbor_workload_identity.Base.Int.{pos, negsuc}
use harbor_workload_identity.Text.{Bytes, codes}
use harbor_workload_identity.Naming.{ProjectPermission}
use harbor_workload_identity.Contract.{Robot}
use harbor_workload_identity.HarborClient.Permissions.{permissions_match, actions}
use harbor_workload_identity.HarborClient.Permissions.Canonical.{SameGrants, permissions_match_iff}
use harbor_workload_identity.HarborClient.Robots.{
  HarborRobot, ClientError, robot_not_found, robot_of, to_harbor_permissions, from_harbor_robot,
}
use harbor_workload_identity.HarborClient.Robots.Echoed.{from_harbor_robot-permissions_match}
use harbor_workload_identity.HarborClient.Listing.{Page, Pages, max_pages, list, get_by_name}
use harbor_workload_identity.HarborClient.Listing.Complete.{HonoursQueries, list-In}
use harbor_workload_identity.HarborClient.Listing.Lookup.{get_by_name_not_missing}
use harbor_workload_identity.HarborClient.Listing.Ending.{IsListing, list-IsListing}
use harbor_workload_identity.HarborClient.Operations.{
  RobotCreated, Sdk, Request, post_robot, create_body, create,
}
use harbor_workload_identity.HarborClient.Operations.Created.{Settled, create-Settled}
use harbor_workload_identity.Tests.Samples.{short_name, wire_name, pushes, robot_of_pull}

abbrev prefix : Bytes
prefix = codes "robot$"

-- The robot as Harbor returns it.
abbrev stored : HarborRobot
stored = record {
  id = pos 5;
  name = wire_name;
  description = robot_of_pull.description;
  level = codes "system";
  duration = some (negsuc 0);
  disable = false;
  editable = true;
  expires_at = negsuc 0;
  permissions = to_harbor_permissions pushes;
  secret = [];
}

-- The errors of this Harbor.
abbrev Status : Type 0
Status = ℕ

-- It answers every page request with its one robot.
abbrev pages : Pages Status
pages n query = ok (some stored ∷ [])

abbrev Held : ℕ → HarborRobot → Type 0
Held n r = r ≡ stored

pages-HonoursQueries : (filter : Bytes) → HonoursQueries pages filter Held
pages-HonoursQueries filter n cursor page e r id here named below =
    let same : some stored ∷ [] ≡ page = ok_injective e in
    inl (subst (In (some r)) same (inl (ap some here)))

read_stored :
    ◌≡◌ {A = Result (ClientError Status) Robot}
      (from_harbor_robot prefix stored)
      (ok (robot_of prefix stored))
unfolding from_harbor_robot harbor_workload_identity.HarborClient.Robots.is_accounted_for
    harbor_workload_identity.Text.cut_prefix
    harbor_workload_identity.Naming.is_valid_harbor_robot_name
read_stored = refl

listed_stored :
    ◌≡◌ {A = Result (ClientError Status) (List Robot)}
      (list prefix pages [])
      (ok (robot_of prefix stored ∷ []))
unfolding list harbor_workload_identity.HarborClient.Listing.list_pages
    harbor_workload_identity.HarborClient.Listing.walk from_harbor_robot
    harbor_workload_identity.HarborClient.Robots.is_accounted_for
    harbor_workload_identity.Text.cut_prefix
    harbor_workload_identity.Naming.is_valid_harbor_robot_name
listed_stored = refl

list-In_example : In (robot_of prefix stored) (robot_of prefix stored ∷ [])
list-In_example =
    list-In prefix pages [] Held (robot_of prefix stored ∷ []) stored 4 (pages-HonoursQueries [])
      refl (λ n. refl) listed_stored

get_by_name_not_missing_example :
    get_by_name prefix pages pages pages (robot_of prefix stored).name ≢ err robot_not_found
get_by_name_not_missing_example =
    get_by_name_not_missing Status prefix pages pages pages Held stored 4 (pages-HonoursQueries [])
      refl (λ n. refl)

list-IsListing_example :
    (◌≡◌ {A = Result (ClientError Status) (List Robot)}
      (list prefix pages [])
      (ok (robot_of prefix stored ∷ [])))
    ↔ ((answers : List Page) × (length answers ≤ max_pages)
        × IsListing prefix pages [] 1 0 answers (robot_of prefix stored ∷ []))
list-IsListing_example = list-IsListing prefix pages [] (robot_of prefix stored ∷ [])

permissions_match_iff_example :
    (permissions_match robot_of_pull pushes ≡ true)
    ↔ ((robot_of_pull.foreign_access ≡ false) × SameGrants robot_of_pull.permissions pushes)
permissions_match_iff_example = permissions_match_iff robot_of_pull pushes

pull_granted : actions (codes "pull") ≡ codes "pull" ∷ []
unfolding actions harbor_workload_identity.HarborClient.Permissions.kept_words
    harbor_workload_identity.Text.Split.split harbor_workload_identity.Text.Split.trim_space
    harbor_workload_identity.Text.space_width
pull_granted = refl

pull_granting : actions (codes "pull") ≢ []
pull_granting e = let none_left : codes "pull" ∷ [] ≡ [] = sym pull_granted ∙ e in ground arith

from_harbor_robot-permissions_match_example :
    permissions_match (robot_of prefix stored) pushes ≡ true
from_harbor_robot-permissions_match_example =
    from_harbor_robot-permissions_match pushes prefix stored (robot_of prefix stored)
      (pull_granting, tt) refl read_stored

-- A Harbor with another prefix: the new robot comes back under a name that it does not account for.
abbrev foreign : RobotCreated
foreign = record { id = pos 9; name = codes "ci$bridge-prod.team.builder"; secret = codes "s3cret" }

abbrev sdk : Sdk Status
sdk = record {
  create_robot = λ body. ok (some foreign);
  delete_robot = λ id. ok tt;
  refresh_sec = λ id. ok none;
  update_robot = λ id body. ok tt;
  is_not_found = λ e. false;
}

posted :
    In
      (post_robot (create_body short_name (codes "d") pushes))
      (create sdk prefix short_name (codes "d") pushes).requests
unfolding create harbor_workload_identity.Naming.validate_permissions
    harbor_workload_identity.HarborClient.Operations.after_post
    harbor_workload_identity.HarborClient.Operations.accept
    harbor_workload_identity.HarborClient.Operations.created_wire
    harbor_workload_identity.Text.text_eq
posted = inl refl

create-Settled_example :
    Settled sdk prefix short_name
      (codes "d")
      pushes
      foreign
      (create sdk prefix short_name (codes "d") pushes)
create-Settled_example =
    create-Settled sdk prefix short_name (codes "d") pushes foreign posted refl refl
