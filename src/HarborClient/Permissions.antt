-- ===== src/HarborClient/Permissions.antt =====
-- The grants of a robot in a form that can be compared (`normalizePermissions`, `actionRank` and
-- `PermissionsMatch` of bridge/controlplane/harbor/client.go).
pub mod Entries
pub mod Grouped
pub mod Canonical
pub mod Stable
use harbor_workload_identity.Base.{
  ℕ, Bool, true, false, ◌&&◌, ◌||◌, List, [], ◌∷◌, map, Option, none, some, ◌==◌, ltb, length,
  if◌then◌else◌,
}
use harbor_workload_identity.Text.{Bytes, codes, is_empty, text_eq, text_lt}
use harbor_workload_identity.Text.Split.{split, join, trim_space}
use harbor_workload_identity.Sorting.{sort_by}
use harbor_workload_identity.Naming.{ProjectPermission}
use harbor_workload_identity.Contract.{Robot}

-- The words of an action list, less those that are empty once trimmed.
unfoldable pub kept_words : List Bytes → List Bytes
kept_words [] = []
kept_words (w ∷ ws) =
    let rest = kept_words ws in if is_empty (trim_space w) then rest else trim_space w ∷ rest

unfoldable pub actions : Bytes → List Bytes
actions action = kept_words (split b',' action)

-- `map[string]struct{}` as its members, and `set[action] = struct{}{}`.
unfoldable pub member : Bytes → List Bytes → Bool
member a [] = false
member a (b ∷ set) = text_eq a b || member a set

unfoldable pub put_all : List Bytes → List Bytes → List Bytes
put_all [] set = set
put_all (a ∷ words) set = put_all words (if member a set then set else a ∷ set)

-- `byProject`
abbrev pub Grouping : Type 0
Grouping = List (Bytes × List Bytes)

unfoldable pub add_entry : ProjectPermission → Grouping → Grouping
add_entry p [] = (p.project, put_all (actions p.action) []) ∷ []
add_entry p ((q, set) ∷ m) =
    let rest = add_entry p m in
    if text_eq q p.project then (q, put_all (actions p.action) set) ∷ m else (q, set) ∷ rest

unfoldable pub group : List ProjectPermission → Grouping → Grouping
group [] m = m
group (p ∷ perms) m = group perms (add_entry p m)

abbrev pub keys : Grouping → List Bytes
keys [] = []
keys ((q, set) ∷ m) = q ∷ keys m

-- `byProject[p]`
unfoldable pub actions_of : Bytes → Grouping → List Bytes
actions_of p [] = []
actions_of p ((q, set) ∷ m) = if text_eq q p then set else actions_of p m

-- `order` of actionRank.
unfoldable pub order : Bytes → Option ℕ
order a =
    if text_eq a (codes "pull") then some 0 else if text_eq a (codes "push") then some 1 else none

abbrev pub rank_less : Option ℕ → Option ℕ → Bool → Bool
rank_less (some m) (some n) less = ltb m n
rank_less (some m) none less = true
rank_less none (some n) less = false
rank_less none none less = less

-- `actionRank`
unfoldable pub action_rank : Bytes → Bytes → Bool
action_rank a b = rank_less (order a) (order b) (text_lt a b)

-- The entry of a project.
unfoldable pub entry : Grouping → Bytes → ProjectPermission
entry m p = record { project = p; action = join (b',' ∷ []) (sort_by action_rank (actions_of p m)) }

-- `normalizePermissions`
unfoldable pub normalize_permissions : List ProjectPermission → List ProjectPermission
normalize_permissions perms =
    let by_project = group perms [] in map (entry by_project) (sort_by text_lt (keys by_project))

-- `a[i] != b[i]` is false for every i below the length of `a`, which `b` has too.
unfoldable pub entries_equal : List ProjectPermission → List ProjectPermission → Bool
entries_equal [] b = true
entries_equal (p ∷ a) [] = false
entries_equal (p ∷ a) (q ∷ b) =
    text_eq p.project q.project && text_eq p.action q.action && entries_equal a b

unfoldable pub same_entries : List ProjectPermission → List ProjectPermission → Bool
same_entries a b = length a == length b && entries_equal a b

-- `PermissionsMatch`
unfoldable pub permissions_match : Robot → List ProjectPermission → Bool
permissions_match r desired =
    if r.foreign_access
    then false
    else same_entries (normalize_permissions r.permissions) (normalize_permissions desired)
