-- ===== src/HarborClient/Permissions/Canonical.antt =====
-- Which grant sets `PermissionsMatch` takes for the same (bridge/controlplane/harbor/client.go).
use harbor_workload_identity.Base.{
  Bool, true, false, ◌≡◌, ◌↔◌, inl, inr, refl, sym, ap, ◌∙◌, List, [], ◌∷◌, map, In, All,
  Bool-cases, if◌then◌else◌, arith,
}
use harbor_workload_identity.Text.{Bytes, codes, is_empty, text_eq, text_lt}
use harbor_workload_identity.Text.Prefix.{text_eq_iff}
use harbor_workload_identity.Text.Order.{text_lt-asymm, text_lt_trans, text_lt-connected}
use harbor_workload_identity.Text.Split.{split, join, split-join, IsOther}
use harbor_workload_identity.Sorting.{
  sort_by, Distinct, SameMembers, All-intro, sort_by-to, sort_by-from, sort_by-Ascending,
  Ascending-unique,
}
use harbor_workload_identity.Naming.{ProjectPermission}
use harbor_workload_identity.Contract.{Robot}
use harbor_workload_identity.HarborClient.Permissions.{
  Grouping, group, keys, actions_of, order, action_rank, entry, normalize_permissions,
  entries_equal, same_entries, permissions_match,
}
use harbor_workload_identity.HarborClient.Permissions.Grouped.{
  IsAction, group-Distinct, group-SetsDistinct, group-keys, group-actions_of, group-IsAction,
}
use harbor_workload_identity.HarborClient.Permissions.Entries.{
  Lists, Grants, actions_of-Distinct, actions_of-keys,
}

action_rank-asymm : (a b : Bytes) → action_rank a b ≡ true → action_rank b a ≡ false
unfolding action_rank order
action_rank-asymm a b h = ground (arith, text_lt-asymm a b)

action_rank_trans :
    (a b c : Bytes) → action_rank a b ≡ true → action_rank b c ≡ true → action_rank a c ≡ true
unfolding action_rank order
action_rank_trans a b c h k = ground (arith, text_lt_trans a b c)

action_rank-connected : (a b : Bytes) → action_rank a b ≡ false → action_rank b a ≡ false → a ≡ b
unfolding action_rank order
action_rank-connected a b h k = ground (
  arith,
  text_lt-connected a b,
  text_eq_iff a (codes "pull"),
  text_eq_iff a (codes "push"),
  text_eq_iff b (codes "pull"),
  text_eq_iff b (codes "push"),
)

-- The same projects with the same actions.
abbrev pub SameGrants : List ProjectPermission → List ProjectPermission → Type 0
SameGrants xs ys =
    (q : Bytes) → (Lists q xs ↔ Lists q ys) × ((a : Bytes) → Grants q a xs ↔ Grants q a ys)

pub keys_iff :
    (perms : List ProjectPermission) (q : Bytes) → In q (keys (group perms [])) ↔ Lists q perms
keys_iff perms q =
    let (f, g) = group-keys perms [] q in
    (λ i. elim (f i) [ inl j ↦ j | inr j ↦ absurd j ], λ j. g (inl j))

pub actions_iff :
    (perms : List ProjectPermission) (q a : Bytes)
    → In a (actions_of q (group perms [])) ↔ Grants q a perms
unfolding actions_of
actions_iff perms q a =
    let (f, g) = group-actions_of perms [] q a in
    (λ i. elim (f i) [ inl j ↦ j | inr j ↦ absurd j ], λ j. g (inl j))

-- Sorting distinct members by a strict total order forgets the order they came in.
module _ (less : Bytes → Bytes → Bool) (asymm : (a b : Bytes) → less a b ≡ true → less b a ≡ false)
    (less_trans : (a b c : Bytes) → less a b ≡ true → less b c ≡ true → less a c ≡ true)
    (connected : (a b : Bytes) → less a b ≡ false → less b a ≡ false → a ≡ b) where
  sort_by-SameMembers :
      (xs ys : List Bytes)
      → Distinct xs
      → Distinct ys
      → SameMembers xs ys
      → sort_by less xs ≡ sort_by less ys
  sort_by-SameMembers xs ys d e same =
      Ascending-unique less asymm less_trans connected (sort_by less xs) (sort_by less ys)
        (sort_by-Ascending less asymm less_trans connected xs d)
        (sort_by-Ascending less asymm less_trans connected ys e)
        (λ a. (
          λ i. sort_by-from less ys a ((same a).0 (sort_by-to less xs a i)),
          λ i. sort_by-from less xs a ((same a).1 (sort_by-to less ys a i)),
        ))

abbrev pub sorted_keys : List ProjectPermission → List Bytes
sorted_keys perms = sort_by text_lt (keys (group perms []))

abbrev pub sorted_actions : List ProjectPermission → Bytes → List Bytes
sorted_actions perms q = sort_by action_rank (actions_of q (group perms []))

map-cong : {A B : Type 0} (f g : A → B) (xs : List A) → ((x : A) → f x ≡ g x) → map f xs ≡ map g xs
map-cong f g [] e = refl
map-cong f g (x ∷ xs) e = rw (e x, map-cong f g xs e) refl

normalize-SameGrants :
    (xs ys : List ProjectPermission)
    → SameGrants xs ys
    → normalize_permissions xs ≡ normalize_permissions ys
unfolding normalize_permissions
normalize-SameGrants xs ys same =
    let projects : sorted_keys xs ≡ sorted_keys ys =
      sort_by-SameMembers text_lt text_lt-asymm text_lt_trans text_lt-connected _ _
        (group-Distinct xs [] tt) (group-Distinct ys [] tt)
        (λ q. (
          λ i. (keys_iff ys q).1 ((same q).0.0 ((keys_iff xs q).0 i)),
          λ i. (keys_iff xs q).1 ((same q).0.1 ((keys_iff ys q).0 i)),
        )) in
    let acts : (q : Bytes) → sorted_actions xs q ≡ sorted_actions ys q = λ q.
      sort_by-SameMembers action_rank action_rank-asymm action_rank_trans action_rank-connected _ _
        (actions_of-Distinct q (group xs []) (group-SetsDistinct xs [] tt))
        (actions_of-Distinct q (group ys []) (group-SetsDistinct ys [] tt))
        (λ a. (
          λ i. (actions_iff ys q a).1 (((same q).1 a).0 ((actions_iff xs q a).0 i)),
          λ i. (actions_iff xs q a).1 (((same q).1 a).1 ((actions_iff ys q a).0 i)),
        )) in
    ap (map (entry (group xs []))) projects
    ∙ map-cong (entry (group xs [])) (entry (group ys [])) (sorted_keys ys)
        (λ q. unfold entry in rw (acts q) refl)

join-not_empty :
    (w : Bytes) (ws : List Bytes)
    → is_empty w ≡ false
    → is_empty (join (b',' ∷ []) (w ∷ ws)) ≡ false
unfolding join
join-not_empty [] ws h = absurd (ground arith)
join-not_empty (c ∷ w) [] h = refl
join-not_empty (c ∷ w) (v ∷ vs) h = refl

pub All-IsOther : (xs : List Bytes) → All IsAction xs → All (All (IsOther b',')) xs
All-IsOther [] h = tt
All-IsOther (x ∷ xs) h = (h.0.1, All-IsOther xs h.1)

-- Action lists that are written alike are the same.
join_injective :
    (xs ys : List Bytes)
    → All IsAction xs
    → All IsAction ys
    → join (b',' ∷ []) xs ≡ join (b',' ∷ []) ys
    → xs ≡ ys
unfolding join
join_injective [] [] h k e = refl
join_injective [] (y ∷ ys) h k e =
    let filled = join-not_empty y ys k.0.0 in
    let same : is_empty [] ≡ is_empty (join (b',' ∷ []) (y ∷ ys)) = ap is_empty e in
    absurd (ground arith)
join_injective (x ∷ xs) [] h k e =
    let filled = join-not_empty x xs h.0.0 in
    let same : is_empty (join (b',' ∷ []) (x ∷ xs)) ≡ is_empty [] = ap is_empty e in
    absurd (ground arith)
join_injective (x ∷ xs) (y ∷ ys) h k e =
    sym (split-join b',' x xs (All-IsOther (x ∷ xs) h))
    ∙ (ap (split b',') e ∙ split-join b',' y ys (All-IsOther (y ∷ ys) k))

pub sorted_actions-IsAction :
    (perms : List ProjectPermission) (q : Bytes) → All IsAction (sorted_actions perms q)
sorted_actions-IsAction perms q =
    All-intro IsAction (sorted_actions perms q)
      (λ a i. group-IsAction perms q a (sort_by-to action_rank (actions_of q (group perms [])) a i))

abbrev projects_of : List ProjectPermission → List Bytes
projects_of [] = []
projects_of (p ∷ perms) = p.project ∷ projects_of perms

projects_of-entries : (m : Grouping) (qs : List Bytes) → projects_of (map (entry m) qs) ≡ qs
unfolding entry
projects_of-entries m [] = refl
projects_of-entries m (q ∷ qs) = ap (◌∷◌ q) (projects_of-entries m qs)

abbrev written : List ProjectPermission → Bytes → Bytes
written [] q = []
written (p ∷ perms) q = if text_eq p.project q then p.action else written perms q

-- The entry of a project is found under it.
written-entries :
    (m : Grouping) (qs : List Bytes) (q : Bytes)
    → In q qs
    → written (map (entry m) qs) q ≡ (entry m q).action
unfolding entry
written-entries m [] q i = absurd i
written-entries m (k ∷ qs) q i = elim (Bool-cases (text_eq k q)) [
  | inl e ↦ rw (e, (text_eq_iff k q).0 e) refl
  | inr e ↦ elim i [
    | inl j ↦ let t = (text_eq_iff k q).1 (sym j) in absurd (ground arith)
    | inr j ↦ rw e (written-entries m qs q j)
  ]
]

pub normalize-projects :
    (xs ys : List ProjectPermission)
    → normalize_permissions xs ≡ normalize_permissions ys
    → sorted_keys xs ≡ sorted_keys ys
unfolding normalize_permissions
normalize-projects xs ys e =
    sym (projects_of-entries (group xs []) (sorted_keys xs))
    ∙ (ap projects_of e ∙ projects_of-entries (group ys []) (sorted_keys ys))

normalize-actions :
    (xs ys : List ProjectPermission) (q : Bytes)
    → normalize_permissions xs ≡ normalize_permissions ys
    → In q (sorted_keys xs)
    → sorted_actions xs q ≡ sorted_actions ys q
unfolding normalize_permissions
normalize-actions xs ys q e i =
    let listed : In q (sorted_keys ys) = rw (normalize-projects xs ys e) at i in
    let same : (entry (group xs []) q).action ≡ (entry (group ys []) q).action =
      sym (written-entries (group xs []) (sorted_keys xs) q i)
      ∙ (ap (λ l. written l q) e ∙ written-entries (group ys []) (sorted_keys ys) q listed) in
    join_injective (sorted_actions xs q) (sorted_actions ys q) (sorted_actions-IsAction xs q)
      (sorted_actions-IsAction ys q) (unfold entry in same)

normalize-Lists :
    (xs ys : List ProjectPermission) (q : Bytes)
    → normalize_permissions xs ≡ normalize_permissions ys
    → Lists q xs
    → Lists q ys
normalize-Lists xs ys q e i =
    let held = sort_by-from text_lt (keys (group xs [])) q ((keys_iff xs q).1 i) in
    let moved : In q (sorted_keys ys) = rw (normalize-projects xs ys e) at held in
    (keys_iff ys q).0 (sort_by-to text_lt (keys (group ys [])) q moved)

normalize-Grants :
    (xs ys : List ProjectPermission) (q a : Bytes)
    → normalize_permissions xs ≡ normalize_permissions ys
    → Grants q a xs
    → Grants q a ys
normalize-Grants xs ys q a e g =
    let held = (actions_iff xs q a).1 g in
    let listed =
      sort_by-from text_lt (keys (group xs [])) q (actions_of-keys q a (group xs []) held) in
    let i = sort_by-from action_rank (actions_of q (group xs [])) a held in
    let moved : In a (sorted_actions ys q) = rw (normalize-actions xs ys q e listed) at i in
    (actions_iff ys q a).0 (sort_by-to action_rank (actions_of q (group ys [])) a moved)

-- Two lists of grants have one normal form exactly when they list the same projects and grant the
-- same actions in each.
pub normalize_permissions_iff :
    (xs ys : List ProjectPermission)
    → (normalize_permissions xs ≡ normalize_permissions ys) ↔ SameGrants xs ys
normalize_permissions_iff xs ys = (
  λ e q. (
    (normalize-Lists xs ys q e, normalize-Lists ys xs q (sym e)),
    λ a. (normalize-Grants xs ys q a e, normalize-Grants ys xs q a (sym e)),
  ),
  normalize-SameGrants xs ys,
)

entries_equal_iff : (xs ys : List ProjectPermission) → (same_entries xs ys ≡ true) ↔ (xs ≡ ys)
unfolding same_entries entries_equal
entries_equal_iff [] [] = ground arith
entries_equal_iff [] (y ∷ ys) = ground arith
entries_equal_iff (x ∷ xs) [] = ground arith
entries_equal_iff (x ∷ xs) (y ∷ ys) =
    ground (
      arith,
      text_eq_iff x.project y.project,
      text_eq_iff x.action y.action,
      entries_equal_iff xs ys,
    )

-- A robot matches the desired grants exactly when it has no foreign access, lists the same projects
-- and grants the same actions in each.
pub permissions_match_iff :
    (r : Robot) (desired : List ProjectPermission)
    → (permissions_match r desired ≡ true)
      ↔ ((r.foreign_access ≡ false) × SameGrants r.permissions desired)
unfolding permissions_match
permissions_match_iff r desired =
    let (f, g) =
      entries_equal_iff (normalize_permissions r.permissions) (normalize_permissions desired) in
    let (f', g') = normalize_permissions_iff r.permissions desired in
    elim (Bool-cases r.foreign_access) [
      | inl e ↦ rw e (λ t. absurd (ground arith), λ t. absurd (ground arith))
      | inr e ↦ rw e (λ t. (refl, f' (f t)), λ t. g (g' t.1))
    ]
