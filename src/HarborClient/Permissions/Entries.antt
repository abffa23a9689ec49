-- ===== src/HarborClient/Permissions/Entries.antt =====
-- The entries of a grouping stay distinct (`normalizePermissions` of
-- bridge/controlplane/harbor/client.go).
use harbor_workload_identity.Base.{
  true, ◌≡◌, ◌⊎◌, ◌↔◌, inl, inr, sym, ◌∙◌, List, [], ◌∷◌, In, Bool-cases, arith,
}
use harbor_workload_identity.Text.{Bytes, text_eq}
use harbor_workload_identity.Text.Prefix.{text_eq_iff}
use harbor_workload_identity.Sorting.{Distinct}
use harbor_workload_identity.Naming.{ProjectPermission}
use harbor_workload_identity.HarborClient.Permissions.{
  actions, member, put_all, Grouping, add_entry, keys, actions_of,
}

-- A project that is listed, and an action that is granted in a project.
abbrev pub Lists : Bytes → List ProjectPermission → Type 0
Lists q [] = ⊥
Lists q (p ∷ perms) = (q ≡ p.project) ⊎ Lists q perms

abbrev pub Grants : Bytes → Bytes → List ProjectPermission → Type 0
Grants q a [] = ⊥
Grants q a (p ∷ perms) = ((q ≡ p.project) × In a (actions p.action)) ⊎ Grants q a perms

member_iff : (a : Bytes) (set : List Bytes) → (member a set ≡ true) ↔ In a set
unfolding member
member_iff a [] = ground arith
member_iff a (b ∷ set) = ground (arith, text_eq_iff a b, member_iff a set)

pub put_all_iff :
    (words set : List Bytes) (x : Bytes) → In x (put_all words set) ↔ (In x words ⊎ In x set)
unfolding put_all
put_all_iff [] set x = ground arith
put_all_iff (a ∷ words) set x = elim (Bool-cases (member a set)) [
  | inl e ↦
      let held = (member_iff a set).0 e in
      rw e (
        let (f, g) = put_all_iff words set x in
        (
          λ i. elim (f i) [ inl j ↦ inl (inr j) | inr j ↦ inr j ],
          λ i. elim i [
            | inl (inl q) ↦ g (inr (rw q held))
            | inl (inr j) ↦ g (inl j)
            | inr j ↦ g (inr j)
          ],
        ))
  | inr e ↦ rw e (
      let (f, g) = put_all_iff words (a ∷ set) x in
      (
        λ i. elim (f i) [ inl j ↦ inl (inr j) | inr (inl q) ↦ inl (inl q) | inr (inr j) ↦ inr j ],
        λ i. elim i [
          | inl (inl q) ↦ g (inr (inl q))
          | inl (inr j) ↦ g (inl j)
          | inr j ↦ g (inr (inr j))
        ],
      ))
]

put_all-Distinct : (words set : List Bytes) → Distinct set → Distinct (put_all words set)
unfolding put_all
put_all-Distinct [] set d = d
put_all-Distinct (a ∷ words) set d = elim (Bool-cases (member a set)) [
  | inl e ↦ rw e (put_all-Distinct words set d)
  | inr e ↦
      rw e
        (put_all-Distinct words (a ∷ set) (λ i. let t = (member_iff a set).1 i in ground arith, d))
]

pub add_entry-keys :
    (p : ProjectPermission) (m : Grouping) (x : Bytes)
    → In x (keys (add_entry p m)) ↔ ((x ≡ p.project) ⊎ In x (keys m))
unfolding add_entry
add_entry-keys p [] x = (λ i. i, λ i. i)
add_entry-keys p ((q, set) ∷ m) x = elim (Bool-cases (text_eq q p.project)) [
  | inl e ↦
      let same = (text_eq_iff q p.project).0 e in
      rw e (λ i. inr i, λ i. elim i [ inl j ↦ inl (j ∙ sym same) | inr j ↦ j ])
  | inr e ↦ rw e (
      let (f, g) = add_entry-keys p m x in
      (
        λ i. elim i [
          | inl j ↦ inr (inl j)
          | inr j ↦ elim (f j) [ inl k ↦ inl k | inr k ↦ inr (inr k) ]
        ],
        λ i. elim i [
          | inl j ↦ inr (g (inl j))
          | inr (inl j) ↦ inl j
          | inr (inr j) ↦ inr (g (inr j))
        ],
      ))
]

pub add_entry-Distinct :
    (p : ProjectPermission) (m : Grouping) → Distinct (keys m) → Distinct (keys (add_entry p m))
unfolding add_entry
add_entry-Distinct p [] d = (λ i. i, tt)
add_entry-Distinct p ((q, set) ∷ m) d = elim (Bool-cases (text_eq q p.project)) [
  | inl e ↦ rw e d
  | inr e ↦ rw e (
    λ i. elim ((add_entry-keys p m q).0 i) [
      | inl j ↦ let t = (text_eq_iff q p.project).1 j in ground arith
      | inr j ↦ d.0 j
    ],
    add_entry-Distinct p m d.1,
  )
]

-- Every project's actions are distinct.
abbrev pub SetsDistinct : Grouping → Type 0
SetsDistinct [] = Unit
SetsDistinct ((q, set) ∷ m) = Distinct set × SetsDistinct m

pub add_entry-SetsDistinct :
    (p : ProjectPermission) (m : Grouping) → SetsDistinct m → SetsDistinct (add_entry p m)
unfolding add_entry
add_entry-SetsDistinct p [] d = (put_all-Distinct (actions p.action) [] tt, tt)
add_entry-SetsDistinct p ((q, set) ∷ m) d = elim (Bool-cases (text_eq q p.project)) [
  | inl e ↦ rw e (put_all-Distinct (actions p.action) set d.0, d.1)
  | inr e ↦ rw e (d.0, add_entry-SetsDistinct p m d.1)
]

pub actions_of-Distinct : (q : Bytes) (m : Grouping) → SetsDistinct m → Distinct (actions_of q m)
unfolding actions_of
actions_of-Distinct q [] d = tt
actions_of-Distinct q ((k, set) ∷ m) d = elim (Bool-cases (text_eq k q)) [
  | inl e ↦ rw e d.0
  | inr e ↦ rw e (actions_of-Distinct q m d.1)
]

-- An action of a project is in the grouping only with the project.
pub actions_of-keys : (q a : Bytes) (m : Grouping) → In a (actions_of q m) → In q (keys m)
unfolding actions_of
actions_of-keys q a [] i = i
actions_of-keys q a ((k, set) ∷ m) i = elim (Bool-cases (text_eq k q)) [
  | inl e ↦ inl (sym ((text_eq_iff k q).0 e))
  | inr e ↦ inr (actions_of-keys q a m (rw e at i))
]
