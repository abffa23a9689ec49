-- ===== src/HarborClient/Permissions/Grouped.antt =====
-- What the grouping by project holds (`byProject` of normalizePermissions,
-- bridge/controlplane/harbor/client.go).
use harbor_workload_identity.Base.{
  false, ◌≡◌, ◌⊎◌, ◌↔◌, inl, inr, sym, ◌∙◌, List, [], ◌∷◌, In, All, Bool-cases, arith,
}
use harbor_workload_identity.Text.{Bytes, is_empty, text_eq}
use harbor_workload_identity.Text.Split.{split, trim_space, trim_space-All, IsOther, split-IsOther}
use harbor_workload_identity.Text.Prefix.{text_eq_iff}
use harbor_workload_identity.Sorting.{Distinct, All-In}
use harbor_workload_identity.Naming.{ProjectPermission}
use harbor_workload_identity.HarborClient.Permissions.{
  kept_words, actions, Grouping, add_entry, group, keys, actions_of,
}
use harbor_workload_identity.HarborClient.Permissions.Entries.{
  Grants, Lists, SetsDistinct, add_entry-Distinct, add_entry-SetsDistinct, add_entry-keys,
  put_all_iff,
}

add_entry-actions_of :
    (p : ProjectPermission) (m : Grouping) (q a : Bytes)
    → In a (actions_of q (add_entry p m))
      ↔ (((q ≡ p.project) × In a (actions p.action)) ⊎ In a (actions_of q m))
unfolding add_entry actions_of
add_entry-actions_of p [] q a = elim (Bool-cases (text_eq p.project q)) [
  | inl e ↦
      let same = (text_eq_iff p.project q).0 e in
      let (f, g) = put_all_iff (actions p.action) [] a in
      rw e (
        λ i. elim (f i) [ inl j ↦ inl (sym same, j) | inr j ↦ inr j ],
        λ i. elim i [ inl j ↦ g (inl j.1) | inr j ↦ g (inr j) ],
      )
  | inr e ↦ rw e (
    λ i. inr i,
    λ i. elim i [
      | inl j ↦ let t = (text_eq_iff p.project q).1 (sym j.0) in absurd (ground arith)
      | inr j ↦ j
    ],
  )
]
add_entry-actions_of p ((k, set) ∷ m) q a = elim (Bool-cases (text_eq k p.project)) [
  | inl e ↦
      let same = (text_eq_iff k p.project).0 e in
      elim (Bool-cases (text_eq k q)) [
        | inl d ↦
            let (f, g) = put_all_iff (actions p.action) set a in
            let here = sym ((text_eq_iff k q).0 d) ∙ same in
            rw (e, d)
              (
                λ i. elim (f i) [ inl j ↦ inl (here, j) | inr j ↦ inr j ],
                λ i. elim i [ inl j ↦ g (inl j.1) | inr j ↦ g (inr j) ],
              )
        | inr d ↦
            rw (e, d)
              (
                λ i. inr i,
                λ i. elim i [
                  | inl j ↦ let t = (text_eq_iff k q).1 (same ∙ sym j.0) in absurd (ground arith)
                  | inr j ↦ j
                ],
              )
      ]
  | inr e ↦ elim (Bool-cases (text_eq k q)) [
    | inl d ↦
        rw (e, d)
          (
            λ i. inr i,
            λ i. elim i [
              | inl j ↦
                  let t = (text_eq_iff k p.project).1 ((text_eq_iff k q).0 d ∙ j.0) in
                  absurd (ground arith)
              | inr j ↦ j
            ],
          )
    | inr d ↦ rw (e, d) (add_entry-actions_of p m q a)
  ]
]

pub group-Distinct :
    (perms : List ProjectPermission) (m : Grouping)
    → Distinct (keys m)
    → Distinct (keys (group perms m))
unfolding group
group-Distinct [] m d = d
group-Distinct (p ∷ perms) m d = group-Distinct perms (add_entry p m) (add_entry-Distinct p m d)

pub group-SetsDistinct :
    (perms : List ProjectPermission) (m : Grouping) → SetsDistinct m → SetsDistinct (group perms m)
unfolding group
group-SetsDistinct [] m d = d
group-SetsDistinct (p ∷ perms) m d =
    group-SetsDistinct perms (add_entry p m) (add_entry-SetsDistinct p m d)

pub group-keys :
    (perms : List ProjectPermission) (m : Grouping) (q : Bytes)
    → In q (keys (group perms m)) ↔ (Lists q perms ⊎ In q (keys m))
unfolding group
group-keys [] m q = (λ i. inr i, λ i. elim i [ inl j ↦ absurd j | inr j ↦ j ])
group-keys (p ∷ perms) m q =
    let (f, g) = group-keys perms (add_entry p m) q in
    let (f', g') = add_entry-keys p m q in
    (
      λ i. elim (f i) [
        | inl j ↦ inl (inr j)
        | inr j ↦ elim (f' j) [ inl k ↦ inl (inl k) | inr k ↦ inr k ]
      ],
      λ i. elim i [
        | inl (inl j) ↦ g (inr (g' (inl j)))
        | inl (inr j) ↦ g (inl j)
        | inr j ↦ g (inr (g' (inr j)))
      ],
    )

pub group-actions_of :
    (perms : List ProjectPermission) (m : Grouping) (q a : Bytes)
    → In a (actions_of q (group perms m)) ↔ (Grants q a perms ⊎ In a (actions_of q m))
unfolding group
group-actions_of [] m q a = (λ i. inr i, λ i. elim i [ inl j ↦ absurd j | inr j ↦ j ])
group-actions_of (p ∷ perms) m q a =
    let (f, g) = group-actions_of perms (add_entry p m) q a in
    let (f', g') = add_entry-actions_of p m q a in
    (
      λ i. elim (f i) [
        | inl j ↦ inl (inr j)
        | inr j ↦ elim (f' j) [ inl k ↦ inl (inl k) | inr k ↦ inr k ]
      ],
      λ i. elim i [
        | inl (inl j) ↦ g (inr (g' (inl j)))
        | inl (inr j) ↦ g (inl j)
        | inr j ↦ g (inr (g' (inr j)))
      ],
    )

-- The actions that are kept are not empty and have no comma.
abbrev pub IsAction : Bytes → Type 0
IsAction a = (is_empty a ≡ false) × All (IsOther b',') a

kept_words-IsAction : (ws : List Bytes) → All (All (IsOther b',')) ws → All IsAction (kept_words ws)
unfolding kept_words
kept_words-IsAction [] h = tt
kept_words-IsAction (w ∷ ws) h = elim (Bool-cases (is_empty (trim_space w))) [
  | inl e ↦ rw e (kept_words-IsAction ws h.1)
  | inr e ↦ rw e ((e, trim_space-All (IsOther b',') w h.0), kept_words-IsAction ws h.1)
]

actions-IsAction : (action : Bytes) → All IsAction (actions action)
unfolding actions
actions-IsAction action = kept_words-IsAction (split b',' action) (split-IsOther b',' action)

pub Grants-IsAction : (q a : Bytes) (perms : List ProjectPermission) → Grants q a perms → IsAction a
Grants-IsAction q a [] g = absurd g
Grants-IsAction q a (p ∷ perms) (inl g) =
    All-In IsAction (actions p.action) (actions-IsAction p.action) g.1
Grants-IsAction q a (p ∷ perms) (inr g) = Grants-IsAction q a perms g

pub group-IsAction :
    (perms : List ProjectPermission) (q a : Bytes)
    → In a (actions_of q (group perms []))
    → IsAction a
unfolding actions_of
group-IsAction perms q a i = elim ((group-actions_of perms [] q a).0 i) [
  | inl g ↦ Grants-IsAction q a perms g
  | inr j ↦ absurd j
]
