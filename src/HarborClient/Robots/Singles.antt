-- ===== src/HarborClient/Robots/Singles.antt =====
-- The grants of a robot as Harbor returns them, one action each (`toHarborPermissions` and
-- `fromHarborRobot` of bridge/controlplane/harbor/client.go).
use harbor_workload_identity.Base.{
  false, ◌≡◌, ◌≢◌, ◌↔◌, ◌⊎◌, inl, inr, refl, ap, List, [], ◌∷◌, ◌++◌, map, In, All, Bool-cases,
  List-cases, if◌then◌else◌, arith,
}
use harbor_workload_identity.Text.{Bytes, is_empty, text_eq}
use harbor_workload_identity.Text.Split.{split, join, split-join}
use harbor_workload_identity.Naming.{ProjectPermission}
use harbor_workload_identity.HarborClient.Permissions.{actions}
use harbor_workload_identity.HarborClient.Permissions.Grouped.{IsAction}
use harbor_workload_identity.HarborClient.Permissions.Entries.{Lists, Grants}
use harbor_workload_identity.HarborClient.Permissions.Canonical.{All-IsOther}
use harbor_workload_identity.HarborClient.Robots.{
  accesses_of, permission_of, and_grant, read_accesses, read_permissions, is_foreign,
}

-- One grant per word that is not empty.
abbrev pub singles : Bytes → List Bytes → List ProjectPermission
singles ns [] = []
singles ns (w ∷ ws) =
    let rest = singles ns ws in
    if is_empty w then rest else record { project = ns; action = w } ∷ rest

read_accesses-accesses_of :
    (ns : Bytes) (ws : List Bytes)
    → read_accesses ns (accesses_of ws) ≡ record { grants = singles ns ws; foreign = false }
unfolding read_accesses accesses_of is_foreign text_eq
read_accesses-accesses_of ns [] = refl
read_accesses-accesses_of ns (w ∷ ws) = elim (Bool-cases (is_empty w)) [
  | inl e ↦ rw e (read_accesses-accesses_of ns ws)
  | inr e ↦
      rw e (ap (and_grant (record { project = ns; action = w })) (read_accesses-accesses_of ns ws))
]

-- The grants of the entries, in their order.
abbrev pub echoed : List ProjectPermission → List ProjectPermission
echoed [] = []
echoed (p ∷ perms) = singles p.project (split b',' p.action) ++ echoed perms

pub read_permissions-echoed :
    (perms : List ProjectPermission)
    → read_permissions (map permission_of perms) ≡ record { grants = echoed perms; foreign = false }
unfolding read_permissions permission_of text_eq
read_permissions-echoed [] = refl
read_permissions-echoed (p ∷ perms) =
    rw (read_accesses-accesses_of p.project (split b',' p.action), read_permissions-echoed perms)
      refl

pub singles-join :
    (ns : Bytes) (ws : List Bytes)
    → All IsAction ws
    → singles ns (split b',' (join (b',' ∷ []) ws)) ≡ singles ns ws
singles-join ns [] h = unfold join split in refl
singles-join ns (w ∷ ws) h = ap (singles ns) (split-join b',' w ws (All-IsOther (w ∷ ws) h))

-- Every word is one action.
abbrev pub IsSingle : Bytes → Type 0
IsSingle a = actions a ≡ a ∷ []

pub singles-Lists :
    (ns : Bytes) (ws : List Bytes) (q : Bytes)
    → All IsAction ws
    → Lists q (singles ns ws) ↔ ((q ≡ ns) × (a : Bytes) × In a ws)
singles-Lists ns [] q h = (λ i. absurd i, λ i. absurd i.2)
singles-Lists ns (w ∷ ws) q h =
    let (f, g) = singles-Lists ns ws q h.1 in
    rw h.0.0 (
      λ i. elim i [ inl e ↦ (e, w, inl refl) | inr j ↦ let (e, a, k) = f j in (e, a, inr k) ],
      λ i. inl i.0,
    )

pub singles-Grants :
    (ns : Bytes) (ws : List Bytes) (q a : Bytes)
    → All IsAction ws
    → All IsSingle ws
    → Grants q a (singles ns ws) ↔ ((q ≡ ns) × In a ws)
singles-Grants ns [] q a h s = (λ i. absurd i, λ i. absurd i.1)
singles-Grants ns (w ∷ ws) q a h s =
    let (f, g) = singles-Grants ns ws q a h.1 s.1 in
    rw h.0.0 (
      λ i. elim i [
        | inl j ↦
            let one : In a (w ∷ []) = rw s.0 at j.1 in
            (j.0, elim one [ inl e ↦ inl e | inr k ↦ absurd k ])
        | inr j ↦ let (e, k) = f j in (e, inr k)
      ],
      λ i. elim i.1 [ inl e ↦ inl (i.0, rw s.0 (inl e)) | inr k ↦ inr (g (i.0, k)) ],
    )

pub Lists-append :
    (q : Bytes) (xs ys : List ProjectPermission) → Lists q (xs ++ ys) ↔ (Lists q xs ⊎ Lists q ys)
Lists-append q [] ys = (λ i. inr i, λ i. elim i [ inl j ↦ absurd j | inr j ↦ j ])
Lists-append q (x ∷ xs) ys = ground (arith, Lists-append q xs ys)

pub Grants-append :
    (q a : Bytes) (xs ys : List ProjectPermission)
    → Grants q a (xs ++ ys) ↔ (Grants q a xs ⊎ Grants q a ys)
Grants-append q a [] ys = (λ i. inr i, λ i. elim i [ inl j ↦ absurd j | inr j ↦ j ])
Grants-append q a (x ∷ xs) ys =
    let (f, g) = Grants-append q a xs ys in
    (
      λ i. elim i [
        | inl j ↦ inl (inl j)
        | inr j ↦ elim (f j) [ inl k ↦ inl (inr k) | inr k ↦ inr k ]
      ],
      λ i. elim i [ inl (inl j) ↦ inl j | inl (inr j) ↦ inr (g (inl j)) | inr j ↦ inr (g (inr j)) ],
    )

pub Grants-Lists : (q a : Bytes) (perms : List ProjectPermission) → Grants q a perms → Lists q perms
Grants-Lists q a [] g = g
Grants-Lists q a (p ∷ perms) (inl g) = inl g.0
Grants-Lists q a (p ∷ perms) (inr g) = inr (Grants-Lists q a perms g)

-- Every entry grants an action.
abbrev pub IsGranting : ProjectPermission → Type 0
IsGranting p = actions p.action ≢ []

pub Lists-Grants :
    (q : Bytes) (perms : List ProjectPermission)
    → All IsGranting perms
    → Lists q perms
    → (a : Bytes) × Grants q a perms
Lists-Grants q [] h i = absurd i
Lists-Grants q (p ∷ perms) h (inl e) = elim (List-cases (actions p.action)) [
  | inl none_left ↦ absurd (h.0 none_left)
  | inr (a, rest, split_off) ↦ (a, inl (e, rw split_off (inl refl)))
]
Lists-Grants q (p ∷ perms) h (inr i) = let (a, g) = Lists-Grants q perms h.1 i in (a, inr g)
