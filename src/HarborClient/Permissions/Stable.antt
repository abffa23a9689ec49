-- ===== src/HarborClient/Permissions/Stable.antt =====
-- Normal forms and single grants as `normalizePermissions` reads them again
-- (bridge/controlplane/harbor/client.go).
use harbor_workload_identity.Base.{
  ◌≡◌, ◌↔◌, inl, inr, refl, sym, ap, ◌∙◌, List, [], ◌∷◌, map, In, All, Bool-cases,
}
use harbor_workload_identity.Text.{Bytes, is_empty, text_lt}
use harbor_workload_identity.Text.Split.{split, join, trim_space, split-join, split_last}
use harbor_workload_identity.Text.Trim.{trim_space_idem}
use harbor_workload_identity.Sorting.{All-In, All-intro, sort_by-to, sort_by-from}
use harbor_workload_identity.Naming.{ProjectPermission}
use harbor_workload_identity.HarborClient.Permissions.{
  kept_words, actions, Grouping, group, keys, actions_of, action_rank, entry, normalize_permissions,
}
use harbor_workload_identity.HarborClient.Permissions.Grouped.{IsAction, Grants-IsAction}
use harbor_workload_identity.HarborClient.Permissions.Entries.{Lists, Grants, actions_of-keys}
use harbor_workload_identity.HarborClient.Permissions.Canonical.{
  keys_iff, actions_iff, sorted_keys, sorted_actions, sorted_actions-IsAction, All-IsOther,
  normalize_permissions_iff,
}

abbrev pub IsTrimmed : Bytes → Type 0
IsTrimmed a = trim_space a ≡ a

kept_words-IsTrimmed : (ws : List Bytes) → All IsTrimmed (kept_words ws)
unfolding kept_words
kept_words-IsTrimmed [] = tt
kept_words-IsTrimmed (w ∷ ws) = elim (Bool-cases (is_empty (trim_space w))) [
  | inl e ↦ rw e (kept_words-IsTrimmed ws)
  | inr e ↦ rw e (trim_space_idem w, kept_words-IsTrimmed ws)
]

Grants-IsTrimmed : (q a : Bytes) (perms : List ProjectPermission) → Grants q a perms → IsTrimmed a
unfolding actions
Grants-IsTrimmed q a [] g = absurd g
Grants-IsTrimmed q a (p ∷ perms) (inl g) =
    All-In IsTrimmed (actions p.action) (kept_words-IsTrimmed (split b',' p.action)) g.1
Grants-IsTrimmed q a (p ∷ perms) (inr g) = Grants-IsTrimmed q a perms g

sorted_actions-IsTrimmed :
    (perms : List ProjectPermission) (q : Bytes) → All IsTrimmed (sorted_actions perms q)
sorted_actions-IsTrimmed perms q = All-intro IsTrimmed (sorted_actions perms q) (λ a i.
    Grants-IsTrimmed q a perms
      ((actions_iff perms q a).0 (sort_by-to action_rank (actions_of q (group perms [])) a i)))

kept_words_self : (ws : List Bytes) → All IsAction ws → All IsTrimmed ws → kept_words ws ≡ ws
unfolding kept_words
kept_words_self [] h t = refl
kept_words_self (w ∷ ws) h t = rw (t.0, h.0.0) (ap (◌∷◌ w) (kept_words_self ws h.1 t.1))

pub actions-join :
    (ws : List Bytes) → All IsAction ws → All IsTrimmed ws → actions (join (b',' ∷ []) ws) ≡ ws
unfolding actions
actions-join [] h t = unfold join split kept_words trim_space in refl
actions-join (w ∷ ws) h t =
    ap kept_words (split-join b',' w ws (All-IsOther (w ∷ ws) h)) ∙ kept_words_self (w ∷ ws) h t

-- An action alone is one action.
pub actions-single : (a : Bytes) → IsAction a → IsTrimmed a → actions a ≡ a ∷ []
unfolding actions
actions-single a h t =
    ap kept_words (split_last b',' a h.1) ∙ kept_words_self (a ∷ []) (h, tt) (t, tt)

pub Grants-single :
    (q a : Bytes) (perms : List ProjectPermission) → Grants q a perms → actions a ≡ a ∷ []
Grants-single q a perms g =
    actions-single a (Grants-IsAction q a perms g) (Grants-IsTrimmed q a perms g)

-- The projects and the actions that the entries of some projects grant.
Lists-entries : (m : Grouping) (qs : List Bytes) (q : Bytes) → Lists q (map (entry m) qs) ↔ In q qs
unfolding entry
Lists-entries m [] q = (λ i. i, λ i. i)
Lists-entries m (k ∷ qs) q =
    let (f, g) = Lists-entries m qs q in
    (
      λ i. elim i [ inl e ↦ inl e | inr j ↦ inr (f j) ],
      λ i. elim i [ inl e ↦ inl e | inr j ↦ inr (g j) ],
    )

Grants-entries :
    (m : Grouping) (qs : List Bytes) (q a : Bytes)
    → Grants q a (map (entry m) qs) ↔ (In q qs × In a (actions (entry m q).action))
unfolding entry
Grants-entries m [] q a = (λ g. absurd g, λ g. absurd g.0)
Grants-entries m (k ∷ qs) q a =
    let (f, g) = Grants-entries m qs q a in
    (
      λ i. elim i [
        | inl j ↦ (inl j.0, rw (sym j.0) at j.1)
        | inr j ↦ let (h, t) = f j in (inr h, t)
      ],
      λ i. elim i.0 [ inl e ↦ inl (e, rw e at i.1) | inr j ↦ inr (g (j, i.1)) ],
    )

entry_action :
    (perms : List ProjectPermission) (q : Bytes)
    → actions (entry (group perms []) q).action ≡ sorted_actions perms q
unfolding entry
entry_action perms q =
    actions-join (sorted_actions perms q) (sorted_actions-IsAction perms q)
      (sorted_actions-IsTrimmed perms q)

pub normalize_permissions-Lists :
    (perms : List ProjectPermission) (q : Bytes)
    → Lists q (normalize_permissions perms) ↔ Lists q perms
unfolding normalize_permissions
normalize_permissions-Lists perms q =
    let (f, g) = Lists-entries (group perms []) (sorted_keys perms) q in
    let (f', g') = keys_iff perms q in
    (
      λ i. f' (sort_by-to text_lt (keys (group perms [])) q (f i)),
      λ i. g (sort_by-from text_lt (keys (group perms [])) q (g' i)),
    )

pub normalize_permissions-Grants :
    (perms : List ProjectPermission) (q a : Bytes)
    → Grants q a (normalize_permissions perms) ↔ Grants q a perms
unfolding normalize_permissions
normalize_permissions-Grants perms q a =
    let (f, g) = Grants-entries (group perms []) (sorted_keys perms) q a in
    let (f', g') = actions_iff perms q a in
    (
      λ i. f' (
          sort_by-to action_rank (actions_of q (group perms [])) a
            (rw (entry_action perms q) at (f i).1)),
      λ i.
          let held = g' i in
          g (
            sort_by-from text_lt (keys (group perms [])) q
                (actions_of-keys q a (group perms []) held),
            rw (entry_action perms q)
                (sort_by-from action_rank (actions_of q (group perms [])) a held),
          ),
    )

-- Normalizing twice is normalizing once.
pub normalize_permissions_idem :
    (perms : List ProjectPermission)
    → normalize_permissions (normalize_permissions perms) ≡ normalize_permissions perms
normalize_permissions_idem perms =
    (normalize_permissions_iff (normalize_permissions perms) perms).1
      (λ q. (normalize_permissions-Lists perms q, normalize_permissions-Grants perms q))
