-- ===== src/HarborClient/Robots/Echoed.antt =====
-- Grants that Harbor returns as they were written (`toHarborPermissions`, `fromHarborRobot` and
-- `PermissionsMatch` of bridge/controlplane/harbor/client.go).
use harbor_workload_identity.Base.{
  true, false, ◌≡◌, ◌↔◌, inl, inr, sym, ap, subst, ◌∙◌, List, [], ◌∷◌, ◌++◌, map, In, All, Result,
  ok, ok_injective, Bool-cases, arith,
}
use harbor_workload_identity.Text.{Bytes, text_lt}
use harbor_workload_identity.Text.Split.{split}
use harbor_workload_identity.Sorting.{sort_by-to, sort_by-from, All-intro}
use harbor_workload_identity.Naming.{ProjectPermission}
use harbor_workload_identity.Contract.{Robot}
use harbor_workload_identity.HarborClient.Permissions.{
  group, keys, actions_of, action_rank, entry, normalize_permissions, permissions_match,
}
use harbor_workload_identity.HarborClient.Permissions.Entries.{Lists, Grants, actions_of-keys}
use harbor_workload_identity.HarborClient.Permissions.Canonical.{
  SameGrants, actions_iff, sorted_keys, sorted_actions, sorted_actions-IsAction,
  permissions_match_iff,
}
use harbor_workload_identity.HarborClient.Permissions.Stable.{
  Grants-single, normalize_permissions-Lists, normalize_permissions-Grants,
}
use harbor_workload_identity.HarborClient.Robots.{
  to_harbor_permissions, read_permissions, robot_of, HarborRobot, ClientError, is_accounted_for,
  from_harbor_robot,
}
use harbor_workload_identity.HarborClient.Robots.Singles.{
  Grants-Lists, Grants-append, IsGranting, IsSingle, Lists-Grants, Lists-append, echoed,
  read_permissions-echoed, singles, singles-Grants, singles-Lists, singles-join,
}

module _ (perms : List ProjectPermission) where
  sorted_actions-IsSingle : (q : Bytes) → All IsSingle (sorted_actions perms q)
  sorted_actions-IsSingle q = All-intro IsSingle (sorted_actions perms q) (λ a i.
      Grants-single q a perms
        ((actions_iff perms q a).0 (sort_by-to action_rank (actions_of q (group perms [])) a i)))

  entry_echo :
      (q : Bytes)
      → singles q (split b',' (entry (group perms []) q).action)
        ≡ singles q (sorted_actions perms q)
  unfolding entry
  entry_echo q = singles-join q (sorted_actions perms q) (sorted_actions-IsAction perms q)

  echoed-Grants :
      (ks : List Bytes) (q a : Bytes)
      → Grants q a (echoed (map (entry (group perms [])) ks))
        ↔ (In q ks × In a (sorted_actions perms q))
  unfolding entry
  echoed-Grants [] q a = (λ i. absurd i, λ i. absurd i.0)
  echoed-Grants (k ∷ ks) q a =
      let rest = echoed (map (entry (group perms [])) ks) in
      let (f, g) = echoed-Grants ks q a in
      let (f', g') = Grants-append q a (singles k (sorted_actions perms k)) rest in
      let (f'', g'') =
        singles-Grants k (sorted_actions perms k) q a (sorted_actions-IsAction perms k)
          (sorted_actions-IsSingle k) in
      rw (singles-join k (sorted_actions perms k) (sorted_actions-IsAction perms k)) (
        λ i. elim (f' i) [
          | inl j ↦ let (e, h) = f'' j in (inl e, rw e h)
          | inr j ↦ let (l, h) = f j in (inr l, h)
        ],
        λ i. elim i.0 [ inl e ↦ g' (inl (g'' (e, rw e at i.1))) | inr l ↦ g' (inr (g (l, i.1))) ],
      )

  -- What is read of the grants as they were written.
  abbrev read_back : List ProjectPermission
  read_back = (read_permissions (to_harbor_permissions perms)).grants

  read_back-echoed : read_permissions (to_harbor_permissions perms) ≡ record {
    grants = echoed (map (entry (group perms [])) (sorted_keys perms));
    foreign = false;
  }
  unfolding to_harbor_permissions normalize_permissions
  read_back-echoed = read_permissions-echoed (map (entry (group perms [])) (sorted_keys perms))

  read_back-Grants : (q a : Bytes) → Grants q a read_back ↔ Grants q a perms
  read_back-Grants q a =
      let (f, g) = echoed-Grants (sorted_keys perms) q a in
      let (f', g') = actions_iff perms q a in
      let members = actions_of q (group perms []) in
      let listed = echoed (map (entry (group perms [])) (sorted_keys perms)) in
      let same : read_back ≡ listed = ap (λ reading. reading.grants) read_back-echoed in
      subst (λ l. Grants q a l ↔ Grants q a perms) (sym same)
        (
          λ i. f' (sort_by-to action_rank members a (f i).1),
          λ i.
              let held = g' i in
              g (
                sort_by-from text_lt (keys (group perms [])) q
                    (actions_of-keys q a (group perms []) held),
                sort_by-from action_rank members a held,
              ),
        )

  echoed-Lists :
      (ks : List Bytes) (q : Bytes)
      → Lists q (echoed (map (entry (group perms [])) ks))
      → (a : Bytes) × In a (sorted_actions perms q)
  unfolding entry
  echoed-Lists [] q i = absurd i
  echoed-Lists (k ∷ ks) q i =
      let rest = echoed (map (entry (group perms [])) ks) in
      let (f, g) = Lists-append q (singles k (sorted_actions perms k)) rest in
      let (f', g') = singles-Lists k (sorted_actions perms k) q (sorted_actions-IsAction perms k) in
      let i' : Lists q (singles k (sorted_actions perms k) ++ rest) =
        rw (singles-join k (sorted_actions perms k) (sorted_actions-IsAction perms k)) at i in
      elim (f i') [ inl j ↦ let (e, a, h) = f' j in (a, rw e h) | inr j ↦ echoed-Lists ks q j ]

  read_back-Lists : (q : Bytes) → Lists q read_back → Lists q perms
  read_back-Lists q i =
      let listed = echoed (map (entry (group perms [])) (sorted_keys perms)) in
      let same : read_back ≡ listed = ap (λ reading. reading.grants) read_back-echoed in
      let (a, h) = echoed-Lists (sorted_keys perms) q (subst (Lists q) same i) in
      Grants-Lists q a perms
        ((actions_iff perms q a).0 (sort_by-to action_rank (actions_of q (group perms [])) a h))

  Lists-read_back : (q : Bytes) → All IsGranting perms → Lists q perms → Lists q read_back
  Lists-read_back q h i =
      let (a, g) = Lists-Grants q perms h i in
      Grants-Lists q a read_back ((read_back-Grants q a).1 g)

  -- A robot that Harbor returns with the grants that were written for a list of grants, each with an
  -- action, matches that list.
  pub from_harbor_robot-permissions_match :
      {E : Type 0} (prefix : Bytes) (r : HarborRobot) (robot : Robot)
      → All IsGranting perms
      → r.permissions ≡ to_harbor_permissions perms
      → ◌≡◌ {A = Result (ClientError E) Robot} (from_harbor_robot prefix r) (ok robot)
      → permissions_match robot perms ≡ true
  unfolding from_harbor_robot robot_of
  from_harbor_robot-permissions_match {E} prefix r robot h written read =
      elim (Bool-cases (is_accounted_for prefix r)) [
        | inr e ↦ absurd (ground arith)
        | inl e ↦
            let opened : ◌≡◌ {A = Result (ClientError E) Robot} (ok (robot_of prefix r))
                (ok robot) =
              rw e at read in
            let here : robot_of prefix r ≡ robot = ok_injective opened in
            let reading : read_permissions r.permissions
                ≡ read_permissions (to_harbor_permissions perms) =
              ap read_permissions written in
            let foreign : (read_permissions r.permissions).foreign ≡ false =
              ap (λ x. x.foreign) (reading ∙ read_back-echoed) in
            let grants : (read_permissions r.permissions).grants ≡ read_back =
              ap (λ x. x.grants) reading in
            let same : SameGrants (normalize_permissions read_back) perms = λ q. (
              (
                λ i. read_back-Lists q ((normalize_permissions-Lists read_back q).0 i),
                λ i. (normalize_permissions-Lists read_back q).1 (Lists-read_back q h i),
              ),
              λ a. (
                λ g. (read_back-Grants q a).0 ((normalize_permissions-Grants read_back q a).0 g),
                λ g. (normalize_permissions-Grants read_back q a).1 ((read_back-Grants q a).1 g),
              ),
            ) in
            subst (λ x. permissions_match x perms ≡ true) here
              ((permissions_match_iff (robot_of prefix r) perms).1 (
                foreign,
                subst (λ l. SameGrants (normalize_permissions l) perms) (sym grants) same,
              ))
      ]
