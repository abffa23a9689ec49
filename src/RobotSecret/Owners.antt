-- ===== src/RobotSecret/Owners.antt =====
-- The owner in a Secret's labels (`Labels`, `Owner` and `StampedForOther` of
-- bridge/internal/robotsecret/robotsecret.go).
use harbor_workload_identity.Base.{
  true, false, ◌≡◌, ◌≢◌, ◌↔◌, refl, sym, ap, ◌∙◌, [], ◌∷◌, some, arith,
}
use harbor_workload_identity.Text.{Bytes, text_eq}
use harbor_workload_identity.Text.Prefix.{text_eq_iff}
use harbor_workload_identity.Dict.{Dict, get, insert_all, get-insert}
use harbor_workload_identity.RobotSecret.{
  Secret, label_managed_by, label_managed_by_value, label_cluster, label_harbor_access_namespace,
  label_harbor_access_name, owner_labels, nonempty_pair, is_managed, owner, stamped_for_other,
}

module _ (cluster namespace name : Bytes) (m : Dict) where
  pub get-managed_by :
      get label_managed_by (insert_all (owner_labels cluster namespace name) m)
      ≡ label_managed_by_value
  unfolding insert_all owner_labels text_eq
  get-managed_by = simp get-insert

  pub get-cluster : get label_cluster (insert_all (owner_labels cluster namespace name) m) ≡ cluster
  unfolding insert_all owner_labels text_eq
  get-cluster = simp get-insert

  pub get-namespace :
      get label_harbor_access_namespace (insert_all (owner_labels cluster namespace name) m)
      ≡ namespace
  unfolding insert_all owner_labels text_eq
  get-namespace = simp get-insert

  pub get-name :
      get label_harbor_access_name (insert_all (owner_labels cluster namespace name) m) ≡ name
  unfolding insert_all owner_labels text_eq
  get-name = simp get-insert

module _ (s : Secret) where
  -- The labels name the HarborAccess and mark the Secret as the bridge's.
  abbrev pub NamesOwner : Bytes → Bytes → Type 0
  NamesOwner namespace name =
      (get label_managed_by s.labels ≡ label_managed_by_value)
      × (get label_harbor_access_namespace s.labels ≡ namespace)
      × (get label_harbor_access_name s.labels ≡ name)

  pub is_managed_iff :
      (is_managed s ≡ true) ↔ (get label_managed_by s.labels ≡ label_managed_by_value)
  unfolding is_managed
  is_managed_iff = text_eq_iff _ _

  -- A managed Secret is not stamped for another HarborAccess exactly when its labels name this one.
  pub stamped_for_other_iff :
      (namespace name : Bytes)
      → ((is_managed s ≡ true) × (stamped_for_other s namespace name ≡ false))
        ↔ NamesOwner namespace name
  unfolding stamped_for_other
  stamped_for_other_iff namespace name =
      let b = text_eq_iff (get label_harbor_access_namespace s.labels) namespace in
      let c = text_eq_iff (get label_harbor_access_name s.labels) name in
      (
        λ h. (is_managed_iff.0 h.0, b.0 (ground arith), c.0 (ground arith)),
        λ h. (is_managed_iff.1 h.0, ground (arith, b.1 h.1, c.1 h.2, is_managed_iff.1 h.0)),
      )

pub nonempty_pair-some : (a b : Bytes) → a ≢ [] → b ≢ [] → nonempty_pair (some (a, b)) ≡ some (a, b)
nonempty_pair-some [] b n m = absurd (n refl)
nonempty_pair-some (c ∷ a) [] n m = absurd (m refl)
nonempty_pair-some (c ∷ a) (d ∷ b) n m = refl

-- The labels that the control plane writes, over whatever labels were there, make a Secret managed and
-- stamped for this HarborAccess and no other, if its namespace and name are not empty.
pub owner-owner_labels :
    (s : Secret) (cluster namespace name : Bytes) (old : Dict)
    → s.labels ≡ insert_all (owner_labels cluster namespace name) old
    → namespace ≢ []
    → name ≢ []
    → (owner s ≡ some (namespace, name))
      × ((ns' name' : Bytes)
          → (stamped_for_other s ns' name' ≡ false) ↔ ((namespace ≡ ns') × (name ≡ name')))
unfolding owner
owner-owner_labels s cluster namespace name old written n m =
    let in_namespace : get label_harbor_access_namespace s.labels ≡ namespace =
      ap (get label_harbor_access_namespace) written ∙ get-namespace cluster namespace name old in
    let named : get label_harbor_access_name s.labels ≡ name =
      ap (get label_harbor_access_name) written ∙ get-name cluster namespace name old in
    let managed : is_managed s ≡ true =
      (is_managed_iff s).1
        (ap (get label_managed_by) written ∙ get-managed_by cluster namespace name old) in
    (
      rw (managed, in_namespace, named) (nonempty_pair-some namespace name n m),
      λ ns' name'.
          let e = stamped_for_other_iff s ns' name' in
          (
            λ h. let names = e.0 (managed, h) in (sym in_namespace ∙ names.1, sym named ∙ names.2),
            λ h. (e.1 ((is_managed_iff s).0 managed, in_namespace ∙ h.0, named ∙ h.1)).1,
          ),
    )
