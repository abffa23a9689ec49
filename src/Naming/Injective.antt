-- ===== src/Naming/Injective.antt =====
-- Robot names of two identities (`RobotName` of bridge/controlplane/harbor/naming.go).
use harbor_workload_identity.Base.{
  ℕ, suc, ◌+◌, ◌-◌, ◌≤◌, ◌<◌, Bool, true, false, ◌≡◌, ◌≢◌, ◌⊎◌, refl, sym, ap, ◌∙◌, [], ◌∷◌, ◌++◌,
  ok, length, take, take-append, length-append, append_assoc, append-cancel_tail, inl, inr,
  List-cases, arith,
}
use harbor_workload_identity.Text.{Bytes, trim_right, has_byte}
use harbor_workload_identity.Text.Prefix.{split_unique, append-cancel_left, has_byte-append_right}
use harbor_workload_identity.Naming.{
  robot_name_cap, cluster_prefix, natural_name, is_separator, robot_name,
}
use harbor_workload_identity.Naming.Ownership.{DotFree, length-cluster_prefix}
use harbor_workload_identity.Naming.Shape.{
  room, kept, NameShape, natural, truncated, digest_only, robot_name-NameShape,
}
use harbor_workload_identity.Naming.Bounds.{IsDigest}

pub trim_right-append :
    (p : ℕ → Bool) (s : Bytes) (c : ℕ) (t : Bytes)
    → p c ≡ false
    → trim_right p (s ++ c ∷ t) ≡ s ++ c ∷ trim_right p t
unfolding trim_right
trim_right-append p [] c t h = elim (List-cases (trim_right p t)) [
  | inl e ↦ rw (e, trim_right, h)
  | inr (d, r, e) ↦ rw (e, trim_right)
]
trim_right-append p (x ∷ []) c t h = rw (trim_right-append p [] c t h, trim_right)
trim_right-append p (x ∷ y ∷ s) c t h = rw (trim_right-append p (y ∷ s) c t h, trim_right)

-- A namespace and a ServiceAccount name as the CRD and Kubernetes admit them, of a cluster name as
-- the configuration admits it.
pub record IsIdentity (cluster ns sa : Bytes) : Type 0 where
  pub cluster_short : length cluster ≤ 63
  pub ns_short : length ns ≤ 63
  pub ns_dot_free : DotFree ns
  pub sa_dot_free : DotFree sa
  pub sa_head : ℕ
  pub sa_tail : Bytes
  pub sa_split : sa ≡ sa_head ∷ sa_tail
  pub sa_starts : is_separator sa_head ≡ false

module _ {cluster ns sa : Bytes} (i : IsIdentity cluster ns sa) where
  -- The cut falls inside the ServiceAccount's name.
  kept-split : (x : Bytes) × (kept cluster ns sa ≡ ns ++ b'.' ∷ x)
  kept-split =
      let stem : Bytes = ns ++ b'.' ∷ [] in
      let head : Bytes = stem ++ i.sa_head ∷ [] in
      let k : ℕ = room cluster - length head in
      let whole : ns ++ b'.' ∷ sa ≡ head ++ i.sa_tail = rw i.sa_split (simp append_assoc) in
      let fits : room cluster ≡ length head + k = omega (
        arith,
        length-append stem (i.sa_head ∷ []),
        length-append ns (b'.' ∷ []),
        length-cluster_prefix cluster,
      ) in
      let cut_at =
        ap (take (room cluster)) whole
        ∙ ap (λ n. take n (head ++ i.sa_tail)) fits
        ∙ take-append head i.sa_tail k
        ∙ append_assoc stem (i.sa_head ∷ []) (take k i.sa_tail) in
      (
        i.sa_head ∷ trim_right is_separator (take k i.sa_tail),
        ap (trim_right is_separator) cut_at
            ∙ trim_right-append is_separator stem i.sa_head (take k i.sa_tail) i.sa_starts
            ∙ append_assoc ns (b'.' ∷ []) (i.sa_head ∷ trim_right is_separator (take k i.sa_tail)),
      )

append-ne-nil : (s : Bytes) (c : ℕ) (t : Bytes) → s ++ c ∷ t ≢ []
append-ne-nil [] c t e = ground arith
append-ne-nil (x ∷ s) c t e = ground arith

kept-ne-nil : {cluster ns sa : Bytes} → IsIdentity cluster ns sa → kept cluster ns sa ≢ []
kept-ne-nil {ns} i e = let (x, f) = kept-split i in append-ne-nil ns b'.' x (sym f ∙ e)

-- A name without a dot behind the namespace is no truncated name.
natural-ne-truncated :
    (ns sa ns' kept_bytes digest : Bytes)
    → DotFree ns
    → DotFree sa
    → DotFree ns'
    → (x : Bytes) × (kept_bytes ≡ ns' ++ b'.' ∷ x)
    → ns ++ b'.' ∷ sa ≢ kept_bytes ++ b'.' ∷ digest
natural-ne-truncated ns sa ns' kept_bytes digest fn fs fn' (x, k) e =
    let split =
      (split_unique b'.' ns ns' sa (x ++ b'.' ∷ digest) fn fn'
        (e ∙ ap (λ s. s ++ b'.' ∷ digest) k ∙ append_assoc ns' (b'.' ∷ x) (b'.' ∷ digest))).1 in
    let dotted : has_byte b'.' (x ++ b'.' ∷ digest) ≡ true =
      has_byte-append_right b'.' x (b'.' ∷ digest) (unfold has_byte in refl) in
    cc (ap (has_byte b'.') split, dotted, fs)

digests-eq : (s s' t t' : Bytes) → length t ≡ length t' → s ++ b'.' ∷ t ≡ s' ++ b'.' ∷ t' → t ≡ t'
digests-eq s s' t t' h e =
    let dotted = append-cancel_tail s s' (b'.' ∷ t) (b'.' ∷ t') (ap suc h) e in ground arith

module _ (hash_of : Bytes → Bytes) (cluster ns sa ns' sa' : Bytes) where
  -- Both names are cut, and their digests are equal.
  abbrev pub DigestsCollide : Type 0
  DigestsCollide =
      (robot_name_cap < length (natural_name cluster ns sa))
      × (robot_name_cap < length (natural_name cluster ns' sa'))
      × (hash_of (natural_name cluster ns sa) ≡ hash_of (natural_name cluster ns' sa'))

  NameShape-unique :
      {name : Bytes}
      → IsDigest hash_of
      → IsIdentity cluster ns sa
      → IsIdentity cluster ns' sa'
      → NameShape hash_of cluster ns sa name
      → NameShape hash_of cluster ns' sa' name
      → ((ns ≡ ns') × (sa ≡ sa')) ⊎ DigestsCollide
  unfolding natural_name
  NameShape-unique d i j (natural _ e) (natural _ f) = inl (
      split_unique b'.' ns ns' sa sa' i.ns_dot_free j.ns_dot_free
        (append-cancel_left (cluster_prefix cluster) _ _ (sym e ∙ f)))
  NameShape-unique d i j (natural _ e) (truncated _ _ f) = absurd (
      natural-ne-truncated ns sa ns' _ _ i.ns_dot_free i.sa_dot_free j.ns_dot_free (kept-split j)
        (append-cancel_left (cluster_prefix cluster) _ _ (sym e ∙ f)))
  NameShape-unique d i j (truncated _ _ e) (natural _ f) = absurd (
      natural-ne-truncated ns' sa' ns _ _ j.ns_dot_free j.sa_dot_free i.ns_dot_free (kept-split i)
        (append-cancel_left (cluster_prefix cluster) _ _ (sym f ∙ e)))
  NameShape-unique d i j (truncated over _ e) (truncated over' _ f) = inr (
    over,
    over',
    digests-eq (kept cluster ns sa) (kept cluster ns' sa') _ _
        (d (natural_name cluster ns sa) ∙ sym (d (natural_name cluster ns' sa')))
        (append-cancel_left (cluster_prefix cluster) _ _ (sym e ∙ f)),
  )
  NameShape-unique d i j (digest_only _ _ nothing _) _ = absurd (kept-ne-nil i nothing)
  NameShape-unique d i j _ (digest_only _ _ nothing _) = absurd (kept-ne-nil j nothing)

  -- Two identities that map to one robot name are the same identity, or their natural names are both
  -- over the cap and have the same digest.
  pub robot_name_injective :
      {name : Bytes}
      → IsDigest hash_of
      → IsIdentity cluster ns sa
      → IsIdentity cluster ns' sa'
      → robot_name hash_of cluster ns sa ≡ ok name
      → robot_name hash_of cluster ns' sa' ≡ ok name
      → ((ns ≡ ns') × (sa ≡ sa')) ⊎ DigestsCollide
  robot_name_injective d i j e f =
      NameShape-unique d i j (robot_name-NameShape hash_of cluster ns sa e).0
        (robot_name-NameShape hash_of cluster ns' sa' f).0
