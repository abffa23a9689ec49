-- ===== src/Dataplane/Matching/Selection.antt =====
-- The results of `findHarborAccess` (bridge/dataplane/handler.go) on a whole listing.
use harbor_workload_identity.Base.{
  true, false, ◌≡◌, ◌↔◌, refl, sym, ap, ◌∙◌, List, [], ◌∷◌, Option, none, some, is_some, In, inl,
  inr, Option-cases, arith,
}
use harbor_workload_identity.Text.{Bytes}
use harbor_workload_identity.HarborAccess.{HarborAccess}
use harbor_workload_identity.Dataplane.Matching.Order.{
  name_less-connected, first-by_name, first-by_name-none,
}
use harbor_workload_identity.Dataplane.Matching.Sound.{
  Serves, matching_audience-Serves, Serves-matching_audience, Kept, In-collect, collect-In,
}
use harbor_workload_identity.Dataplane.Matching.{
  Claims, Match, collect, name_less, by_name, first, pick, find_harbor_access,
}

is_some-false : {A : Type 0} (o : Option A) → is_some o ≡ false → o ≡ none
is_some-false none h = refl
is_some-false (some a) h = absurd (ground arith)

-- A HarborAccess that may be served: it serves the token, and its deletion has not begun.
abbrev pub Live : Bytes → Claims → HarborAccess → Type 0
Live served claims ha = Serves served claims ha × (ha.deletion_timestamp ≡ none)

Live-Kept :
    {served : Bytes} {claims : Claims} (items : List HarborAccess) {ha : HarborAccess}
    → In ha items
    → Live served claims ha
    → Kept false served claims items (record { ha = ha; aud = ha.spec.trust_policy.audience })
Live-Kept items i l = (i, Serves-matching_audience l.0, rw l.1)

Kept-Live :
    {served : Bytes} {claims : Claims} (items : List HarborAccess) (m : Match)
    → Kept false served claims items m
    → Live served claims m.ha × (m.aud ≡ m.ha.spec.trust_policy.audience)
Kept-Live {served} {claims} items m (i, e, d) =
    let (s, a) = matching_audience-Serves served claims m.ha {aud = m.aud} e in
    ((s, is_some-false m.ha.deletion_timestamp d), a)

pick-matched : (ms ds : List Match) → (pick ms ds).matched ≡ first (by_name ms)
pick-matched [] ds = unfold by_name in refl
pick-matched (m ∷ ms) ds = refl

module _ (served : Bytes) (claims : Claims) (items : List HarborAccess) where
  -- The HarborAccess that is selected is one of the listed ones, serves the token and is not being
  -- deleted; the audience reported is its own; and no other such object comes before it by namespace
  -- and name.
  pub find_harbor_access-matched :
      {m : Match}
      → (find_harbor_access served claims items).matched ≡ some m
      → In m.ha items
        × Live served claims m.ha
        × (m.aud ≡ m.ha.spec.trust_policy.audience)
        × ((ha : HarborAccess)
            → In ha items
            → Live served claims ha
            → name_less (record { ha = ha; aud = ha.spec.trust_policy.audience }) m ≡ false)
  unfolding find_harbor_access
  find_harbor_access-matched {m} e =
      let matches : List Match = collect false served claims items in
      let (i, least) =
        first-by_name matches {h = m}
          (sym (pick-matched matches (collect true served claims items)) ∙ e) in
      let kept = In-collect false served claims items m i in
      let (live, a) = Kept-Live items m kept in
      (
        kept.0,
        live,
        a,
        λ ha j l. least _ (collect-In false served claims items _ (Live-Kept items j l)),
      )

  -- None is selected exactly when no listed HarborAccess that is not being deleted serves the token.
  pub find_harbor_access-none_iff :
      ((find_harbor_access served claims items).matched ≡ none)
      ↔ ((ha : HarborAccess) → In ha items → ¬ Live served claims ha)
  unfolding find_harbor_access
  find_harbor_access-none_iff =
      let matches : List Match = collect false served claims items in
      let deleting : List Match = collect true served claims items in
      (
        λ e ha i l.
            let nothing = first-by_name-none matches (sym (pick-matched matches deleting) ∙ e) in
            rw nothing at (collect-In false served claims items _ (Live-Kept items i l)),
        λ nobody. elim (Option-cases (find_harbor_access served claims items).matched) [
          | inl e ↦ e
          | inr (m, e) ↦
              let (i, l, _, _) = find_harbor_access-matched {m = m} e in absurd (nobody m.ha i l)
        ],
      )

name_less-aud :
    (a b : Match) (aud : Bytes) → name_less (record { ha = a.ha; aud = aud }) b ≡ name_less a b
unfolding name_less
name_less-aud a b aud = refl

-- The lists hold the same objects.
abbrev pub SameObjects : List HarborAccess → List HarborAccess → Type 0
SameObjects xs ys = (ha : HarborAccess) → In ha xs ↔ In ha ys

-- Objects of one namespace and name are one object, as in any Kubernetes listing.
abbrev pub KeysDetermine : List HarborAccess → Type 0
KeysDetermine xs =
    (a b : HarborAccess) → In a xs → In b xs → a.namespace ≡ b.namespace → a.name ≡ b.name → a ≡ b

-- The match of an object that is served.
abbrev pub match_of : HarborAccess → Match
match_of ha = record { ha = ha; aud = ha.spec.trust_policy.audience }

module _ (served : Bytes) (claims : Claims) (xs ys : List HarborAccess) where
  none_in_both :
      SameObjects xs ys
      → (find_harbor_access served claims xs).matched ≡ none
      → (find_harbor_access served claims ys).matched ≡ none
  none_in_both same e =
      (find_harbor_access-none_iff served claims ys).1
        (λ ha i l. (find_harbor_access-none_iff served claims xs).0 e ha ((same ha).1 i) l)

  same_in_both :
      {m n : Match}
      → SameObjects xs ys
      → KeysDetermine xs
      → (find_harbor_access served claims xs).matched ≡ some m
      → (find_harbor_access served claims ys).matched ≡ some n
      → m ≡ n
  same_in_both {m} {n} same keys e f =
      let (i, l, a, least) = find_harbor_access-matched served claims xs {m = m} e in
      let (j, k, b, least') = find_harbor_access-matched served claims ys {m = n} f in
      let (in_ns, named) =
        name_less-connected m n (sym (name_less-aud m n _) ∙ least' m.ha ((same m.ha).0 i) l)
          (sym (name_less-aud n m _) ∙ least n.ha ((same n.ha).1 j) k) in
      let one = keys m.ha n.ha i ((same n.ha).1 j) in_ns named in
      let aud = a ∙ ap (λ (ha : HarborAccess). ha.spec.trust_policy.audience) one ∙ sym b in
      λ t. record { ha = one t; aud = aud t }

-- The selection depends on which objects are listed, not on their order.
pub find_harbor_access_order :
    (served : Bytes) (claims : Claims) (xs ys : List HarborAccess)
    → SameObjects xs ys
    → KeysDetermine xs
    → (find_harbor_access served claims xs).matched ≡ (find_harbor_access served claims ys).matched
find_harbor_access_order served claims xs ys same keys =
    elim (Option-cases (find_harbor_access served claims xs).matched) [
      | inl e ↦ e ∙ sym (none_in_both served claims xs ys same e)
      | inr (m, e) ↦ elim (Option-cases (find_harbor_access served claims ys).matched) [
        | inl f ↦ none_in_both served claims ys xs (λ ha. ((same ha).1, (same ha).0)) f ∙ sym f
        | inr (n, f) ↦ e ∙ ap some (same_in_both served claims xs ys same keys e f) ∙ sym f
      ]
    ]

-- A listed object that is live, and that no other live one precedes, is the one selected, the objects
-- being determined by namespace and name.
pub find_harbor_access-first :
    (served : Bytes) (claims : Claims) (items : List HarborAccess) (ha : HarborAccess)
    → In ha items
    → Live served claims ha
    → KeysDetermine items
    → ((other : HarborAccess)
        → In other items
        → Live served claims other
        → name_less (match_of other) (match_of ha) ≡ false)
    → (find_harbor_access served claims items).matched ≡ some (match_of ha)
find_harbor_access-first served claims items ha i live keys first_of_all =
    elim (Option-cases (find_harbor_access served claims items).matched) [
      | inl e ↦ absurd ((find_harbor_access-none_iff served claims items).0 e ha i live)
      | inr (m, e) ↦
          let (j, l, a, least) = find_harbor_access-matched served claims items {m = m} e in
          let (in_ns, named) =
            name_less-connected m (match_of ha)
              (sym (name_less-aud m (match_of ha) _) ∙ first_of_all m.ha j l) (least ha i live) in
          let one = keys m.ha ha j i in_ns named in
          let aud = a ∙ ap (λ (x : HarborAccess). x.spec.trust_policy.audience) one in
          e ∙ ap some (λ t. record { ha = one t; aud = aud t })
    ]
