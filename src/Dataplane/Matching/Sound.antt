-- ===== src/Dataplane/Matching/Sound.antt =====
-- One HarborAccess against one token: the rounds of `findHarborAccess` (bridge/dataplane/handler.go)
-- and what it means to serve a token.
use harbor_workload_identity.Base.{
  Bool, false, ◌≡◌, ◌≢◌, ◌↔◌, ◌⊎◌, inl, inr, refl, sym, ap, ◌∙◌, List, [], ◌∷◌, none, some, is_some,
  In, Bool-cases, Option-cases, arith,
}
use harbor_workload_identity.Text.{Bytes, is_empty, text_eq}
use harbor_workload_identity.Text.Prefix.{text_eq_iff}
use harbor_workload_identity.HarborAccess.{HarborAccess}
use harbor_workload_identity.Dataplane.Matching.{
  Claims, harbor_access_subject, Match, find_audience, matching_audience, kept_match, collect,
}

-- The HarborAccess serves the token: the same issuer, subject and audience, none of the first and last
-- empty, and the audience is the one the bridge serves.
pub record Serves (served : Bytes) (claims : Claims) (ha : HarborAccess) : Type 0 where
  pub audience_ne_nil : ha.spec.trust_policy.audience ≢ []
  pub issuer_ne_nil : ha.spec.trust_policy.issuer ≢ []
  pub audience_served : ha.spec.trust_policy.audience ≡ served
  pub subject_matches : harbor_access_subject ha ≡ claims.subject
  pub issuer_matches : ha.spec.trust_policy.issuer ≡ claims.issuer
  pub audience_in_token : In ha.spec.trust_policy.audience claims.audience

is_empty_iff : (s : Bytes) → (is_empty s ≡ false) ↔ (s ≢ [])
is_empty_iff [] = (λ h. absurd (ground arith), λ n. absurd (n refl))
is_empty_iff (c ∷ s) = (λ h e. cc, λ n. refl)

find_audience-In :
    (want : Bytes) (auds : List Bytes) {aud : Bytes}
    → find_audience want auds ≡ some aud
    → (aud ≡ want) × In want auds
unfolding find_audience
find_audience-In want [] e = absurd (ground arith)
find_audience-In want (x ∷ auds) {aud} e = elim (Bool-cases (is_empty x)) [
  | inl skipped ↦
      let later = find_audience-In want auds {aud = aud} (ground arith) in (later.0, inr later.1)
  | inr kept ↦ elim (Bool-cases (text_eq x want)) [
    | inl same ↦ let e' = (text_eq_iff x want).0 same in (ground arith, inl (sym e'))
    | inr other ↦
        let later = find_audience-In want auds {aud = aud} (ground arith) in (later.0, inr later.1)
  ]
]

In-find_audience :
    (want : Bytes) (auds : List Bytes)
    → want ≢ []
    → In want auds
    → find_audience want auds ≡ some want
unfolding find_audience
In-find_audience want [] n i = elim i [ ]
In-find_audience want (x ∷ auds) n (inl e) =
    rw (← e) (rw ((is_empty_iff want).1 n, (text_eq_iff want want).1 refl))
In-find_audience want (x ∷ auds) n (inr i) =
    let later = In-find_audience want auds n i in ground (arith, text_eq_iff x want)

pub matching_audience-Serves :
    (served : Bytes) (claims : Claims) (ha : HarborAccess) {aud : Bytes}
    → matching_audience served claims ha ≡ some aud
    → Serves served claims ha × (aud ≡ ha.spec.trust_policy.audience)
unfolding matching_audience
matching_audience-Serves served claims ha {aud} e =
    let policy = ha.spec.trust_policy in
    let found = find_audience-In policy.audience claims.audience {aud = aud} (ground arith) in
    (
      record {
        audience_ne_nil = (is_empty_iff policy.audience).0 (ground arith);
        issuer_ne_nil = (is_empty_iff policy.issuer).0 (ground arith);
        audience_served = (text_eq_iff policy.audience served).0 (ground arith);
        subject_matches = (text_eq_iff (harbor_access_subject ha) claims.subject).0 (ground arith);
        issuer_matches = (text_eq_iff policy.issuer claims.issuer).0 (ground arith);
        audience_in_token = found.1;
      },
      found.0,
    )

pub Serves-matching_audience :
    {served : Bytes} {claims : Claims} {ha : HarborAccess}
    → Serves served claims ha
    → matching_audience served claims ha ≡ some ha.spec.trust_policy.audience
unfolding matching_audience
Serves-matching_audience {served} {claims} {ha} s =
    let policy = ha.spec.trust_policy in
    rw
      (
        (is_empty_iff policy.audience).1 s.audience_ne_nil,
        (is_empty_iff policy.issuer).1 s.issuer_ne_nil,
        (text_eq_iff policy.audience served).1 s.audience_served,
        (text_eq_iff (harbor_access_subject ha) claims.subject).1 s.subject_matches,
        (text_eq_iff policy.issuer claims.issuer).1 s.issuer_matches,
      )
      (In-find_audience policy.audience claims.audience s.audience_ne_nil s.audience_in_token)

-- What `collect` keeps.
abbrev pub Kept : Bool → Bytes → Claims → List HarborAccess → Match → Type 0
Kept deleting served claims items m =
    In m.ha items
    × (matching_audience served claims m.ha ≡ some m.aud)
    × (is_some m.ha.deletion_timestamp ≡ deleting)

kept_match-some :
    (deleting : Bool) (served : Bytes) (claims : Claims) (ha : HarborAccess) {m : Match}
    → kept_match deleting served claims ha ≡ some m
    → (m.ha ≡ ha)
      × (matching_audience served claims ha ≡ some m.aud)
      × (is_some ha.deletion_timestamp ≡ deleting)
unfolding kept_match
kept_match-some deleting served claims ha {m} e =
    elim (Option-cases (matching_audience served claims ha)) [
      | inl no_aud ↦ absurd (ground arith)
      | inr (aud, f) ↦ (ground arith, ground arith, ground arith)
    ]

some-kept_match :
    (deleting : Bool) (served : Bytes) (claims : Claims) (m : Match)
    → matching_audience served claims m.ha ≡ some m.aud
    → is_some m.ha.deletion_timestamp ≡ deleting
    → kept_match deleting served claims m.ha ≡ some m
unfolding kept_match
some-kept_match deleting served claims m e d = ground arith

module _ (deleting : Bool) (served : Bytes) (claims : Claims) (ha : HarborAccess)
    (has : List HarborAccess) where
  collect-dropped :
      kept_match deleting served claims ha ≡ none
      → collect deleting served claims (ha ∷ has) ≡ collect deleting served claims has
  unfolding collect
  collect-dropped e = rw (e, collect)

  collect-kept :
      {m : Match}
      → kept_match deleting served claims ha ≡ some m
      → collect deleting served claims (ha ∷ has) ≡ m ∷ collect deleting served claims has
  unfolding collect
  collect-kept e = rw (e, collect)

pub In-collect :
    (deleting : Bool) (served : Bytes) (claims : Claims) (items : List HarborAccess) (m : Match)
    → In m (collect deleting served claims items)
    → Kept deleting served claims items m
unfolding collect
In-collect deleting served claims [] m i = elim i [ ]
In-collect deleting served claims (ha ∷ has) m i =
    elim (Option-cases (kept_match deleting served claims ha)) [
      | inl dropped ↦
          let j : In m (collect deleting served claims has) =
            rw (collect-dropped deleting served claims ha has dropped) at i in
          let (k, e, d) = In-collect deleting served claims has m j in (inr k, e, d)
      | inr (n, kept) ↦
          let j : (m ≡ n) ⊎ In m (collect deleting served claims has) =
            rw (collect-kept deleting served claims ha has kept) at i in
          elim j [
            | inl here ↦
                let (same, e, d) = kept_match-some deleting served claims ha {m = n} kept in
                (inl (ap (λ (x : Match). x.ha) here ∙ same), rw (here, same) e, rw (here, same) d)
            | inr l ↦ let (k, e, d) = In-collect deleting served claims has m l in (inr k, e, d)
          ]
    ]

pub collect-In :
    (deleting : Bool) (served : Bytes) (claims : Claims) (items : List HarborAccess) (m : Match)
    → Kept deleting served claims items m
    → In m (collect deleting served claims items)
unfolding collect
collect-In deleting served claims [] m k = k.0
collect-In deleting served claims (ha ∷ has) m (inl same, e, d) =
    let kept : kept_match deleting served claims ha ≡ some m =
      rw (← same) (some-kept_match deleting served claims m e d) in
    rw (collect-kept deleting served claims ha has kept) (inl refl)
collect-In deleting served claims (ha ∷ has) m (inr k, e, d) =
    let later = collect-In deleting served claims has m (k, e, d) in
    elim (Option-cases (kept_match deleting served claims ha)) [
      | inl dropped ↦ rw (collect-dropped deleting served claims ha has dropped) later
      | inr (n, kept) ↦ rw (collect-kept deleting served claims ha has kept) (inr later)
    ]
