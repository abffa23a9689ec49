-- ===== src/Dataplane/Matching.antt =====
-- Which HarborAccess a validated token selects (`findHarborAccess` of bridge/dataplane/handler.go).
pub mod Order
pub mod Sound
pub mod Selection
use harbor_workload_identity.Base.{
  ℕ, Bool, true, false, not, ◌&&◌, ◌||◌, List, [], ◌∷◌, ◌++◌, Option, none, some, is_some,
  if◌then◌else◌,
}
use harbor_workload_identity.Text.{Bytes, codes, is_empty, text_eq, text_lt}
use harbor_workload_identity.HarborAccess.{HarborAccess}

-- `Claims` of oidc.go.
pub record Claims : Type 0 where
  pub issuer : Bytes
  pub subject : Bytes
  pub audience : List Bytes
  pub pod : Bytes
  pub pod_uid : Bytes
  pub node : Bytes

abbrev subject_prefix : Bytes
subject_prefix = codes "system:serviceaccount:"

-- `harborAccessSubject`
unfoldable pub harbor_access_subject : HarborAccess → Bytes
harbor_access_subject ha =
    subject_prefix
    ++ (ha.spec.service_account_ref.namespace ++ b':' ∷ ha.spec.service_account_ref.name)

-- `match` of findHarborAccess.
pub record Match : Type 0 where
  pub ha : HarborAccess
  pub aud : Bytes

-- The inner loop: the first audience of the token that is not empty and is the one of the HarborAccess.
unfoldable pub find_audience : Bytes → List Bytes → Option Bytes
find_audience want [] = none
find_audience want (aud ∷ auds) =
    let later = find_audience want auds in
    if is_empty aud then later else if text_eq aud want then some aud else later

-- One round of the outer loop, up to `DeletionTimestamp`; the served audience stands in the
-- handler's configuration.
unfoldable pub matching_audience : Bytes → Claims → HarborAccess → Option Bytes
matching_audience served claims ha =
    if is_empty ha.spec.trust_policy.audience || is_empty ha.spec.trust_policy.issuer
    then none
    else if not (text_eq ha.spec.trust_policy.audience served)
    then none
    else if not (text_eq (harbor_access_subject ha) claims.subject)
    then none
    else if not (text_eq ha.spec.trust_policy.issuer claims.issuer)
    then none
    else find_audience ha.spec.trust_policy.audience claims.audience

-- `deletion_timestamp` is none where `DeletionTimestamp.IsZero()`. A match goes to the list of the
-- objects whose deletion has begun (`deleting`), or to the other.
unfoldable pub kept_match : Bool → Bytes → Claims → HarborAccess → Option Match
kept_match deleting served claims ha = elim (matching_audience served claims ha) [
  | none ↦ none
  | some aud ↦
      if (if deleting then is_some ha.deletion_timestamp else not (is_some ha.deletion_timestamp))
      then some (record { ha = ha; aud = aud })
      else none
]

-- `deletingMatches`, or `matches`.
unfoldable pub collect : Bool → Bytes → Claims → List HarborAccess → List Match
collect deleting served claims [] = []
collect deleting served claims (ha ∷ has) =
    let later = collect deleting served claims has in
    elim (kept_match deleting served claims ha) [ none ↦ later | some m ↦ m ∷ later ]

-- The order of `byName`.
unfoldable pub name_less : Match → Match → Bool
name_less a b =
    if not (text_eq a.ha.namespace b.ha.namespace)
    then text_lt a.ha.namespace b.ha.namespace
    else text_lt a.ha.name b.ha.name

unfoldable pub insert_by_name : Match → List Match → List Match
insert_by_name m [] = m ∷ []
insert_by_name m (n ∷ ms) = if name_less n m then n ∷ insert_by_name m ms else m ∷ n ∷ ms

-- `byName`. Objects have distinct keys, so every correct sort gives this one list.
unfoldable pub by_name : List Match → List Match
by_name [] = []
by_name (m ∷ ms) = insert_by_name m (by_name ms)

-- The results of findHarborAccess.
pub record Found : Type 0 where
  pub matched : Option Match
  pub deleting : Option Match

abbrev pub first : List Match → Option Match
first [] = none
first (m ∷ ms) = some m

abbrev pub pick : List Match → List Match → Found
pick [] deleting = record { matched = none; deleting = first (by_name deleting) }
pick (m ∷ ms) deleting = record { matched = first (by_name (m ∷ ms)); deleting = none }

-- `findHarborAccess` on the objects that the index returned.
unfoldable pub find_harbor_access : Bytes → Claims → List HarborAccess → Found
find_harbor_access served claims items =
    pick (collect false served claims items) (collect true served claims items)
