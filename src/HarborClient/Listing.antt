-- ===== src/HarborClient/Listing.antt =====
-- The paged listing of robots and the lookup by name (`list`, `List`, `joinQuery`, `GetByName`,
-- `checkSuffixHit` and `matchName` of bridge/controlplane/harbor/client.go).
pub mod Ordered
pub mod Complete
pub mod Lookup
pub mod Rows
pub mod Ending
use harbor_workload_identity.Base.{
  ℕ, zero, suc, ◌+◌, Bool, true, false, not, ◌&&◌, ◌||◌, List, [], ◌∷◌, ◌++◌, Option, none, some,
  Result, ok, err, ◌>>=◌, ◌>>◌, ◌==◌, ltb, if◌then◌else◌, length,
}
use harbor_workload_identity.Base.Int.{ℤ, pos, negsuc, pos_part, eq_ℤ}
use harbor_workload_identity.Text.{Bytes, codes, is_empty, text_eq}
use harbor_workload_identity.Text.Split.{join}
use harbor_workload_identity.Decimal.{format_int, int64_max}
use harbor_workload_identity.Contract.{Robot}
use harbor_workload_identity.HarborClient.Robots.{
  HarborRobot, ClientError, prefix_mismatch, robot_not_found, harbor, id_not_increasing,
  too_many_pages, from_harbor_robot,
}

-- `pageSize` and `maxPages`.
abbrev pub page_size : ℕ
page_size = 100

abbrev pub max_pages : ℕ
max_pages = 1000

-- The payload of a page; a nil pointer is `none`.
abbrev pub Page : Type 0
Page = List (Option HarborRobot)

-- What Harbor answers to the n-th page request of one listing, whose query is given.
abbrev pub Pages : Type 0 → Type 0
Pages E = ℕ → Bytes → Result E Page

unfoldable pub filled_terms : List Bytes → List Bytes
filled_terms [] = []
filled_terms (t ∷ terms) = let rest = filled_terms terms in if is_empty t then rest else t ∷ rest

-- `joinQuery`
unfoldable pub join_query : List Bytes → Bytes
join_query terms = join (b',' ∷ []) (filled_terms terms)

-- `cursor + 1` on int64.
unfoldable pub next_id : ℕ → ℤ
next_id cursor = if cursor == int64_max then negsuc int64_max else pos (suc cursor)

unfoldable pub page_query : Bytes → ℕ → Bytes
page_query filter cursor =
    join_query (filter ∷ (codes "id=[" ++ (format_int (next_id cursor) ++ codes "~]")) ∷ [])

-- `r.ID > cursor`; the cursor starts at 0 and only grows.
abbrev pub is_after : ℕ → ℤ → Bool
is_after cursor (pos n) = ltb cursor n
is_after cursor (negsuc n) = false

-- The cursor and the robots after one page.
pub record Walked : Type 0 where
  pub cursor : ℕ
  pub robots : List Robot

abbrev pub and_robot : {E : Type 0} → Robot → Walked → Result E Walked
and_robot robot rest = ok (record { cursor = rest.cursor; robots = robot ∷ rest.robots })

-- `matchName`
unfoldable pub match_name : List Robot → Bytes → Option Robot
match_name [] name = none
match_name (r ∷ robots) name =
    let rest = match_name robots name in if text_eq r.name name then some r else rest

-- `strings.HasSuffix(s, suffix)`, with the suffix first.
unfoldable pub has_suffix : Bytes → Bytes → Bool
has_suffix suffix [] = text_eq [] suffix
has_suffix suffix (c ∷ s) = text_eq (c ∷ s) suffix || has_suffix suffix s

unfoldable pub holds_id : ℤ → List Robot → Bool
holds_id id [] = false
holds_id id (o ∷ robots) = eq_ℤ o.id id || holds_id id robots

-- The first robot whose name on the wire only ends with the name.
unfoldable pub first_suffix_hit : Bytes → Bytes → List Robot → Option Robot
first_suffix_hit prefix name [] = none
first_suffix_hit prefix name (r ∷ robots) =
    let rest = first_suffix_hit prefix name robots in
    if text_eq r.wire_name (prefix ++ name) || not (has_suffix name r.wire_name)
    then rest
    else some r

-- The queries of the lookups by name.
abbrev pub name_filter : Bytes → Bytes
name_filter name = codes "name=" ++ name

module _ {E : Type 0} (prefix : Bytes) where
  -- The loop over one page.
  unfoldable pub walk : ℕ → Page → Result (ClientError E) Walked
  walk cursor [] = ok (record { cursor = cursor; robots = [] })
  walk cursor (none ∷ page) = walk cursor page
  walk cursor (some r ∷ page) =
      let rest = walk (pos_part r.id) page in
      if is_after cursor r.id
      then from_harbor_robot prefix r >>= (λ robot. rest >>= and_robot robot)
      else err id_not_increasing

  abbrev pub asked : Result E Page → Result (ClientError E) Page
  asked (ok page) = ok page
  asked (err e) = err (harbor e)

  -- A page that is not full is the last one.
  abbrev pub finish :
      Bool → List Robot → Result (ClientError E) (List Robot) → Result (ClientError E) (List Robot)
  finish true robots rest = ok robots
  finish false robots rest = rest >>= (λ more. ok (robots ++ more))

  -- The loop over the pages: the pages that are left, the number of the next one, and the cursor.
  unfoldable pub list_pages : Pages E → Bytes → ℕ → ℕ → ℕ → Result (ClientError E) (List Robot)
  list_pages pages filter zero n cursor = err too_many_pages
  list_pages pages filter (suc left) n cursor = do
    page ← asked (pages n (page_query filter cursor))
    walked ← walk cursor page
    finish (ltb (length page) page_size) walked.robots
        (list_pages pages filter left (suc n) walked.cursor)

  -- `list`
  unfoldable pub list : Pages E → Bytes → Result (ClientError E) (List Robot)
  list pages filter = list_pages pages filter max_pages 1 0

  abbrev pub recheck : Pages E → Option Robot → Result (ClientError E) (Unit {0})
  recheck again none = ok tt
  recheck again (some r) =
      list again (name_filter r.name)
      >>= (λ found. if holds_id r.id found then ok tt else err prefix_mismatch)

  -- `checkSuffixHit`; `again` answers the second lookup.
  unfoldable pub check_suffix_hit : Pages E → Bytes → List Robot → Result (ClientError E) (Unit {0})
  check_suffix_hit again name robots = recheck again (first_suffix_hit prefix name robots)

  abbrev pub or_not_found : Option Robot → Result (ClientError E) Robot
  or_not_found (some r) = ok r
  or_not_found none = err robot_not_found

  abbrev pub or_scan : Option Robot → Result (ClientError E) Robot → Result (ClientError E) Robot
  or_scan (some r) scan = ok r
  or_scan none scan = scan

  -- `GetByName`; the answers to the lookup, to the second lookup and to the scan.
  unfoldable pub get_by_name : Pages E → Pages E → Pages E → Bytes → Result (ClientError E) Robot
  get_by_name filtered again scan name = do
    robots ← list filtered (name_filter name)
    or_scan (match_name robots name) (
        check_suffix_hit again name robots
        >> (list scan [] >>= (λ every. or_not_found (match_name every name))))
