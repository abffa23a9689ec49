-- ===== src/HarborClient/Listing/Rows.antt =====
-- What a page's walk depends on, in terms of the robots on the pages (`list` of
-- bridge/controlplane/harbor/client.go).
use harbor_workload_identity.Base.{
  ℕ, ◌<◌, ◌≤◌, true, ◌≡◌, ◌↔◌, inl, inr, refl, ap, List, [], ◌∷◌, ◌++◌, map, All, none, some,
  Result, ok, >>=-ok, length, Bool-cases, arith,
}
use harbor_workload_identity.Base.Int.{ℤ, pos, pos_part}
use harbor_workload_identity.Text.{Bytes}
use harbor_workload_identity.HarborClient.Robots.{
  HarborRobot, ClientError, from_harbor_robot, robot_of, is_accounted_for,
}
use harbor_workload_identity.HarborClient.Listing.{
  Page, page_size, is_after, Walked, and_robot, walk,
}
use harbor_workload_identity.HarborClient.Listing.Ordered.{is_after-pos, walk-some}

-- The robots of a page, and of pages.
unfoldable pub rows : Page → List HarborRobot
rows [] = []
rows (none ∷ page) = rows page
rows (some r ∷ page) = r ∷ rows page

unfoldable pub all_rows : List Page → List HarborRobot
all_rows [] = []
all_rows (page ∷ pages) = rows page ++ all_rows pages

-- The ids are above the bound and increase.
abbrev pub IdsIncrease : ℕ → List HarborRobot → Type 0
IdsIncrease bound [] = Unit
IdsIncrease bound (r ∷ rs) = (n : ℕ) × (r.id ≡ pos n) × (bound < n) × IdsIncrease n rs

-- The id of the last robot, or the bound without one.
unfoldable pub last_id : ℕ → List HarborRobot → ℕ
last_id bound [] = bound
last_id bound (r ∷ rs) = last_id (pos_part r.id) rs

-- Some full pages, and then one that is not.
abbrev pub FullButLast : List Page → Type 0
FullButLast [] = ⊥
FullButLast (page ∷ []) = length page < page_size
FullButLast (page ∷ next ∷ pages) = (page_size ≤ length page) × FullButLast (next ∷ pages)

pub FullButLast-cons :
    (page : Page) (pages : List Page)
    → page_size ≤ length page
    → FullButLast pages
    → FullButLast (page ∷ pages)
FullButLast-cons page [] full rest = absurd rest
FullButLast-cons page (next ∷ pages) full rest = (full, rest)

pub IdsIncrease-append :
    (bound : ℕ) (a b : List HarborRobot)
    → IdsIncrease bound (a ++ b) ↔ (IdsIncrease bound a × IdsIncrease (last_id bound a) b)
unfolding last_id
IdsIncrease-append bound [] b = (λ h. (tt, h), λ h. h.1)
IdsIncrease-append bound (r ∷ a) b = (
  λ h.
      let (n, e, l, rest) = h in
      let (x, y) = (IdsIncrease-append n a b).0 rest in ((n, e, l, x), rw e y),
  λ h. let ((n, e, l, x), y) = h in (n, e, l, (IdsIncrease-append n a b).1 (x, rw e at y)),
)

pub All-append :
    {A : Type 0} → (P : A → Type 0) (a b : List A) → All P (a ++ b) ↔ (All P a × All P b)
All-append P [] b = (λ h. (tt, h), λ h. h.1)
All-append P (x ∷ a) b = (
  λ h. let (p, q) = (All-append P a b).0 h.1 in ((h.0, p), q),
  λ h. (h.0.0, (All-append P a b).1 (h.0.1, h.1)),
)

pub append-nil : {A : Type 0} → (a : List A) → a ++ [] ≡ a
append-nil [] = refl
append-nil (x ∷ a) = ap (λ l. x ∷ l) (append-nil a)

pub map-append : {A B : Type 0} → (f : A → B) (a b : List A) → map f (a ++ b) ≡ map f a ++ map f b
map-append f [] b = refl
map-append f (x ∷ a) b = ap (λ l. f x ∷ l) (map-append f a b)

is_after-id :
    (cursor n : ℕ) (id : ℤ)
    → id ≡ pos n
    → cursor < n
    → (is_after cursor id ≡ true) × (n ≡ pos_part id)
is_after-id cursor n id e h = rw e (ground arith, refl)

module _ (prefix : Bytes) where
  abbrev pub Accounted : List HarborRobot → Type 0
  Accounted = All (λ r. is_accounted_for prefix r ≡ true)

  -- The page after which the walk is at this cursor.
  abbrev pub walked_of : ℕ → Page → Walked
  walked_of cursor page = record {
    cursor = last_id cursor (rows page);
    robots = map (robot_of prefix) (rows page);
  }

module _ {E : Type 0} (prefix : Bytes) where
  walk_one :
      (cursor : ℕ) (r : HarborRobot) (page : Page) (w : Walked)
      → is_after cursor r.id ≡ true
      → is_accounted_for prefix r ≡ true
      → ◌≡◌ {A = Result (ClientError E) Walked} (walk prefix (pos_part r.id) page) (ok w)
      → ◌≡◌ {A = Result (ClientError E) Walked}
          (walk prefix cursor (some r ∷ page))
          (ok (record { cursor = w.cursor; robots = robot_of prefix r ∷ w.robots }))
  unfolding walk from_harbor_robot
  walk_one cursor r page w after known rest =
      rw (after, known)
        (>>=-ok (walk prefix (pos_part r.id) page) (and_robot (robot_of prefix r)) rest refl)

  walk-accounted :
      (cursor : ℕ) (r : HarborRobot) (page : Page) (w : Walked)
      → ◌≡◌ {A = Result (ClientError E) Walked} (walk prefix cursor (some r ∷ page)) (ok w)
      → is_accounted_for prefix r ≡ true
  unfolding walk from_harbor_robot
  walk-accounted cursor r page w e = elim (Bool-cases (is_accounted_for prefix r)) [
    | inl t ↦ t
    | inr t ↦ elim (Bool-cases (is_after cursor r.id)) [
      | inl a ↦ absurd (ground (arith, (rw (a, t) at e)))
      | inr a ↦ absurd (ground arith)
    ]
  ]

  pub walk-rows :
      (cursor : ℕ) (page : Page)
      → IdsIncrease cursor (rows page)
      → Accounted prefix (rows page)
      → ◌≡◌ {A = Result (ClientError E) Walked}
          (walk prefix cursor page)
          (ok (walked_of prefix cursor page))
  unfolding walk rows last_id
  walk-rows cursor [] i a = refl
  walk-rows cursor (none ∷ page) i a = walk-rows cursor page i a
  walk-rows cursor (some r ∷ page) (n, e, l, i) a =
      let (after, here) = is_after-id cursor n r.id e l in
      walk_one cursor r page (walked_of prefix (pos_part r.id) page) after a.0
        (walk-rows (pos_part r.id) page (rw here at i) a.1)

  pub rows-walk :
      (cursor : ℕ) (page : Page) (walked : Walked)
      → ◌≡◌ {A = Result (ClientError E) Walked} (walk prefix cursor page) (ok walked)
      → IdsIncrease cursor (rows page) × Accounted prefix (rows page)
  unfolding walk rows last_id
  rows-walk cursor [] walked e = (tt, tt)
  rows-walk cursor (none ∷ page) walked e = rows-walk cursor page walked e
  rows-walk cursor (some r ∷ page) walked e =
      let (after, rest, walked_rest, last, robots) = walk-some prefix cursor r page walked e in
      let (here, above) = is_after-pos cursor r.id after in
      let (i, a) = rows-walk (pos_part r.id) page rest walked_rest in
      ((pos_part r.id, here, above, i), (walk-accounted cursor r page walked e, a))
