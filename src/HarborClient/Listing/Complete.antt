-- ===== src/HarborClient/Listing/Complete.antt =====
-- What `list` returns (bridge/controlplane/harbor/client.go) from a Harbor that honours its queries
-- while robots come and go between the pages.
use harbor_workload_identity.Base.{
  ℕ, zero, suc, ◌<◌, false, ◌≡◌, ◌⊎◌, inl, inr, refl, sym, ap, List, [], ◌∷◌, ◌++◌, Option, none,
  some, Result, ok, ok_injective, ◌∙◌, subst, In, ltb, length, arith,
}
use harbor_workload_identity.Base.Int.{pos, pos_part}
use harbor_workload_identity.Text.{Bytes}
use harbor_workload_identity.Contract.{Robot}
use harbor_workload_identity.HarborClient.Robots.{HarborRobot, ClientError, robot_of}
use harbor_workload_identity.HarborClient.Listing.{
  Page, Pages, page_query, page_size, max_pages, Walked, walk, list_pages, list,
}
use harbor_workload_identity.HarborClient.Listing.Ordered.{walk-some, list_pages-suc}

-- A Harbor that answers a page request with the robots it then holds (`held n` at the n-th page) that
-- match the filter and lie in the id range, in the order of their ids and up to the page size: a robot
-- above the cursor is on the page, or the page is full and ends before the robot.
abbrev pub HonoursQueries : {E : Type 0} → Pages E → Bytes → (ℕ → HarborRobot → Type 0) → Type 0
HonoursQueries pages filter held =
    (n cursor : ℕ) (page : Page)
    → pages n (page_query filter cursor) ≡ ok page
    → (r : HarborRobot) (id : ℕ) → held n r
    → r.id ≡ pos id
    → cursor < id
    → In (some r) page
      ⊎ ((ltb (length page) page_size ≡ false)
          × ((other : HarborRobot) → In (some other) page → pos_part other.id < id))

some_injective : {A : Type 0} {a b : A} → ◌≡◌ {A = Option A} (some a) (some b) → a ≡ b
some_injective e = cc

In-append_left : (x : Robot) (xs ys : List Robot) → In x xs → In x (xs ++ ys)
In-append_left x [] ys i = absurd i
In-append_left x (y ∷ xs) ys (inl e) = inl e
In-append_left x (y ∷ xs) ys (inr i) = inr (In-append_left x xs ys i)

In-append_right : (x : Robot) (xs ys : List Robot) → In x ys → In x (xs ++ ys)
In-append_right x [] ys i = i
In-append_right x (y ∷ xs) ys i = inr (In-append_right x xs ys i)

module _ {E : Type 0} (prefix : Bytes) where
  -- A robot of the page is among the robots walked.
  walk-In :
      (cursor : ℕ) (page : Page) (walked : Walked) (r : HarborRobot)
      → ◌≡◌ {A = Result (ClientError E) Walked} (walk prefix cursor page) (ok walked)
      → In (some r) page
      → In (robot_of prefix r) walked.robots
  unfolding walk
  walk-In cursor [] walked r e i = absurd i
  walk-In cursor (none ∷ page) walked r e (inl same) = absurd cc
  walk-In cursor (none ∷ page) walked r e (inr i) = walk-In cursor page walked r e i
  walk-In cursor (some s ∷ page) walked r e i =
      let (after, rest, walked_rest, last, robots) = walk-some prefix cursor s page walked e in
      rw robots (elim i as (λ i. In (robot_of prefix r) (robot_of prefix s ∷ rest.robots)) [
        | inl same ↦ inl (ap (robot_of prefix) (some_injective same))
        | inr j ↦ inr (walk-In (pos_part s.id) page rest r walked_rest j)
      ])

  -- The new cursor is the old one or the id of a robot of the page.
  walk-cursor :
      (cursor : ℕ) (page : Page) (walked : Walked)
      → ◌≡◌ {A = Result (ClientError E) Walked} (walk prefix cursor page) (ok walked)
      → (walked.cursor ≡ cursor)
        ⊎ ((r : HarborRobot) × In (some r) page × (walked.cursor ≡ pos_part r.id))
  unfolding walk
  walk-cursor cursor [] walked e =
      inl (ap (λ w. w.cursor) (sym (ok_injective {E = ClientError E} e)))
  walk-cursor cursor (none ∷ page) walked e = elim (walk-cursor cursor page walked e) [
    | inl same ↦ inl same
    | inr (r, i, here) ↦ inr (r, inr i, here)
  ]
  walk-cursor cursor (some s ∷ page) walked e =
      let (after, rest, walked_rest, last, robots) = walk-some prefix cursor s page walked e in
      elim (walk-cursor (pos_part s.id) page rest walked_rest) [
        | inl same ↦ inr (s, inl refl, last ∙ same)
        | inr (r, i, here) ↦ inr (r, inr i, last ∙ here)
      ]

  module _ (pages : Pages E) (filter : Bytes) (held : ℕ → HarborRobot → Type 0)
      (honest : HonoursQueries pages filter held) (r : HarborRobot) (id : ℕ) (named : r.id ≡ pos id)
      (present : (n : ℕ) → held n r) where
    list_pages-In :
        (left n cursor : ℕ) (out : List Robot)
        → cursor < id
        → ◌≡◌ {A = Result (ClientError E) (List Robot)}
            (list_pages prefix pages filter left n cursor)
            (ok out)
        → In (robot_of prefix r) out
    unfolding list_pages
    list_pages-In zero n cursor out below e = absurd cc
    list_pages-In (suc left) n cursor out below e =
        let (page, got, walked, w, last) = list_pages-suc prefix pages filter left n cursor out e in
        elim (honest n cursor page got r id (present n) named below) [
          | inl here ↦
              let found = walk-In cursor page walked r w here in
              elim last [
                | inl (short, same) ↦ subst (In (robot_of prefix r)) same found
                | inr (full, more, rest, same) ↦
                    subst (In (robot_of prefix r)) same
                      (In-append_left (robot_of prefix r) walked.robots more found)
              ]
          | inr (full, before) ↦
              let below' : walked.cursor < id = elim (walk-cursor cursor page walked w) [
                | inl same ↦ rw same below
                | inr (other, i, same) ↦ rw same (before other i)
              ] in
              elim last [
                | inl (short, same) ↦ absurd (ground arith)
                | inr (_, more, rest, same) ↦ subst (In (robot_of prefix r)) same (
                    In-append_right (robot_of prefix r) walked.robots more
                      (list_pages-In left (suc n) walked.cursor more below' rest))
              ]
        ]

  -- From a Harbor that honours the queries, whatever it adds or deletes between the pages, a listing
  -- that succeeds holds every robot with a positive id that was there at every page.
  pub list-In :
      (pages : Pages E) (filter : Bytes) (held : ℕ → HarborRobot → Type 0) (out : List Robot)
      (r : HarborRobot) (id : ℕ)
      → HonoursQueries pages filter held
      → r.id ≡ pos (suc id)
      → ((n : ℕ) → held n r)
      → ◌≡◌ {A = Result (ClientError E) (List Robot)} (list prefix pages filter) (ok out)
      → In (robot_of prefix r) out
  unfolding list
  list-In pages filter held out r id honest named present e =
      list_pages-In pages filter held honest r (suc id) named present max_pages 1 0 out
        (omega arith) e
