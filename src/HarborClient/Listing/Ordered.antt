-- ===== src/HarborClient/Listing/Ordered.antt =====
-- The order of what `list` returns (bridge/controlplane/harbor/client.go), whatever Harbor answers.
use harbor_workload_identity.Base.{
  ℕ, zero, suc, ◌<◌, Bool, true, false, ◌≡◌, ◌⊎◌, refl, sym, ap, List, [], ◌∷◌, ◌++◌, none, some,
  Result, ok, err, ◌>>=◌, >>=-eq-ok, ok_injective, ltb, length, Bool-cases, inl, inr, arith,
}
use harbor_workload_identity.Base.Int.{ℤ, pos, negsuc, pos_part}
use harbor_workload_identity.Text.{Bytes}
use harbor_workload_identity.Contract.{Robot}
use harbor_workload_identity.HarborClient.Robots.{
  HarborRobot, ClientError, from_harbor_robot, robot_of, is_accounted_for,
}
use harbor_workload_identity.HarborClient.Listing.{
  Page, Pages, page_query, page_size, is_after, Walked, and_robot, walk, asked, finish, list_pages,
  list, max_pages,
}

-- The robots' ids are above the bound and increase.
abbrev IdsAbove : ℕ → List Robot → Type 0
IdsAbove bound [] = Unit
IdsAbove bound (robot ∷ robots) = (n : ℕ) × (robot.id ≡ pos n) × (bound < n) × IdsAbove n robots

-- The robots lie between two ids, the last one being the new cursor.
abbrev IdsUpTo : ℕ → List Robot → ℕ → Type 0
IdsUpTo bound [] last = bound ≡ last
IdsUpTo bound (robot ∷ robots) last =
    (n : ℕ) × (robot.id ≡ pos n) × (bound < n) × IdsUpTo n robots last

IdsAbove-append :
    (bound last : ℕ) (xs ys : List Robot)
    → IdsUpTo bound xs last
    → IdsAbove last ys
    → IdsAbove bound (xs ++ ys)
IdsAbove-append bound last [] ys h k = rw h k
IdsAbove-append bound last (x ∷ xs) ys h k =
    let (n, e, l, rest) = h in (n, e, l, IdsAbove-append n last xs ys rest k)

IdsUpTo-IdsAbove : (bound last : ℕ) (xs : List Robot) → IdsUpTo bound xs last → IdsAbove bound xs
IdsUpTo-IdsAbove bound last [] h = tt
IdsUpTo-IdsAbove bound last (x ∷ xs) h =
    let (n, e, l, rest) = h in (n, e, l, IdsUpTo-IdsAbove n last xs rest)

pub is_after-pos :
    (cursor : ℕ) (id : ℤ)
    → is_after cursor id ≡ true
    → (id ≡ pos (pos_part id)) × (cursor < pos_part id)
is_after-pos cursor (pos n) h = (refl, ground arith)
is_after-pos cursor (negsuc n) h = absurd (ground arith)

module _ {E : Type 0} (prefix : Bytes) where
  pub from_harbor_robot-eq-ok :
      (r : HarborRobot) (robot : Robot)
      → ◌≡◌ {A = Result (ClientError E) Robot} (from_harbor_robot prefix r) (ok robot)
      → robot_of prefix r ≡ robot
  unfolding from_harbor_robot
  from_harbor_robot-eq-ok r robot e = elim (Bool-cases (is_accounted_for prefix r)) [
    | inl t ↦ ok_injective {E = ClientError E} (rw t at e)
    | inr t ↦ absurd (ground arith)
  ]

  -- A page is walked only if every robot of it comes after the ones before.
  pub walk-some :
      (cursor : ℕ) (r : HarborRobot) (page : Page) (walked : Walked)
      → ◌≡◌ {A = Result (ClientError E) Walked} (walk prefix cursor (some r ∷ page)) (ok walked)
      → (is_after cursor r.id ≡ true)
        × (rest : Walked) × (◌≡◌ {A = Result (ClientError E) Walked}
            (walk prefix (pos_part r.id) page)
            (ok rest))
        × (walked.cursor ≡ rest.cursor)
        × (walked.robots ≡ robot_of prefix r ∷ rest.robots)
  unfolding walk
  walk-some cursor r page walked e = elim (Bool-cases (is_after cursor r.id)) [
    | inr f ↦ absurd (ground arith)
    | inl t ↦
        let (robot, read, next) =
          >>=-eq-ok (from_harbor_robot prefix r)
            (λ robot. walk prefix (pos_part r.id) page >>= and_robot robot) (rw t at e) in
        let (rest, walked_rest, last) =
          >>=-eq-ok (walk prefix (pos_part r.id) page) (and_robot robot) next in
        let same = ok_injective {E = ClientError E} last in
        (
          t,
          rest,
          walked_rest,
          ap (λ w. w.cursor) (sym same),
          rw (from_harbor_robot-eq-ok r robot read) (ap (λ w. w.robots) (sym same)),
        )
  ]

  walk-IdsUpTo :
      (cursor : ℕ) (page : Page) (walked : Walked)
      → ◌≡◌ {A = Result (ClientError E) Walked} (walk prefix cursor page) (ok walked)
      → IdsUpTo cursor walked.robots walked.cursor
  unfolding walk robot_of
  walk-IdsUpTo cursor [] walked e =
      let same = ok_injective {E = ClientError E} e in rw (← same) refl
  walk-IdsUpTo cursor (none ∷ page) walked e = walk-IdsUpTo cursor page walked e
  walk-IdsUpTo cursor (some r ∷ page) walked e =
      let (after, rest, walked_rest, last, robots) = walk-some cursor r page walked e in
      let (here, above) = is_after-pos cursor r.id after in
      rw (robots, last)
        (pos_part r.id, here, above, walk-IdsUpTo (pos_part r.id) page rest walked_rest)

  -- A listing that succeeds walked a page, and it was the last one or the rest succeeded too.
  pub list_pages-suc :
      (pages : Pages E) (filter : Bytes) (left n cursor : ℕ) (out : List Robot)
      → ◌≡◌ {A = Result (ClientError E) (List Robot)}
          (list_pages prefix pages filter (suc left) n cursor)
          (ok out)
      → (page : Page) × (pages n (page_query filter cursor) ≡ ok page)
        × (walked : Walked) × (◌≡◌ {A = Result (ClientError E) Walked}
            (walk prefix cursor page)
            (ok walked))
        × (((ltb (length page) page_size ≡ true) × (walked.robots ≡ out))
            ⊎ ((ltb (length page) page_size ≡ false)
                × (more : List Robot) × (◌≡◌ {A = Result (ClientError E) (List Robot)}
                    (list_pages prefix pages filter left (suc n) walked.cursor)
                    (ok more))
                × (walked.robots ++ more ≡ out)))
  unfolding list_pages
  list_pages-suc pages filter left n cursor out e =
      let rest = λ (walked : Walked). list_pages prefix pages filter left (suc n) walked.cursor in
      let (page, got, next) = >>=-eq-ok (asked prefix (pages n (page_query filter cursor))) _ e in
      let (walked, w, last) = >>=-eq-ok (walk prefix cursor page) _ next in
      (
        page,
        asked_ok (pages n (page_query filter cursor)) page got,
        walked,
        w,
        finish_ok (ltb (length page) page_size) walked.robots out (rest walked) last,
      )
    where
      asked_ok :
          (a : Result E Page) (page : Page)
          → ◌≡◌ {A = Result (ClientError E) Page} (asked prefix a) (ok page)
          → a ≡ ok page
      asked_ok (ok p) page e = ap ok (ok_injective {E = ClientError E} e)
      asked_ok (err x) page e = absurd cc

      finish_ok :
          (b : Bool) (robots out : List Robot) (rest : Result (ClientError E) (List Robot))
          → finish prefix b robots rest ≡ ok out
          → ((b ≡ true) × (robots ≡ out))
            ⊎ ((b ≡ false) × (more : List Robot) × (rest ≡ ok more) × (robots ++ more ≡ out))
      finish_ok true robots out rest e = inl (refl, ok_injective {E = ClientError E} e)
      finish_ok false robots out rest e =
          let (more, r, last) = >>=-eq-ok rest (λ more. ok (robots ++ more)) e in
          inr (refl, more, r, ok_injective {E = ClientError E} last)

  list_pages-IdsAbove :
      (pages : Pages E) (filter : Bytes) (left n cursor : ℕ) (out : List Robot)
      → ◌≡◌ {A = Result (ClientError E) (List Robot)}
          (list_pages prefix pages filter left n cursor)
          (ok out)
      → IdsAbove cursor out
  unfolding list_pages
  list_pages-IdsAbove pages filter zero n cursor out e = absurd cc
  list_pages-IdsAbove pages filter (suc left) n cursor out e =
      let (page, got, walked, w, last) = list_pages-suc pages filter left n cursor out e in
      let up = walk-IdsUpTo cursor page walked w in
      elim last [
        | inl (short, same) ↦ rw (sym same) (IdsUpTo-IdsAbove cursor walked.cursor walked.robots up)
        | inr (full, more, rest, same) ↦ rw (sym same) (
            IdsAbove-append cursor walked.cursor walked.robots more up
              (list_pages-IdsAbove pages filter left (suc n) walked.cursor more rest))
      ]

  -- Whatever Harbor answers, the robots of a listing that succeeds have positive, increasing ids, so
  -- that none is listed twice.
  pub list-IdsAbove :
      (pages : Pages E) (filter : Bytes) (out : List Robot)
      → ◌≡◌ {A = Result (ClientError E) (List Robot)} (list prefix pages filter) (ok out)
      → IdsAbove 0 out
  unfolding list
  list-IdsAbove pages filter out e = list_pages-IdsAbove pages filter max_pages 1 0 out e
