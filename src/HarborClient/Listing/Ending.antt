-- ===== src/HarborClient/Listing/Ending.antt =====
-- What `list` returns, and when (bridge/controlplane/harbor/client.go).
use harbor_workload_identity.Base.{
  ℕ, zero, suc, ◌<◌, ◌≤◌, true, false, ◌≡◌, ◌↔◌, inl, inr, refl, sym, ap, ◌∙◌, subst, List, [], ◌∷◌,
  ◌++◌, map, Result, ok, err, ok_injective, >>=-ok, ltb, length, arith,
}
use harbor_workload_identity.Text.{Bytes}
use harbor_workload_identity.Contract.{Robot}
use harbor_workload_identity.HarborClient.Robots.{ClientError, robot_of}
use harbor_workload_identity.HarborClient.Listing.{
  Page, Pages, page_query, page_size, max_pages, Walked, walk, asked, list_pages, list,
}
use harbor_workload_identity.HarborClient.Listing.Ordered.{list_pages-suc}
use harbor_workload_identity.HarborClient.Listing.Rows.{
  rows, all_rows, IdsIncrease, last_id, FullButLast, FullButLast-cons, IdsIncrease-append,
  All-append, append-nil, map-append, Accounted, walked_of, walk-rows, rows-walk,
}

module _ {E : Type 0} (prefix : Bytes) (pages : Pages E) (filter : Bytes) where
  -- The pages are the answers from the n-th request on, each asked for with the last id before it.
  abbrev pub Answers : ℕ → ℕ → List Page → Type 0
  Answers n cursor [] = Unit
  Answers n cursor (page ∷ rest) =
      (pages n (page_query filter cursor) ≡ ok page)
      × Answers (suc n) (last_id cursor (rows page)) rest

  -- The pages that a listing reads, and what it makes of all their robots.
  abbrev pub IsListing : ℕ → ℕ → List Page → List Robot → Type 0
  IsListing n cursor answers out =
      FullButLast answers
      × Answers n cursor answers
      × IdsIncrease cursor (all_rows answers)
      × Accounted prefix (all_rows answers)
      × (out ≡ map (robot_of prefix) (all_rows answers))

  abbrev Lists : ℕ → ℕ → ℕ → List Robot → Type 0
  Lists left n cursor out =
      ◌≡◌ {A = Result (ClientError E) (List Robot)} (list_pages prefix pages filter left n cursor)
        (ok out)

  asked_of :
      (a : Result E Page) (page : Page)
      → a ≡ ok page
      → ◌≡◌ {A = Result (ClientError E) Page} (asked prefix a) (ok page)
  asked_of (ok p) page e = cc
  asked_of (err x) page e = absurd cc

  list_pages_last :
      (left n cursor : ℕ) (page : Page)
      → pages n (page_query filter cursor) ≡ ok page
      → length page < page_size
      → IdsIncrease cursor (rows page)
      → Accounted prefix (rows page)
      → Lists (suc left) n cursor (map (robot_of prefix) (rows page))
  unfolding list_pages
  list_pages_last left n cursor page got short i a =
      let last : ltb (length page) page_size ≡ true = ground arith in
      >>=-ok (asked prefix (pages n (page_query filter cursor))) _ (asked_of _ page got)
        (>>=-ok (walk prefix cursor page) _ (walk-rows prefix cursor page i a) (rw last refl))

  list_pages_more :
      (left n cursor : ℕ) (page : Page) (more : List Robot)
      → pages n (page_query filter cursor) ≡ ok page
      → page_size ≤ length page
      → IdsIncrease cursor (rows page)
      → Accounted prefix (rows page)
      → Lists left (suc n) (last_id cursor (rows page)) more
      → Lists (suc left) n cursor (map (robot_of prefix) (rows page) ++ more)
  unfolding list_pages
  list_pages_more left n cursor page more got full i a rest =
      let further : ltb (length page) page_size ≡ false = ground arith in
      >>=-ok (asked prefix (pages n (page_query filter cursor))) _ (asked_of _ page got) (
        >>=-ok (walk prefix cursor page) _ (walk-rows prefix cursor page i a) (
          rw further (
            >>=-ok (list_pages prefix pages filter left (suc n) (last_id cursor (rows page))) _ rest
              refl)))

  IsListing-Lists :
      (answers : List Page) (left n cursor : ℕ)
      → length answers ≤ left
      → FullButLast answers
      → Answers n cursor answers
      → IdsIncrease cursor (all_rows answers)
      → Accounted prefix (all_rows answers)
      → Lists left n cursor (map (robot_of prefix) (all_rows answers))
  unfolding all_rows
  IsListing-Lists [] left n cursor h f got i a = absurd f
  IsListing-Lists (page ∷ answers) zero n cursor h f got i a = absurd (ground arith)
  IsListing-Lists (page ∷ []) (suc left) n cursor h f got i a =
      subst (λ rs. Lists (suc left) n cursor (map (robot_of prefix) rs))
        (sym (append-nil (rows page)))
        (list_pages_last left n cursor page got.0 f
          ((IdsIncrease-append cursor (rows page) []).0 i).0 ((All-append _ (rows page) []).0 a).0)
  IsListing-Lists (page ∷ next ∷ answers) (suc left) n cursor h f got i a =
      let (i1, i2) = (IdsIncrease-append cursor (rows page) (all_rows (next ∷ answers))).0 i in
      let (a1, a2) = (All-append _ (rows page) (all_rows (next ∷ answers))).0 a in
      subst (Lists (suc left) n cursor)
        (sym (map-append (robot_of prefix) (rows page) (all_rows (next ∷ answers))))
        (list_pages_more left n cursor page _ got.0 f.0 i1 a1 (
          IsListing-Lists (next ∷ answers) left (suc n) (last_id cursor (rows page)) (ground arith)
            f.1 got.1 i2 a2))

  walked_as :
      (cursor : ℕ) (page : Page) (walked : Walked)
      → ◌≡◌ {A = Result (ClientError E) Walked} (walk prefix cursor page) (ok walked)
      → walked ≡ walked_of prefix cursor page
  walked_as cursor page walked w =
      let (i, a) = rows-walk prefix cursor page walked w in
      ok_injective {E = ClientError E} (sym w ∙ walk-rows prefix cursor page i a)

  Lists-IsListing :
      (left n cursor : ℕ) (out : List Robot)
      → Lists left n cursor out
      → (answers : List Page) × (length answers ≤ left) × IsListing n cursor answers out
  unfolding list_pages all_rows
  Lists-IsListing zero n cursor out e = absurd cc
  Lists-IsListing (suc left) n cursor out e =
      let (page, got, walked, w, last) = list_pages-suc prefix pages filter left n cursor out e in
      let (i, a) = rows-walk prefix cursor page walked w in
      let same_walk = walked_as cursor page walked w in
      let at_last = ap (λ (x : Walked). x.cursor) same_walk in
      let made = ap (λ (x : Walked). x.robots) same_walk in
      elim last [
        | inl (short, same) ↦ (
          page ∷ [],
          ground arith,
          (
            ground arith,
            (got, tt),
            (IdsIncrease-append cursor (rows page) []).1 (i, tt),
            (All-append _ (rows page) []).1 (a, tt),
            sym same ∙ made ∙ ap (map (robot_of prefix)) (sym (append-nil (rows page))),
          ),
        )
        | inr (full, more, rest, same) ↦
            let (answers, few, (f, ans, i2, a2, shown)) =
              Lists-IsListing left (suc n) walked.cursor more rest in
            (
              page ∷ answers,
              ground arith,
              (
                FullButLast-cons page answers (ground arith) f,
                (got, rw at_last at ans),
                (IdsIncrease-append cursor (rows page) (all_rows answers)).1 (i, rw at_last at i2),
                (All-append _ (rows page) (all_rows answers)).1 (a, a2),
                sym same
                    ∙ ap (λ x. x ++ more) made
                    ∙ ap (λ x. map (robot_of prefix) (rows page) ++ x) shown
                    ∙ sym (map-append (robot_of prefix) (rows page) (all_rows answers)),
              ),
            )
      ]

  -- A listing succeeds with these robots exactly when at most a thousand pages are answered, each asked
  -- for with the last id before it, all but the last one full and the last one not; when the ids of all
  -- robots on them are positive and increase from page to page; when every robot is accounted for by
  -- the prefix; and when the result is those robots, in that order.
  pub list-IsListing :
      (out : List Robot)
      → (◌≡◌ {A = Result (ClientError E) (List Robot)} (list prefix pages filter) (ok out))
        ↔ ((answers : List Page) × (length answers ≤ max_pages) × IsListing 1 0 answers out)
  unfolding list
  list-IsListing out = (
    Lists-IsListing max_pages 1 0 out,
    λ h.
        let (answers, few, (f, got, i, a, shown)) = h in
        subst (Lists max_pages 1 0) (sym shown)
          (IsListing-Lists answers max_pages 1 0 few f got i a),
  )
