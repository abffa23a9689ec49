-- ===== src/HarborClient/Listing/Lookup.antt =====
-- The lookup of a robot by its name (`GetByName` of bridge/controlplane/harbor/client.go).
use harbor_workload_identity.Base.{
  ℕ, zero, suc, Bool, true, false, ◌≡◌, ◌≢◌, inl, inr, refl, sym, ap, ◌∙◌, subst, List, [], ◌∷◌,
  Option, none, some, Result, ok, err, ◌>>=◌, ◌>>◌, >>=-eq-ok, ok_injective, In, ltb, length,
  Bool-cases, Option-cases, arith,
}
use harbor_workload_identity.Base.Int.{pos, pos_part}
use harbor_workload_identity.Text.{Bytes, text_eq}
use harbor_workload_identity.Text.Prefix.{text_eq_iff}
use harbor_workload_identity.Contract.{Robot}
use harbor_workload_identity.HarborClient.Robots.{
  HarborRobot, ClientError, prefix_mismatch, robot_not_found, harbor, id_not_increasing,
  too_many_pages, no_secret, no_wire_name, invalid_permissions, mismatch_and, robot_of,
  is_accounted_for, from_harbor_robot,
}
use harbor_workload_identity.HarborClient.Listing.{
  Page, Pages, page_query, page_size, max_pages, is_after, and_robot, walk, asked, finish,
  list_pages, list, match_name, name_filter, first_suffix_hit, holds_id, recheck, check_suffix_hit,
  or_not_found, get_by_name,
}
use harbor_workload_identity.HarborClient.Listing.Complete.{HonoursQueries, list-In}

pub match_name-some :
    (robots : List Robot) (name : Bytes) (r : Robot)
    → match_name robots name ≡ some r
    → r.name ≡ name
unfolding match_name
match_name-some [] name r e = absurd cc
match_name-some (x ∷ robots) name r e = elim (Bool-cases (text_eq x.name name)) [
  | inl t ↦
      let here : ◌≡◌ {A = Option Robot} (some x) (some r) = rw t at e in
      let same : x ≡ r = ground arith in ap (λ y. y.name) (sym same) ∙ (text_eq_iff x.name name).0 t
  | inr f ↦ match_name-some robots name r (rw f at e)
]

-- A robot of the list under the name is found, or another one is before it.
pub match_name-In :
    (robots : List Robot) (r : Robot)
    → In r robots
    → (found : Robot) × (match_name robots r.name ≡ some found)
unfolding match_name
match_name-In [] r i = absurd i
match_name-In (x ∷ robots) r i = elim (Bool-cases (text_eq x.name r.name)) [
  | inl t ↦ (x, rw t refl)
  | inr f ↦ elim i [
    | inl same ↦
        let t = (text_eq_iff x.name r.name).1 (ap (λ y. y.name) (sym same)) in absurd (ground arith)
    | inr j ↦ let (found, e) = match_name-In robots r j in (found, rw f e)
  ]
]

module _ {E : Type 0} where
  -- Not the error that says that there is no such robot.
  abbrev NotMissing : {A : Type 0} → Result (ClientError E) A → Type 0
  NotMissing (ok a) = Unit
  NotMissing (err robot_not_found) = ⊥
  NotMissing (err prefix_mismatch) = Unit
  NotMissing (err (harbor e)) = Unit
  NotMissing (err id_not_increasing) = Unit
  NotMissing (err too_many_pages) = Unit
  NotMissing (err no_secret) = Unit
  NotMissing (err no_wire_name) = Unit
  NotMissing (err invalid_permissions) = Unit
  NotMissing (err (mismatch_and e)) = Unit

  NotMissing->>=-eq :
      {A B : Type 0} (m : Result (ClientError E) A) (f : A → Result (ClientError E) B)
      → NotMissing m
      → ((a : A) → m ≡ ok a → NotMissing (f a))
      → NotMissing (m >>= f)
  NotMissing->>=-eq (ok a) f h k = k a refl
  NotMissing->>=-eq (err robot_not_found) f h k = h
  NotMissing->>=-eq (err prefix_mismatch) f h k = tt
  NotMissing->>=-eq (err (harbor e)) f h k = tt
  NotMissing->>=-eq (err id_not_increasing) f h k = tt
  NotMissing->>=-eq (err too_many_pages) f h k = tt
  NotMissing->>=-eq (err no_secret) f h k = tt
  NotMissing->>=-eq (err no_wire_name) f h k = tt
  NotMissing->>=-eq (err invalid_permissions) f h k = tt
  NotMissing->>=-eq (err (mismatch_and e)) f h k = tt

  NotMissing->>= :
      {A B : Type 0} (m : Result (ClientError E) A) (f : A → Result (ClientError E) B)
      → NotMissing m
      → ((a : A) → NotMissing (f a))
      → NotMissing (m >>= f)
  NotMissing->>= m f h k = NotMissing->>=-eq m f h (λ a e. k a)

module _ (E : Type 0) (prefix : Bytes) where
  from_harbor_robot-NotMissing : (r : HarborRobot) → NotMissing {E = E} (from_harbor_robot prefix r)
  unfolding from_harbor_robot
  from_harbor_robot-NotMissing r = elim (Bool-cases (is_accounted_for prefix r)) [
    | inl e ↦ rw e tt
    | inr e ↦ rw e tt
  ]

  walk-NotMissing : (cursor : ℕ) (page : Page) → NotMissing {E = E} (walk prefix cursor page)
  unfolding walk
  walk-NotMissing cursor [] = tt
  walk-NotMissing cursor (none ∷ page) = walk-NotMissing cursor page
  walk-NotMissing cursor (some r ∷ page) = elim (Bool-cases (is_after cursor r.id)) [
    | inl e ↦ rw e (
        NotMissing->>= (from_harbor_robot prefix r)
          (λ robot. walk prefix (pos_part r.id) page >>= and_robot robot)
          (from_harbor_robot-NotMissing r)
          (λ robot.
            NotMissing->>= (walk prefix (pos_part r.id) page) (and_robot robot)
              (walk-NotMissing (pos_part r.id) page) (λ w. tt)))
    | inr e ↦ rw e tt
  ]

  asked-NotMissing : (a : Result E Page) → NotMissing (asked prefix a)
  asked-NotMissing (ok page) = tt
  asked-NotMissing (err e) = tt

  finish-NotMissing :
      (b : Bool) (robots : List Robot) (rest : Result (ClientError E) (List Robot))
      → NotMissing rest
      → NotMissing (finish prefix b robots rest)
  finish-NotMissing true robots rest h = tt
  finish-NotMissing false robots rest h = NotMissing->>= rest _ h (λ more. tt)

  list_pages-NotMissing :
      (pages : Pages E) (filter : Bytes) (left n cursor : ℕ)
      → NotMissing (list_pages prefix pages filter left n cursor)
  unfolding list_pages
  list_pages-NotMissing pages filter zero n cursor = tt
  list_pages-NotMissing pages filter (suc left) n cursor =
      NotMissing->>= (asked prefix (pages n (page_query filter cursor))) _
        (asked-NotMissing (pages n (page_query filter cursor)))
        (λ page. NotMissing->>= (walk prefix cursor page) _ (walk-NotMissing cursor page) (λ walked.
          finish-NotMissing (ltb (length page) page_size) walked.robots
            (list_pages prefix pages filter left (suc n) walked.cursor)
            (list_pages-NotMissing pages filter left (suc n) walked.cursor)))

  list-NotMissing : (pages : Pages E) (filter : Bytes) → NotMissing (list prefix pages filter)
  unfolding list
  list-NotMissing pages filter = list_pages-NotMissing pages filter max_pages 1 0

  recheck-NotMissing :
      (again : Pages E) (hit : Option Robot) → NotMissing (recheck prefix again hit)
  recheck-NotMissing again none = tt
  recheck-NotMissing again (some r) =
      NotMissing->>= (list prefix again (name_filter r.name)) _
        (list-NotMissing again (name_filter r.name))
        (λ found. elim (Bool-cases (holds_id r.id found)) [ inl h ↦ rw h tt | inr h ↦ rw h tt ])

  check_suffix_hit-NotMissing :
      (again : Pages E) (name : Bytes) (robots : List Robot)
      → NotMissing (check_suffix_hit prefix again name robots)
  unfolding check_suffix_hit
  check_suffix_hit-NotMissing again name robots =
      recheck-NotMissing again (first_suffix_hit prefix name robots)

  -- What is found has the name.
  or_not_found-name :
      (robots : List Robot) (name : Bytes) (r : Robot)
      → ◌≡◌ {A = Result (ClientError E) Robot} (or_not_found prefix (match_name robots name)) (ok r)
      → r.name ≡ name
  or_not_found-name robots name r e = elim (Option-cases (match_name robots name)) [
    | inl n ↦ absurd (ground arith)
    | inr (x, n) ↦
        let here : ◌≡◌ {A = Result (ClientError E) Robot} (ok x) (ok r) = rw n at e in
        match_name-some robots name r (n ∙ ap some (ok_injective here))
  ]

  -- Whatever Harbor answers, a robot that the lookup returns has the name that was asked for.
  pub get_by_name-name :
      (filtered again scan : Pages E) (name : Bytes) (r : Robot)
      → ◌≡◌ {A = Result (ClientError E) Robot} (get_by_name prefix filtered again scan name) (ok r)
      → r.name ≡ name
  unfolding get_by_name
  get_by_name-name filtered again scan name r e =
      let (robots, listed, next) = >>=-eq-ok (list prefix filtered (name_filter name)) _ e in
      elim (Option-cases (match_name robots name)) [
        | inr (x, n) ↦
            let here : ◌≡◌ {A = Result (ClientError E) Robot} (ok x) (ok r) = rw n at next in
            match_name-some robots name r (n ∙ ap some (ok_injective here))
        | inl n ↦
            let scanned : ◌≡◌ {A = Result (ClientError E) Robot}
                (check_suffix_hit prefix again name robots
                  >> (list prefix scan []
                      >>= (λ every. or_not_found prefix (match_name every name))))
                (ok r) =
              rw n at next in
            let (_, checked, rest) =
              >>=-eq-ok (check_suffix_hit prefix again name robots) _ scanned in
            let (every, listed', last) = >>=-eq-ok (list prefix scan []) _ rest in
            or_not_found-name every name r last
      ]

  -- From a Harbor that honours the queries of the scan, whatever it adds or deletes meanwhile and
  -- whatever it answers to the filtered queries, a robot with a positive id that it holds throughout
  -- is never reported as not found under its name.
  pub get_by_name_not_missing :
      (filtered again scan : Pages E) (held : ℕ → HarborRobot → Type 0) (r : HarborRobot) (id : ℕ)
      → HonoursQueries scan [] held
      → r.id ≡ pos (suc id)
      → ((n : ℕ) → held n r)
      → get_by_name prefix filtered again scan (robot_of prefix r).name ≢ err robot_not_found
  unfolding get_by_name
  get_by_name_not_missing filtered again scan held r id honest named present e =
      let name = (robot_of prefix r).name in
      subst NotMissing e (
        NotMissing->>= (list prefix filtered (name_filter name)) _
          (list-NotMissing filtered (name_filter name))
          (λ robots. elim (Option-cases (match_name robots name)) [
            | inr (x, n) ↦ rw n tt
            | inl n ↦ rw n (
                NotMissing->>= (check_suffix_hit prefix again name robots) _
                  (check_suffix_hit-NotMissing again name robots)
                  (λ u.
                    NotMissing->>=-eq (list prefix scan []) _ (list-NotMissing scan [])
                      (λ every listed.
                        let (found, m) =
                          match_name-In every (robot_of prefix r)
                            (list-In prefix scan [] held every r id honest named present listed) in
                        rw m tt)))
          ]))
