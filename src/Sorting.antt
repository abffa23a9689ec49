-- ===== src/Sorting.antt =====
-- `sort.Slice` with a strict total order, as insertion: the ascending list of the same members.
use harbor_workload_identity.Base.{
  Bool, true, false, ◌≡◌, ◌⊎◌, ◌↔◌, inl, inr, refl, sym, subst, List, [], ◌∷◌, All, In, Bool-cases,
  if◌then◌else◌, arith,
}

unfoldable pub insert_sorted : {A : Type 0} → (A → A → Bool) → A → List A → List A
insert_sorted less x [] = x ∷ []
insert_sorted less x (y ∷ ys) =
    let rest = insert_sorted less x ys in if less x y then x ∷ y ∷ ys else y ∷ rest

unfoldable pub sort_by : {A : Type 0} → (A → A → Bool) → List A → List A
sort_by less [] = []
sort_by less (x ∷ xs) = insert_sorted less x (sort_by less xs)

-- No element occurs twice.
abbrev pub Distinct : {A : Type 0} → List A → Type 0
Distinct [] = Unit
Distinct (x ∷ xs) = ¬ In x xs × Distinct xs

module _ {A : Type 0} where
  pub All-In : (P : A → Type 0) (xs : List A) {a : A} → All P xs → In a xs → P a
  All-In P [] h i = absurd i
  All-In P (x ∷ xs) h (inl e) = subst P (sym e) h.0
  All-In P (x ∷ xs) h (inr i) = All-In P xs h.1 i

  pub All-intro : (P : A → Type 0) (xs : List A) → ((a : A) → In a xs → P a) → All P xs
  All-intro P [] f = tt
  All-intro P (x ∷ xs) f = (f x (inl refl), All-intro P xs (λ a i. f a (inr i)))

  abbrev pub SameMembers : List A → List A → Type 0
  SameMembers xs ys = (a : A) → In a xs ↔ In a ys

module _ {A : Type 0} (less : A → A → Bool) where
  abbrev pub Ascending : List A → Type 0
  Ascending [] = Unit
  Ascending (x ∷ xs) = All (λ y. less x y ≡ true) xs × Ascending xs

  insert_sorted-to :
      (x : A) (ys : List A) (a : A) → In a (insert_sorted less x ys) → (a ≡ x) ⊎ In a ys
  unfolding insert_sorted
  insert_sorted-to x [] a i = i
  insert_sorted-to x (y ∷ ys) a i = elim (Bool-cases (less x y)) [
    | inl e ↦ rw e at i
    | inr e ↦
        let j : (a ≡ y) ⊎ In a (insert_sorted less x ys) = rw e at i in
        elim j [
          | inl q ↦ inr (inl q)
          | inr k ↦ elim (insert_sorted-to x ys a k) [ inl q ↦ inl q | inr l ↦ inr (inr l) ]
        ]
  ]

  insert_sorted-from :
      (x : A) (ys : List A) (a : A) → (a ≡ x) ⊎ In a ys → In a (insert_sorted less x ys)
  unfolding insert_sorted
  insert_sorted-from x [] a i = i
  insert_sorted-from x (y ∷ ys) a i = elim (Bool-cases (less x y)) [
    | inl e ↦ rw e i
    | inr e ↦ rw e (elim i as (λ i. (a ≡ y) ⊎ In a (insert_sorted less x ys)) [
      | inl q ↦ inr (insert_sorted-from x ys a (inl q))
      | inr (inl q) ↦ inl q
      | inr (inr k) ↦ inr (insert_sorted-from x ys a (inr k))
    ])
  ]

  pub sort_by-to : (xs : List A) (a : A) → In a (sort_by less xs) → In a xs
  unfolding sort_by
  sort_by-to [] a i = i
  sort_by-to (x ∷ xs) a i = elim (insert_sorted-to x (sort_by less xs) a i) [
    | inl e ↦ inl e
    | inr j ↦ inr (sort_by-to xs a j)
  ]

  pub sort_by-from : (xs : List A) (a : A) → In a xs → In a (sort_by less xs)
  unfolding sort_by
  sort_by-from [] a i = i
  sort_by-from (x ∷ xs) a (inl e) = insert_sorted-from x (sort_by less xs) a (inl e)
  sort_by-from (x ∷ xs) a (inr i) =
      insert_sorted-from x (sort_by less xs) a (inr (sort_by-from xs a i))

  module _ (asymm : (a b : A) → less a b ≡ true → less b a ≡ false)
      (less_trans : (a b c : A) → less a b ≡ true → less b c ≡ true → less a c ≡ true)
      (connected : (a b : A) → less a b ≡ false → less b a ≡ false → a ≡ b) where
    insert_sorted-Ascending :
        (x : A) (ys : List A) → ¬ In x ys → Ascending ys → Ascending (insert_sorted less x ys)
    unfolding insert_sorted
    insert_sorted-Ascending x [] n h = (tt, tt)
    insert_sorted-Ascending x (y ∷ ys) n h = elim (Bool-cases (less x y)) [
      | inl e ↦ rw e (
        (e, All-intro _ ys (λ a i. less_trans x y a e (All-In (λ y'. less y y' ≡ true) ys h.0 i))),
        h,
      )
      | inr e ↦
          let y_x : less y x ≡ true = elim (Bool-cases (less y x)) [
            | inl q ↦ q
            | inr q ↦ absurd (n (inl (connected x y e q)))
          ] in
          rw e (
            All-intro _ (insert_sorted less x ys) (λ a i. elim (insert_sorted-to x ys a i) [
              | inl q ↦ rw q y_x
              | inr j ↦ All-In (λ y'. less y y' ≡ true) ys h.0 j
            ]),
            insert_sorted-Ascending x ys (λ i. n (inr i)) h.1,
          )
    ]

    pub sort_by-Ascending : (xs : List A) → Distinct xs → Ascending (sort_by less xs)
    unfolding sort_by
    sort_by-Ascending [] d = tt
    sort_by-Ascending (x ∷ xs) d =
        insert_sorted-Ascending x (sort_by less xs) (λ i. d.0 (sort_by-to xs x i))
          (sort_by-Ascending xs d.1)

    ahead : (x a : A) (xs : List A) → Ascending (x ∷ xs) → In a xs → less x a ≡ true
    ahead x a xs h i = All-In (λ y. less x y ≡ true) xs h.0 i

    not_own : (x : A) (xs : List A) → Ascending (x ∷ xs) → ¬ In x xs
    not_own x xs h i = let s = ahead x x xs h i in let f = asymm x x s in ground arith

    heads :
        (x y : A) (xs ys : List A)
        → Ascending (x ∷ xs)
        → Ascending (y ∷ ys)
        → In x (y ∷ ys)
        → In y (x ∷ xs)
        → x ≡ y
    heads x y xs ys h k (inl e) j = e
    heads x y xs ys h k (inr i) (inl e) = sym e
    heads x y xs ys h k (inr i) (inr j) =
        let s = ahead x y xs h j in
        let t = ahead y x ys k i in let f = asymm x y s in absurd (ground arith)

    tails :
        (x : A) (xs ys : List A)
        → Ascending (x ∷ xs)
        → ((a : A) → In a (x ∷ xs) → In a (x ∷ ys))
        → (a : A) → In a xs
        → In a ys
    tails x xs ys h f a i = elim (f a (inr i)) [
      | inl e ↦ absurd (not_own x xs h (rw e at i))
      | inr j ↦ j
    ]

    -- An ascending list is determined by its members.
    pub Ascending-unique :
        (xs ys : List A) → Ascending xs → Ascending ys → SameMembers xs ys → xs ≡ ys
    Ascending-unique [] [] h k same = refl
    Ascending-unique [] (y ∷ ys) h k same = absurd ((same y).1 (inl refl))
    Ascending-unique (x ∷ xs) [] h k same = absurd ((same x).0 (inl refl))
    Ascending-unique (x ∷ xs) (y ∷ ys) h k same =
        let e = heads x y xs ys h k ((same x).0 (inl refl)) ((same y).1 (inl refl)) in
        let k' : Ascending (x ∷ ys) = rw (sym e) at k in
        let to : (a : A) → In a (x ∷ xs) → In a (x ∷ ys) = λ a i. rw (sym e) at ((same a).0 i) in
        let from : (a : A) → In a (x ∷ ys) → In a (x ∷ xs) = λ a i. (same a).1 (rw e at i) in
        let rest =
          Ascending-unique xs ys h.1 k.1 (λ a. (tails x xs ys h to a, tails x ys xs k' from a)) in
        rw (e, rest) refl
