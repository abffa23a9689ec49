-- ===== src/Dataplane/Matching/Order.antt =====
-- The order by namespace and name, and the head of a sorted list.
use harbor_workload_identity.Base.{
  true, false, ◌≡◌, ◌⊎◌, inl, inr, refl, sym, List, [], ◌∷◌, none, some, In, Bool-cases, List-cases,
  arith,
}
use harbor_workload_identity.Text.Prefix.{text_eq_iff}
use harbor_workload_identity.Text.Order.{
  text_lt-asymm, text_lt-connected, text_lt_irrefl, text_lt-cotrans,
}
use harbor_workload_identity.Dataplane.Matching.{Match, name_less, insert_by_name, by_name, first}

name_less-asymm : (a b : Match) → name_less a b ≡ true → name_less b a ≡ false
unfolding name_less
name_less-asymm a b h = ground (
  arith,
  text_eq_iff a.ha.namespace b.ha.namespace,
  text_eq_iff b.ha.namespace a.ha.namespace,
  text_lt-asymm a.ha.namespace b.ha.namespace,
  text_lt-asymm a.ha.name b.ha.name,
)

name_less_irrefl : (a : Match) → name_less a a ≡ false
unfolding name_less
name_less_irrefl a =
    ground (arith, text_eq_iff a.ha.namespace a.ha.namespace, text_lt_irrefl a.ha.name)

-- Two objects neither of which comes before the other have one key.
pub name_less-connected :
    (a b : Match)
    → name_less a b ≡ false
    → name_less b a ≡ false
    → (a.ha.namespace ≡ b.ha.namespace) × (a.ha.name ≡ b.ha.name)
unfolding name_less
name_less-connected a b h k =
    let same : a.ha.namespace ≡ b.ha.namespace = ground (
      arith,
      text_eq_iff a.ha.namespace b.ha.namespace,
      text_eq_iff b.ha.namespace a.ha.namespace,
      text_lt-connected a.ha.namespace b.ha.namespace,
    ) in
    (
      same,
      text_lt-connected a.ha.name b.ha.name
          (ground (arith, text_eq_iff a.ha.namespace b.ha.namespace))
          (ground (arith, text_eq_iff b.ha.namespace a.ha.namespace)),
    )

name_less-cotrans :
    (a b c : Match) → name_less a b ≡ false → name_less b c ≡ false → name_less a c ≡ false
unfolding name_less
name_less-cotrans a b c h k = ground (
  arith,
  text_eq_iff a.ha.namespace b.ha.namespace,
  text_eq_iff b.ha.namespace c.ha.namespace,
  text_eq_iff a.ha.namespace c.ha.namespace,
  text_lt-cotrans a.ha.namespace b.ha.namespace c.ha.namespace,
  text_lt-connected a.ha.namespace b.ha.namespace,
  text_lt-connected b.ha.namespace c.ha.namespace,
  text_lt-cotrans a.ha.name b.ha.name c.ha.name,
  text_lt-cotrans b.ha.namespace c.ha.namespace a.ha.namespace,
  text_lt-asymm a.ha.namespace c.ha.namespace,
  text_lt-cotrans c.ha.namespace a.ha.namespace b.ha.namespace,
)

-- Sorting keeps the elements.
In-insert_by_name : (x m : Match) (ms : List Match) → In x (insert_by_name m ms) → (x ≡ m) ⊎ In x ms
unfolding insert_by_name
In-insert_by_name x m [] i = i
In-insert_by_name x m (n ∷ ms) i = elim (Bool-cases (name_less n m)) [
  | inl e ↦
      let j : (x ≡ n) ⊎ In x (insert_by_name m ms) = rw e at i in
      elim j [
        | inl here ↦ inr (inl here)
        | inr k ↦ elim (In-insert_by_name x m ms k) [ inl here ↦ inl here | inr l ↦ inr (inr l) ]
      ]
  | inr e ↦ rw e at i
]

pub In-by_name : (x : Match) (ms : List Match) → In x (by_name ms) → In x ms
unfolding by_name
In-by_name x [] i = i
In-by_name x (m ∷ ms) i = elim (In-insert_by_name x m (by_name ms) i) [
  | inl e ↦ inl e
  | inr j ↦ inr (In-by_name x ms j)
]

-- No element of the list comes before its head.
abbrev HeadFirst : List Match → List Match → Type 0
HeadFirst ms [] = ms ≡ []
HeadFirst ms (h ∷ t) = (x : Match) → In x ms → name_less x h ≡ false

insert_by_name-HeadFirst :
    (m : Match) (ms sorted : List Match)
    → HeadFirst ms sorted
    → HeadFirst (m ∷ ms) (insert_by_name m sorted)
unfolding insert_by_name
insert_by_name-HeadFirst m ms [] h =
    λ x i. elim i [ inl e ↦ rw e (name_less_irrefl m) | inr j ↦ absurd (rw h at j) ]
insert_by_name-HeadFirst m ms (n ∷ sorted) h = elim (Bool-cases (name_less n m)) [
  | inl e ↦ rw e (λ x i. elim i [ inl here ↦ rw here (name_less-asymm n m e) | inr j ↦ h x j ])
  | inr e ↦ rw e (λ x i. elim i [
    | inl here ↦ rw here (name_less_irrefl m)
    | inr j ↦ name_less-cotrans x n m (h x j) e
  ])
]

pub by_name-HeadFirst : (ms : List Match) → HeadFirst ms (by_name ms)
unfolding by_name
by_name-HeadFirst [] = refl
by_name-HeadFirst (m ∷ ms) = insert_by_name-HeadFirst m ms (by_name ms) (by_name-HeadFirst ms)

-- The first of the sorted list is an element, and no other comes before it.
pub first-by_name :
    (ms : List Match) {h : Match}
    → first (by_name ms) ≡ some h
    → In h ms × ((x : Match) → In x ms → name_less x h ≡ false)
first-by_name ms {h} e = elim (List-cases (by_name ms)) [
  | inl empty ↦ absurd (ground arith)
  | inr (x, t, split) ↦
      let here : x ≡ h = ground arith in
      let least : (y : Match) → In y ms → name_less y x ≡ false =
        rw split at (by_name-HeadFirst ms) in
      (In-by_name h ms (rw split (inl (sym here))), λ y i. rw (← here) (least y i))
]

-- Only an empty list has no first.
pub first-by_name-none : (ms : List Match) → first (by_name ms) ≡ none → ms ≡ []
first-by_name-none ms e = elim (List-cases (by_name ms)) [
  | inl empty ↦ rw empty at (by_name-HeadFirst ms)
  | inr (x, t, split) ↦ absurd (ground arith)
]
