-- ===== src/Base/Lists.antt =====
-- Lists measured by native numbers, and predicates and searches over them.
use Prim.Native.Nat.{ℕ, zero, suc, ◌+◌, ◌≤◌}
use mathlib.Core.Path.{◌≡◌, refl, ap}
use mathlib.Core.Logic.{◌⊎◌, inl, inr}
use mathlib.Core.List.{List, [], ◌∷◌, ◌++◌}
use native.Mathlib.Nat.{zero-add}
use native.Mathlib.Omega.{arith}

module _ {ℓ} {A : Type ℓ} where
  abbrev pub length : List A → ℕ
  length [] = 0
  length (x ∷ xs) = suc (length xs)

  abbrev pub take : ℕ → List A → List A
  take zero xs = []
  take (suc n) [] = []
  take (suc n) (x ∷ xs) = x ∷ take n xs

  pub length-append : (xs ys : List A) → length (xs ++ ys) ≡ length xs + length ys
  length-append [] ys = omega arith
  length-append (x ∷ xs) ys = omega (arith, length-append xs ys)

  pub length-take : (n : ℕ) (xs : List A) → length (take n xs) ≤ n
  length-take zero xs = omega arith
  length-take (suc n) [] = omega arith
  length-take (suc n) (x ∷ xs) = omega (arith, length-take n xs)

suc-add : (a b : ℕ) → suc a + b ≡ suc (a + b)
suc-add a b = omega arith

module _ {ℓ} {A : Type ℓ} where
  pub take-append : (s t : List A) (k : ℕ) → take (length s + k) (s ++ t) ≡ s ++ take k t
  take-append [] t k = rw zero-add
  take-append (x ∷ s) t k = rw (suc-add (length s) k) (ap (◌∷◌ x) (take-append s t k))

-- Tails of one length are equal if the whole lists are.
module _ {ℓ} {A : Type ℓ} where
  pub append-cancel_tail : (s s' t t' : List A) → length t ≡ length t' → s ++ t ≡ s' ++ t' → t ≡ t'
  append-cancel_tail [] [] t t' h e = e
  append-cancel_tail [] (x ∷ s') t t' h e = absurd (omega (arith, ap length e, length-append s' t'))
  append-cancel_tail (x ∷ s) [] t t' h e = absurd (omega (arith, ap length e, length-append s t))
  append-cancel_tail (x ∷ s) (y ∷ s') t t' h e = append-cancel_tail s s' t t' h (ground arith)

-- A predicate on every element; it computes to tuples, which the tactics read and build.
abbrev pub All {ℓ κ} : {A : Type ℓ} → (A → Type κ) → List A → Type κ
All P [] = Unit
All P (x ∷ xs) = P x × All P xs

-- The value is an element of the list.
abbrev pub In : {A : Type 0} → A → List A → Type 0
In a [] = ⊥
In a (x ∷ xs) = (a ≡ x) ⊎ In a xs

pub List-cases {ℓ} : {A : Type ℓ} (l : List A) → (l ≡ []) ⊎ ((x : A) × (xs : List A) × (l ≡ x ∷ xs))
List-cases [] = inl refl
List-cases (x ∷ xs) = inr (x, xs, refl)
