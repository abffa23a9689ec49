-- ===== src/Text/Prefix.antt =====
-- Laws of equality, prefixes and cuts.
use harbor_workload_identity.Base.{
  ℕ, true, false, ◌≡◌, ◌≢◌, ◌↔◌, inl, inr, refl, [], ◌∷◌, ◌++◌, none, some, Bool-cases, arith,
}
use harbor_workload_identity.Text.{Bytes, text_eq, cut_prefix, has_prefix, has_byte, cut}

pub text_eq_iff : (a b : Bytes) → (text_eq a b ≡ true) ↔ (a ≡ b)
unfolding text_eq
text_eq_iff [] [] = ground arith
text_eq_iff [] (y ∷ ys) = ground arith
text_eq_iff (x ∷ xs) [] = ground arith
text_eq_iff (x ∷ xs) (y ∷ ys) = ground (arith, text_eq_iff xs ys)

pub text_eq_self : (a : Bytes) → text_eq a a ≡ true
text_eq_self a = (text_eq_iff a a).1 refl

pub text_ne : {a b : Bytes} → a ≢ b → text_eq a b ≡ false
text_ne {a} {b} h = elim (Bool-cases (text_eq a b)) [
  | inl e ↦ absurd (h ((text_eq_iff a b).0 e))
  | inr e ↦ e
]

pub cut_prefix-append : (p s : Bytes) → cut_prefix p (p ++ s) ≡ some s
unfolding cut_prefix
cut_prefix-append [] s = refl
cut_prefix-append (x ∷ p) s = ground (arith, cut_prefix-append p s)

pub cut_prefix-eq-some : (p s : Bytes) {r : Bytes} → cut_prefix p s ≡ some r → s ≡ p ++ r
unfolding cut_prefix
cut_prefix-eq-some [] s e = ground arith
cut_prefix-eq-some (x ∷ p) [] e = ground arith
cut_prefix-eq-some (x ∷ p) (c ∷ s) {r} e = ground (arith, cut_prefix-eq-some p s {r = r})

pub has_prefix-append : (p s : Bytes) → has_prefix p (p ++ s) ≡ true
unfolding has_prefix
has_prefix-append [] s = refl
has_prefix-append (x ∷ p) s = ground (arith, has_prefix-append p s)

pub has_prefix-split : (p s : Bytes) → has_prefix p s ≡ true → (r : Bytes) × (s ≡ p ++ r)
unfolding has_prefix
has_prefix-split [] s h = (s, refl)
has_prefix-split (x ∷ p) [] h = absurd (ground arith)
has_prefix-split (x ∷ p) (c ∷ s) h =
    let (r, e) = has_prefix-split p s (ground arith) in (r, ground arith)

pub has_byte-append :
    (b : ℕ) (s t : Bytes)
    → has_byte b s ≡ false
    → has_byte b t ≡ false
    → has_byte b (s ++ t) ≡ false
unfolding has_byte
has_byte-append b [] t h k = k
has_byte-append b (c ∷ s) t h k = ground (arith, has_byte-append b s t)

pub has_byte-append_right : (b : ℕ) (s t : Bytes) → has_byte b t ≡ true → has_byte b (s ++ t) ≡ true
unfolding has_byte
has_byte-append_right b [] t h = h
has_byte-append_right b (c ∷ s) t h = ground (arith, has_byte-append_right b s t)

pub cut-append : (b : ℕ) (s t : Bytes) → has_byte b s ≡ false → cut b (s ++ b ∷ t) ≡ some (s, t)
unfolding cut has_byte
cut-append b [] t h = ground arith
cut-append b (c ∷ s) t h = ground (arith, cut-append b s t)

pub cut-none : (b : ℕ) (s : Bytes) → has_byte b s ≡ false → cut b s ≡ none
unfolding cut has_byte
cut-none b [] h = refl
cut-none b (c ∷ s) h = ground (arith, cut-none b s)

-- A text splits at its first separator in one way only.
pub split_unique :
    (b : ℕ) (s s' t t' : Bytes)
    → has_byte b s ≡ false
    → has_byte b s' ≡ false
    → s ++ b ∷ t ≡ s' ++ b ∷ t'
    → (s ≡ s') × (t ≡ t')
unfolding has_byte
split_unique b [] [] t t' h k e = ground arith
split_unique b [] (c ∷ s') t t' h k e = ground arith
split_unique b (c ∷ s) [] t t' h k e = ground arith
split_unique b (c ∷ s) (d ∷ s') t t' h k e = ground (arith, split_unique b s s' t t')

pub append-cancel_left : (p s t : Bytes) → p ++ s ≡ p ++ t → s ≡ t
append-cancel_left [] s t e = e
append-cancel_left (x ∷ p) s t e = append-cancel_left p s t (ground arith)
