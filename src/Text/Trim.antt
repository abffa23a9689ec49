-- ===== src/Text/Trim.antt =====
-- A trimmed text stays as it is (`strings.TrimSpace`).
use harbor_workload_identity.Base.{
  ℕ, zero, suc, ◌≡◌, refl, ap, ◌∙◌, [], ◌∷◌, ◌==◌, length, inl, inr, arith, Bool-cases,
}
use harbor_workload_identity.Text.{Bytes, space_width}
use harbor_workload_identity.Text.Split.{skip_spaces, drop_spaces, trim_space}

drop_spaces_idem : (s : Bytes) → drop_spaces (drop_spaces s) ≡ drop_spaces s
unfolding drop_spaces
drop_spaces_idem [] = refl
drop_spaces_idem (c ∷ s) =
    let rest = c ∷ drop_spaces s in
    elim (Bool-cases (space_width rest == length rest)) [
      | inl e ↦ rw e refl
      | inr e ↦ rw (e, drop_spaces_idem s, e) refl
    ]

-- The first text is a prefix of the second.
abbrev IsPrefix : Bytes → Bytes → Type 0
IsPrefix [] t = Unit
IsPrefix (c ∷ s) [] = ⊥
IsPrefix (c ∷ s) (d ∷ t) = (c ≡ d) × IsPrefix s t

drop_spaces-IsPrefix : (s : Bytes) → IsPrefix (drop_spaces s) s
unfolding drop_spaces
drop_spaces-IsPrefix [] = tt
drop_spaces-IsPrefix (c ∷ s) =
    let rest = c ∷ drop_spaces s in
    elim (Bool-cases (space_width rest == length rest)) [
      | inl e ↦ rw e tt
      | inr e ↦ rw e (refl, drop_spaces-IsPrefix s)
    ]

-- No space appears at the head when the text behind it gets shorter.
space_width-IsPrefix :
    (c : ℕ) (s t : Bytes) → IsPrefix s t → space_width (c ∷ t) ≡ 0 → space_width (c ∷ s) ≡ 0
unfolding space_width
space_width-IsPrefix c [] [] p h = h
space_width-IsPrefix c [] (d ∷ []) p h = ground arith
space_width-IsPrefix c [] (d ∷ e ∷ t) p h = ground arith
space_width-IsPrefix c (a ∷ s) [] p h = absurd p
space_width-IsPrefix c (a ∷ []) (d ∷ []) p h = ground arith
space_width-IsPrefix c (a ∷ []) (d ∷ e ∷ t) p h = ground arith
space_width-IsPrefix c (a ∷ b ∷ s) (d ∷ []) p h = absurd p.1
space_width-IsPrefix c (a ∷ b ∷ s) (d ∷ e ∷ t) p h = rw (p.0, p.1.0) h

-- The text is empty or does not start with a space.
abbrev HasNoLead : Bytes → Type 0
HasNoLead [] = Unit
HasNoLead (c ∷ s) = space_width (c ∷ s) ≡ 0

skip_spaces-HasNoLead : (k : ℕ) (s : Bytes) → HasNoLead (skip_spaces k s)
unfolding skip_spaces
skip_spaces-HasNoLead k [] = tt
skip_spaces-HasNoLead (suc k) (c ∷ s) = skip_spaces-HasNoLead k s
skip_spaces-HasNoLead zero (c ∷ s) =
    lead (space_width (c ∷ s)) refl (λ n. skip_spaces-HasNoLead n s)
  where
    lead :
        (w : ℕ)
        → space_width (c ∷ s) ≡ w
        → ((n : ℕ) → HasNoLead (skip_spaces n s))
        → HasNoLead (elim w [ zero ↦ c ∷ s | suc n ↦ skip_spaces n s ])
    lead zero e later = e
    lead (suc n) e later = later n

HasNoLead-skip : (s : Bytes) → HasNoLead s → skip_spaces zero s ≡ s
unfolding skip_spaces
HasNoLead-skip [] h = refl
HasNoLead-skip (c ∷ s) h = rw (h, skip_spaces) refl

drop_spaces-HasNoLead : (s : Bytes) → HasNoLead s → HasNoLead (drop_spaces s)
unfolding drop_spaces
drop_spaces-HasNoLead [] h = tt
drop_spaces-HasNoLead (c ∷ s) h =
    let rest = c ∷ drop_spaces s in
    elim (Bool-cases (space_width rest == length rest)) [
      | inl e ↦ rw e tt
      | inr e ↦ rw e (space_width-IsPrefix c (drop_spaces s) s (drop_spaces-IsPrefix s) h)
    ]

pub trim_space_idem : (s : Bytes) → trim_space (trim_space s) ≡ trim_space s
unfolding trim_space
trim_space_idem s =
    let first = skip_spaces zero s in
    ap drop_spaces (
      HasNoLead-skip (drop_spaces first)
        (drop_spaces-HasNoLead first (skip_spaces-HasNoLead zero s)))
    ∙ drop_spaces_idem first
