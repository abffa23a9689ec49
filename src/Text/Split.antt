-- ===== src/Text/Split.antt =====
-- `strings.Split` and `strings.Join` with separators of one byte, and `strings.TrimSpace`.
use harbor_workload_identity.Base.{
  ℕ, zero, suc, false, ◌≡◌, refl, ap, ◌∙◌, List, [], ◌∷◌, ◌++◌, All, ◌==◌, length, if◌then◌else◌,
  arith, Bool-cases, inl, inr,
}
use harbor_workload_identity.Text.{Bytes, space_width}

abbrev extend_first : ℕ → List Bytes → List Bytes
extend_first c [] = (c ∷ []) ∷ []
extend_first c (w ∷ ws) = (c ∷ w) ∷ ws

-- `strings.Split(s, sep)`
unfoldable pub split : ℕ → Bytes → List Bytes
split b [] = [] ∷ []
split b (c ∷ s) = if c == b then [] ∷ split b s else extend_first c (split b s)

-- `strings.Join(parts, sep)`
unfoldable pub join : Bytes → List Bytes → Bytes
join sep [] = []
join sep (w ∷ []) = w
join sep (w ∷ v ∷ vs) = w ++ (sep ++ join sep (v ∷ vs))

-- The text after its leading spaces; `skip` bytes of a space are still to be passed over.
unfoldable pub skip_spaces : ℕ → Bytes → Bytes
skip_spaces skip [] = []
skip_spaces (suc skip) (c ∷ s) = skip_spaces skip s
skip_spaces zero (c ∷ s) = elim (space_width (c ∷ s)) [ zero ↦ c ∷ s | suc n ↦ skip_spaces n s ]

-- The text before its trailing spaces.
unfoldable pub drop_spaces : Bytes → Bytes
drop_spaces [] = []
drop_spaces (c ∷ s) =
    let rest = c ∷ drop_spaces s in if space_width rest == length rest then [] else rest

-- `strings.TrimSpace(s)`
unfoldable pub trim_space : Bytes → Bytes
unfolding skip_spaces drop_spaces
trim_space s = drop_spaces (skip_spaces zero s)

module _ (P : ℕ → Type 0) where
  skip_spaces-All : (k : ℕ) (s : Bytes) → All P s → All P (skip_spaces k s)
  unfolding skip_spaces
  skip_spaces-All k [] h = h
  skip_spaces-All (suc k) (c ∷ s) h = skip_spaces-All k s h.1
  skip_spaces-All zero (c ∷ s) h =
      elim (space_width (c ∷ s))
        as (λ w. All P (elim w [ zero ↦ c ∷ s | suc n ↦ skip_spaces n s ])) [
          | zero ↦ h
          | suc n ↦ skip_spaces-All n s h.1
        ]

  drop_spaces-All : (s : Bytes) → All P s → All P (drop_spaces s)
  unfolding drop_spaces
  drop_spaces-All [] h = h
  drop_spaces-All (c ∷ s) h =
      let rest = c ∷ drop_spaces s in
      elim (Bool-cases (space_width rest == length rest)) [
        | inl e ↦ rw e tt
        | inr e ↦ rw e (h.0, drop_spaces-All s h.1)
      ]

  pub trim_space-All : (s : Bytes) → All P s → All P (trim_space s)
  unfolding trim_space
  trim_space-All s h = drop_spaces-All (skip_spaces zero s) (skip_spaces-All zero s h)

-- Not the separator.
abbrev pub IsOther : ℕ → ℕ → Type 0
IsOther b c = (c == b) ≡ false

pub split-IsOther : (b : ℕ) (s : Bytes) → All (All (IsOther b)) (split b s)
unfolding split
split-IsOther b [] = (tt, tt)
split-IsOther b (c ∷ s) = elim (Bool-cases (c == b)) [
  | inl e ↦ rw e (tt, split-IsOther b s)
  | inr e ↦ rw e (extend_first-All (split b s) (split-IsOther b s) e)
]
  where
    extend_first-All :
        (ws : List Bytes)
        → All (All (IsOther b)) ws
        → IsOther b c
        → All (All (IsOther b)) (extend_first c ws)
    extend_first-All [] h e = ((e, tt), tt)
    extend_first-All (w ∷ ws) h e = ((e, h.0), h.1)

split-word : (b : ℕ) (w s : Bytes) → All (IsOther b) w → split b (w ++ b ∷ s) ≡ w ∷ split b s
unfolding split
split-word b [] s h = ground arith
split-word b (c ∷ w) s h = rw h.0 (ap (extend_first c) (split-word b w s h.1))

pub split_last : (b : ℕ) (w : Bytes) → All (IsOther b) w → split b w ≡ w ∷ []
unfolding split
split_last b [] h = refl
split_last b (c ∷ w) h = rw h.0 (ap (extend_first c) (split_last b w h.1))

-- Words without the separator come back from their join.
pub split-join :
    (b : ℕ) (w : Bytes) (ws : List Bytes)
    → All (All (IsOther b)) (w ∷ ws)
    → split b (join (b ∷ []) (w ∷ ws)) ≡ w ∷ ws
unfolding join
split-join b w [] h = split_last b w h.0
split-join b w (v ∷ vs) h =
    split-word b w (join (b ∷ []) (v ∷ vs)) h.0 ∙ ap (◌∷◌ w) (split-join b v vs h.1)
