-- ===== src/Naming/Grammar.antt =====
-- The automaton for names and the regular expression `^[a-z0-9]+(?:[._-][a-z0-9]+)*$` of
-- bridge/controlplane/harbor/naming.go.
use harbor_workload_identity.Base.{
  ℕ, ◌≤◌, Bool, true, false, ◌≡◌, ◌≢◌, ◌↔◌, inl, inr, refl, ap, [], ◌∷◌, ◌++◌, ok, All, Bool-cases,
  length, append-nil, arith,
}
use harbor_workload_identity.Text.{Bytes}
use harbor_workload_identity.Naming.{
  is_alnum, is_separator, matches_from, is_valid_harbor_robot_name, project_name_max_len,
  validate_project_name,
}

abbrev pub IsAlnum : ℕ → Type 0
IsAlnum c = is_alnum c ≡ true

-- `[a-z0-9]+`, then `[._-][a-z0-9]+` any number of times.
pub data MatchesName : Bytes → Type 0 where
  segment : {s : Bytes} (w : Bytes) → All IsAlnum w → w ≢ [] → s ≡ w → MatchesName s
  join :
      {s : Bytes} (w : Bytes) (c : ℕ) (t : Bytes)
      → All IsAlnum w
      → w ≢ []
      → is_separator c ≡ true
      → MatchesName t
      → s ≡ w ++ c ∷ t
      → MatchesName s

-- What may follow an alphanumeric byte: the rest of its segment, and more segments.
data Follows (s : Bytes) : Type 0 where
  last : All IsAlnum s → Follows s
  next :
      (w : Bytes) (c : ℕ) (t : Bytes)
      → All IsAlnum w
      → is_separator c ≡ true
      → MatchesName t
      → s ≡ w ++ c ∷ t
      → Follows s

Follows-cons : (c : ℕ) (s : Bytes) → IsAlnum c → Follows s → Follows (c ∷ s)
Follows-cons c s a (last h) = last (a, h)
Follows-cons c s a (next w d t h sep m e) = next (c ∷ w) d t (a, h) sep m (ap (◌∷◌ c) e)

cons-ne-nil : (c : ℕ) (w : Bytes) → (c ∷ w) ≢ []
cons-ne-nil c w e = ground arith

MatchesName-cons : (c : ℕ) (s : Bytes) → IsAlnum c → Follows s → MatchesName (c ∷ s)
MatchesName-cons c s a (last h) = segment (c ∷ s) (a, h) (cons-ne-nil c s) refl
MatchesName-cons c s a (next w d t h sep m e) =
    join (c ∷ w) d t (a, h) (cons-ne-nil c w) sep m (ap (◌∷◌ c) e)

mutual
  unfolding matches_from

  Follows-matches_from : (s : Bytes) → matches_from true s ≡ true → Follows s
  Follows-matches_from [] h = last tt
  Follows-matches_from (c ∷ s) h = elim (Bool-cases (is_alnum c)) [
    | inl a ↦ Follows-cons c s a (Follows-matches_from s (ground arith))
    | inr a ↦ next [] c s tt (ground arith) (MatchesName-matches_from s (ground arith)) refl
  ]

  MatchesName-matches_from : (s : Bytes) → matches_from false s ≡ true → MatchesName s
  MatchesName-matches_from [] h = absurd (ground arith)
  MatchesName-matches_from (c ∷ s) h =
      MatchesName-cons c s (ground arith) (Follows-matches_from s (ground arith))

matches_from-word :
    (w t : Bytes) (b : Bool)
    → All IsAlnum w
    → w ≢ []
    → matches_from b (w ++ t) ≡ matches_from true t
unfolding matches_from
matches_from-word [] t b h n = absurd (n refl)
matches_from-word (c ∷ []) t b h n = ground arith
matches_from-word (c ∷ d ∷ w) t b h n =
    ground (arith, matches_from-word (d ∷ w) t true h.1 (cons-ne-nil d w))

separator-alnum : (c : ℕ) → is_separator c ≡ true → is_alnum c ≡ false
unfolding is_separator is_alnum
separator-alnum c h = ground arith

matches_from-MatchesName : {s : Bytes} → MatchesName s → matches_from false s ≡ true
unfolding matches_from
matches_from-MatchesName (segment {s} w h n e) =
    rw (e, ← append-nil w, matches_from-word w [] false h n)
matches_from-MatchesName (join {s} w c t h n sep m e) =
    rw (e, matches_from-word w (c ∷ t) false h n)
      (ground (arith, separator-alnum c sep, matches_from-MatchesName m))

-- Every name that the automaton accepts matches the expression, and it accepts every name that does.
pub is_valid_harbor_robot_name_iff :
    (name : Bytes) → (is_valid_harbor_robot_name name ≡ true) ↔ MatchesName name
unfolding is_valid_harbor_robot_name
is_valid_harbor_robot_name_iff name = (MatchesName-matches_from name, matches_from-MatchesName)

-- A project name is accepted exactly when it has 1 to 255 bytes and matches the expression.
pub validate_project_name_iff :
    (name : Bytes)
    → (validate_project_name name ≡ ok tt)
      ↔ ((1 ≤ length name) × (length name ≤ project_name_max_len) × MatchesName name)
unfolding validate_project_name
validate_project_name_iff name =
    let e = is_valid_harbor_robot_name_iff name in
    (λ h. (ground arith, ground arith, e.0 (ground arith)), λ h. let v = e.1 h.2 in ground arith)
