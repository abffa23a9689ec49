-- ===== src/Text/Fields.antt =====
-- Words made of plain bytes come back from `strings.Fields`.
use harbor_workload_identity.Base.{
  ℕ, ◌<◌, ◌≡◌, ◌≢◌, refl, ◌∙◌, [], ◌∷◌, ◌++◌, append-nil, append_assoc, All, arith,
}
use harbor_workload_identity.Text.{Bytes, space_width, push_word, fields_from, fields}

-- A printable ASCII byte other than the space.
abbrev pub IsPlain : ℕ → Type 0
IsPlain c = (32 < c) × (c < 127)

pub space_width-IsPlain : (c : ℕ) (s : Bytes) → IsPlain c → space_width (c ∷ s) ≡ 0
unfolding space_width
space_width-IsPlain c [] h = ground arith
space_width-IsPlain c (a ∷ []) h = ground arith
space_width-IsPlain c (a ∷ b ∷ s) h = ground arith

-- A plain word is read to its end, and the words behind the space follow it.
fields_from-word :
    (w acc rest : Bytes)
    → All IsPlain w
    → fields_from 0 acc (w ++ 32 ∷ rest) ≡ push_word (acc ++ w) (fields_from 0 [] rest)
unfolding fields_from
fields_from-word [] acc rest h = unfold space_width in rw append-nil
fields_from-word (c ∷ w) acc rest h =
    rw (space_width-IsPlain c (w ++ 32 ∷ rest) h.0, fields_from)
      (fields_from-word w (acc ++ c ∷ []) rest h.1 ∙ rw append_assoc)

fields_from-last : (w acc : Bytes) → All IsPlain w → fields_from 0 acc w ≡ push_word (acc ++ w) []
unfolding fields_from
fields_from-last [] acc h = rw append-nil
fields_from-last (c ∷ w) acc h =
    rw (space_width-IsPlain c w h.0, fields_from)
      (fields_from-last w (acc ++ c ∷ []) h.1 ∙ rw append_assoc)

pub fields-word :
    (w rest : Bytes) → All IsPlain w → w ≢ [] → fields (w ++ 32 ∷ rest) ≡ w ∷ fields rest
unfolding fields
fields-word [] rest h n = absurd (n refl)
fields-word (c ∷ w) rest h n = fields_from-word (c ∷ w) [] rest h

pub fields_last : (w : Bytes) → All IsPlain w → w ≢ [] → fields w ≡ w ∷ []
unfolding fields
fields_last [] h n = absurd (n refl)
fields_last (c ∷ w) h n = fields_from-last (c ∷ w) [] h
