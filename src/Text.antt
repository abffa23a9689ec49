-- ===== src/Text.antt =====
-- Go strings as lists of bytes, and the functions of Go's `strings` package that the bridge calls.
pub mod Prefix
pub mod Fields
pub mod Order
pub mod Split
pub mod Trim
use Prim.Native.Char.{code}
use Prim.Native.String.{String}
use harbor_workload_identity.Base.{
  ℕ, zero, suc, Bool, true, false, not, ◌&&◌, ◌||◌, List, [], ◌∷◌, ◌++◌, Option, none, some, ◌==◌,
  leb, if◌then◌else◌,
}

abbrev pub Bytes : Type 0
Bytes = List ℕ

-- The bytes of an ASCII literal.
abbrev pub codes : String → Bytes
codes String.[] = []
codes (String.◌∷◌ c s) = code c ∷ codes s

-- `a == b` on strings.
unfoldable pub text_eq : Bytes → Bytes → Bool
text_eq [] [] = true
text_eq (x ∷ xs) (y ∷ ys) = x == y && text_eq xs ys
text_eq _ _ = false

-- `a < b` on strings: bytewise, a proper prefix first.
unfoldable pub text_lt : Bytes → Bytes → Bool
text_lt [] [] = false
text_lt [] (y ∷ ys) = true
text_lt (x ∷ xs) [] = false
text_lt (x ∷ xs) (y ∷ ys) = if x == y then text_lt xs ys else not (leb y x)

abbrev pub is_empty : Bytes → Bool
is_empty [] = true
is_empty (_ ∷ _) = false

-- `strings.CutPrefix(s, prefix)`, with the prefix first; `none` where Go's `found` is false.
unfoldable pub cut_prefix : Bytes → Bytes → Option Bytes
cut_prefix [] s = some s
cut_prefix (p ∷ ps) [] = none
cut_prefix (p ∷ ps) (c ∷ s) = if p == c then cut_prefix ps s else none

-- `strings.HasPrefix(s, prefix)`, with the prefix first.
unfoldable pub has_prefix : Bytes → Bytes → Bool
has_prefix [] s = true
has_prefix (p ∷ ps) [] = false
has_prefix (p ∷ ps) (c ∷ s) = p == c && has_prefix ps s

-- `strings.TrimPrefix(s, prefix)`, with the prefix first.
unfoldable pub trim_prefix : Bytes → Bytes → Bytes
unfolding cut_prefix
trim_prefix p s = elim (cut_prefix p s) [ some rest ↦ rest | none ↦ s ]

-- `strings.Contains(s, sep)` for a separator of one byte.
unfoldable pub has_byte : ℕ → Bytes → Bool
has_byte b [] = false
has_byte b (c ∷ s) = b == c || has_byte b s

abbrev prepend_first : ℕ → Option (Bytes × Bytes) → Option (Bytes × Bytes)
prepend_first c none = none
prepend_first c (some (before, after)) = some (c ∷ before, after)

-- `strings.Cut(s, sep)` for a separator of one byte; `none` where Go's `found` is false.
unfoldable pub cut : ℕ → Bytes → Option (Bytes × Bytes)
cut b [] = none
cut b (c ∷ s) = if b == c then some ([], s) else prepend_first c (cut b s)

-- `strings.TrimRight(s, cutset)`, with the cutset as a test.
unfoldable pub trim_right : (ℕ → Bool) → Bytes → Bytes
trim_right p [] = []
trim_right p (c ∷ s) = elim (trim_right p s) [
  | [] ↦ if p c then [] else c ∷ []
  | d ∷ rest ↦ c ∷ d ∷ rest
]

-- The width of a space of two or three bytes that starts with `a`.
wide_space : ℕ → Bytes → ℕ
wide_space a [] = 0
wide_space a (b ∷ []) = if a == 0xc2 && (b == 0x85 || b == 0xa0) then 2 else 0
wide_space a (b ∷ c ∷ s) =
    if a == 0xc2 && (b == 0x85 || b == 0xa0)
    then 2
    else if (a == 0xe1 && b == 0x9a && c == 0x80)
        || (a == 0xe2
            && b == 0x80
            && ((leb 0x80 c && leb c 0x8a) || c == 0xa8 || c == 0xa9 || c == 0xaf))
        || (a == 0xe2 && b == 0x81 && c == 0x9f)
        || (a == 0xe3 && b == 0x80 && c == 0x80)
    then 3
    else 0

-- The width of the Unicode space (unicode.IsSpace, in UTF-8) at the head of a text, 0 if none is.
unfoldable pub space_width : Bytes → ℕ
unfolding wide_space
space_width [] = 0
space_width (a ∷ rest) = if a == 32 || (leb 9 a && leb a 13) then 1 else wide_space a rest

abbrev pub push_word : Bytes → List Bytes → List Bytes
push_word [] ws = ws
push_word (c ∷ w) ws = (c ∷ w) ∷ ws

-- The words from here on: `skip` bytes of a space are still to be passed over, and `word` holds the
-- bytes of the word that is being read.
unfoldable pub fields_from : ℕ → Bytes → Bytes → List Bytes
fields_from skip word [] = push_word word []
fields_from (suc skip) word (c ∷ s) = fields_from skip word s
fields_from zero word (c ∷ s) = elim (space_width (c ∷ s)) [
  | zero ↦ fields_from zero (word ++ c ∷ []) s
  | suc n ↦ push_word word (fields_from n [] s)
]

-- `strings.Fields(s)`.
unfoldable pub fields : Bytes → List Bytes
unfolding fields_from space_width
fields = fields_from 0 []
