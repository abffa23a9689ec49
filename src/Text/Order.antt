-- ===== src/Text/Order.antt =====
-- The order of Go strings is a strict total order.
use harbor_workload_identity.Base.{true, false, ◌≡◌, refl, [], ◌∷◌, arith}
use harbor_workload_identity.Text.{Bytes, text_lt}

pub text_lt-asymm : (a b : Bytes) → text_lt a b ≡ true → text_lt b a ≡ false
unfolding text_lt
text_lt-asymm [] [] h = refl
text_lt-asymm [] (y ∷ b) h = refl
text_lt-asymm (x ∷ a) [] h = absurd (ground arith)
text_lt-asymm (x ∷ a) (y ∷ b) h = ground (arith, text_lt-asymm a b)

pub text_lt_trans : (a b c : Bytes) → text_lt a b ≡ true → text_lt b c ≡ true → text_lt a c ≡ true
unfolding text_lt
text_lt_trans [] [] c h k = absurd (ground arith)
text_lt_trans (x ∷ a) [] c h k = absurd (ground arith)
text_lt_trans a (y ∷ b) [] h k = absurd (ground arith)
text_lt_trans [] (y ∷ b) (z ∷ c) h k = refl
text_lt_trans (x ∷ a) (y ∷ b) (z ∷ c) h k = ground (arith, text_lt_trans a b c)

pub text_lt-connected : (a b : Bytes) → text_lt a b ≡ false → text_lt b a ≡ false → a ≡ b
unfolding text_lt
text_lt-connected [] [] h k = refl
text_lt-connected [] (y ∷ b) h k = absurd (ground arith)
text_lt-connected (x ∷ a) [] h k = absurd (ground arith)
text_lt-connected (x ∷ a) (y ∷ b) h k = ground (arith, text_lt-connected a b)

pub text_lt_irrefl : (a : Bytes) → text_lt a a ≡ false
unfolding text_lt
text_lt_irrefl [] = refl
text_lt_irrefl (x ∷ a) = ground (arith, text_lt_irrefl a)

pub text_lt-cotrans :
    (a b c : Bytes) → text_lt a b ≡ false → text_lt b c ≡ false → text_lt a c ≡ false
unfolding text_lt
text_lt-cotrans [] [] c h k = k
text_lt-cotrans [] (y ∷ b) c h k = absurd (ground arith)
text_lt-cotrans (x ∷ a) b [] h k = refl
text_lt-cotrans (x ∷ a) [] (z ∷ c) h k = absurd (ground arith)
text_lt-cotrans (x ∷ a) (y ∷ b) (z ∷ c) h k = ground (arith, text_lt-cotrans a b c)
