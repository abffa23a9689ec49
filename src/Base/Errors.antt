-- ===== src/Base/Errors.antt =====
-- Go's `(value, error)` pairs: a value or an error, and chains of steps that may fail.
use mathlib.Core.Path.{◌≡◌, refl}
use mathlib.Core.Logic.{◌⊎◌, inl, inr}
use mathlib.Core.Bool.{Bool, true, false}

pub data Result {ℓ} (E : Type ℓ) (A : Type ℓ) : Type ℓ where
  ok : A → Result E A
  err : E → Result E A

infixl 5 ◌>>=◌ ◌>>◌
abbrev pub ◌>>=◌ {ℓ} : {E A B : Type ℓ} → Result E A → (A → Result E B) → Result E B
err failure >>= next = err failure
ok value >>= next = next value

-- A step whose value is not used.
abbrev pub ◌>>◌ {ℓ} : {E B : Type ℓ} → Result E (Unit {ℓ}) → Result E B → Result E B
step >> rest = step >>= λ done. rest

-- `if !test { return err }`
abbrev pub require : {E : Type 0} → Bool → E → Result E (Unit {0})
require true e = ok tt
require false e = err e

-- A chain that succeeds has a first step that does, and the rest succeeds on its value; this serves
-- the proofs where the parts stay shut.
pub >>=-eq-ok {ℓ} :
    {E A B : Type ℓ} (first : Result E A) (next : A → Result E B) {result : B}
    → first >>= next ≡ ok result
    → (value : A) × (first ≡ ok value) × (next value ≡ ok result)
>>=-eq-ok (err failure) next done = cc
>>=-eq-ok (ok value) next done = (value, refl, done)

pub require-eq-ok :
    {E B : Type 0} (test : Bool) (e : E) (k : Result E B) {b : B}
    → (require test e >> k) ≡ ok b
    → (test ≡ true) × (k ≡ ok b)
require-eq-ok true e k h = (refl, h)
require-eq-ok false e k h = cc

pub ok_injective : {E A : Type 0} {a b : A} → ◌≡◌ {A = Result E A} (ok a) (ok b) → a ≡ b
ok_injective e = cc

-- The converses: a chain succeeds when its parts do.
pub >>=-ok {ℓ} :
    {E A B : Type ℓ} (m : Result E A) (f : A → Result E B) {a : A} {b : B}
    → m ≡ ok a
    → f a ≡ ok b
    → (m >>= f) ≡ ok b
>>=-ok (ok a) f h k = cc
>>=-ok (err e) f h k = absurd cc

pub require-ok :
    {E B : Type 0} (test : Bool) (e : E) (k : Result E B) {b : B}
    → test ≡ true
    → k ≡ ok b
    → (require test e >> k) ≡ ok b
require-ok true e k h j = j
require-ok false e k h j = absurd cc

pub Result-cases :
    {E A : Type 0} (r : Result E A) → ((a : A) × (r ≡ ok a)) ⊎ ((e : E) × (r ≡ err e))
Result-cases (ok a) = inl (a, refl)
Result-cases (err e) = inr (e, refl)
