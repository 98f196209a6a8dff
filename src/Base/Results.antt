-- ===== src/Base/Results.antt =====
-- The outcome of an operation that may fail.
use mathlib.Core.Path.{◌≡◌, refl}

-- `out_of_range` is the exception that the source throws. `null_pointer` is a read through a null
-- pointer and `assertion` a failed FISHJOY_ASSERT, which end the program. `out_of_fuel` is no
-- outcome of the source: a loop's fuel ran out.
pub data Error : Type 0 where
  out_of_range null_pointer assertion out_of_fuel : Error

infixl 5 ◌>>=◌
pub data Result {ℓ} (A : Type ℓ) : Type ℓ where
  err : Error → Result A
  ok : A → Result A

pub ok-injective {ℓ} : {A : Type ℓ} {a b : A} → ok a ≡ ok b → a ≡ b
ok-injective e = cc

abbrev pub ◌>>=◌ {ℓ ℓ'} : {A : Type ℓ} {B : Type ℓ'} → Result A → (A → Result B) → Result B
err reason >>= next = err reason
ok a >>= next = next a

-- A chain that ends well has passed its first step.
pub >>=-eq-ok {ℓ ℓ'} :
    {A : Type ℓ} {B : Type ℓ'} (m : Result A) (next : A → Result B) {b : B}
    → (m >>= next) ≡ ok b
    → (a : A) × (m ≡ ok a) × (next a ≡ ok b)
>>=-eq-ok (err reason) next e = cc
>>=-eq-ok (ok a) next e = (a, refl, e)
