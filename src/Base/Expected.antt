-- ===== src/Base/Expected.antt =====
-- `Result<T, E>` of bme_core.hpp, an alias of `std::expected`.
use mathlib.Core.Bool.{Bool, true, false}
use mathlib.Core.Path.{◌≡◌, refl}

pub data Result {ℓ} (A E : Type ℓ) : Type ℓ where
  ok : A → Result A E
  err : E → Result A E

infixl 5 ◌>>=◌
abbrev pub ◌>>=◌ {ℓ} : {A B E : Type ℓ} → Result A E → (A → Result B E) → Result B E
ok a >>= f = f a
err e >>= f = err e

abbrev pub has_value {ℓ} : {A E : Type ℓ} → Result A E → Bool
has_value (ok a) = true
has_value (err e) = false

-- A chain that succeeds has a first step that does, and the rest of it does at that step's value.
pub >>=-eq-ok {ℓ} :
    {A B E : Type ℓ} (first : Result A E) (next : A → Result B E) {out : B}
    → first >>= next ≡ ok out
    → (value : A) × (next value ≡ ok out) × (first ≡ ok value)
>>=-eq-ok (ok value) next chained = (value, chained, refl)
>>=-eq-ok (err e) next chained = cc
