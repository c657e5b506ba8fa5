-- ===== src/Base/Bits.antt =====
-- `&` and `|` at variables: both work field by field, and a mask of low bits is a remainder.
use Prim.Native.Nat.{
  ℕ, zero, suc, ◌+◌, ◌-◌, ◌*◌, ◌/◌, ◌%◌, ◌^◌, ◌≤◌, ◌<◌, min, max, digits, bitwise, bit_and, bit_or,
  bit_and-bitwise, bit_or-bitwise,
}
use mathlib.Core.Path.{◌≡◌, refl, ap}
use native.Mathlib.Nat.{pow-suc, one-le-pow, mod-eq-sub-div-mul, div-div-eq-div-mul, div-add-mod'}
use native.Mathlib.Omega.{arith}

module _ (z : ℕ → ℕ) (f : ℕ → ℕ → ℕ) where
  -- Any two amounts of fuel that the first operand does not exceed give the same digits.
  fuel_irrelevant :
      (x y fuel other : ℕ) → x ≤ other → x ≤ fuel → digits z f fuel x y ≡ digits z f other x y
  fuel_irrelevant zero y zero zero lo hi = refl
  fuel_irrelevant zero y zero (suc other) lo hi = refl
  fuel_irrelevant zero y (suc fuel) zero lo hi = refl
  fuel_irrelevant zero y (suc fuel) (suc other) lo hi = refl
  fuel_irrelevant (suc x) y zero other lo hi = absurd (omega arith)
  fuel_irrelevant (suc x) y (suc fuel) zero lo hi = absurd (omega arith)
  fuel_irrelevant (suc x) y (suc fuel) (suc other) lo hi =
      omega (arith, fuel_irrelevant (suc x / 2) (y / 2) fuel other (omega arith) (omega arith))

  lowest_digit :
      (x y : ℕ)
      → bitwise z f (suc x) y ≡ f (suc x % 2) (y % 2) + 2 * bitwise z f (suc x / 2) (y / 2)
  lowest_digit x y =
      let half = suc x / 2 in
      omega (arith, fuel_irrelevant half (y / 2) x half (omega arith) (omega arith))

and_lowest : (x y : ℕ) → bit_and x y ≡ min (x % 2) (y % 2) + 2 * bit_and (x / 2) (y / 2)
and_lowest zero y = simp bit_and-bitwise (omega arith)
and_lowest (suc x) y = simp bit_and-bitwise (lowest_digit (λ _. 0) min x y)

or_lowest : (x y : ℕ) → bit_or x y ≡ max (x % 2) (y % 2) + 2 * bit_or (x / 2) (y / 2)
or_lowest zero y = simp bit_or-bitwise (omega arith)
or_lowest (suc x) y = simp bit_or-bitwise (lowest_digit (λ y. y) max x y)

double : (q k : ℕ) → q * 2 ^ suc k ≡ 2 * (q * 2 ^ k)
double q k = omega (arith, ap (λ (t : ℕ). q * t) (pow-suc 2 k))

-- An operation that is given by its lowest digit.
module _ (op g : ℕ → ℕ → ℕ)
    (lowest : (x y : ℕ) → op x y ≡ g (x % 2) (y % 2) + 2 * op (x / 2) (y / 2))
    (at_zero : op 0 0 ≡ 0) where
  fields :
      (k q m s t : ℕ)
      → s < 2 ^ k
      → t < 2 ^ k
      → op (q * 2 ^ k + s) (m * 2 ^ k + t) ≡ op q m * 2 ^ k + op s t
  fields zero q m s t hs ht =
      let es : s ≡ 0 = omega arith in
      let et : t ≡ 0 = omega arith in
      let eq : q * 1 + 0 ≡ q = omega arith in
      let em : m * 1 + 0 ≡ m = omega arith in rw (es, et, eq, em, at_zero) (omega arith)
  fields (suc k) q m s t hs ht =
      let ea : (q * 2 ^ suc k + s) / 2 ≡ q * 2 ^ k + s / 2 = omega (arith, double q k) in
      let eb : (m * 2 ^ suc k + t) / 2 ≡ m * 2 ^ k + t / 2 = omega (arith, double m k) in
      let da : (q * 2 ^ suc k + s) % 2 ≡ s % 2 = omega (arith, double q k) in
      let db : (m * 2 ^ suc k + t) % 2 ≡ t % 2 = omega (arith, double m k) in
      let below = pow-suc 2 k in
      let rest = fields k q m (s / 2) (t / 2) (omega arith) (omega arith) in
      rw (lowest (q * 2 ^ suc k + s) (m * 2 ^ suc k + t), ea, eb, da, db, rest)
        (omega (arith, double (op q m) k, lowest s t))

-- `&` and `|` on two fields of `k` bits and what stands above them.
pub bit_and_fields :
    (k q m s t : ℕ)
    → s < 2 ^ k
    → t < 2 ^ k
    → bit_and (q * 2 ^ k + s) (m * 2 ^ k + t) ≡ bit_and q m * 2 ^ k + bit_and s t
bit_and_fields = fields bit_and min and_lowest refl

pub bit_or_fields :
    (k q m s t : ℕ)
    → s < 2 ^ k
    → t < 2 ^ k
    → bit_or (q * 2 ^ k + s) (m * 2 ^ k + t) ≡ bit_or q m * 2 ^ k + bit_or s t
bit_or_fields = fields bit_or max or_lowest refl

and_zero_fuel : (n a : ℕ) → a ≤ n → bit_and a 0 ≡ 0
and_zero_fuel zero zero h = refl
and_zero_fuel zero (suc a) h = absurd (omega arith)
and_zero_fuel (suc n) zero h = refl
and_zero_fuel (suc n) (suc a) h =
    omega (arith, and_lowest (suc a) 0, and_zero_fuel n (suc a / 2) (omega arith))

pub bit_and-zero : (a : ℕ) → bit_and a 0 ≡ 0
bit_and-zero a = and_zero_fuel a a (omega arith)

or_zero_fuel : (n a : ℕ) → a ≤ n → bit_or a 0 ≡ a
or_zero_fuel zero zero h = refl
or_zero_fuel zero (suc a) h = absurd (omega arith)
or_zero_fuel (suc n) zero h = refl
or_zero_fuel (suc n) (suc a) h =
    omega (arith, or_lowest (suc a) 0, or_zero_fuel n (suc a / 2) (omega arith))

pub bit_or-zero : (a : ℕ) → bit_or a 0 ≡ a
bit_or-zero a = or_zero_fuel a a (omega arith)

pub zero-bit_and : (y : ℕ) → bit_and 0 y ≡ 0
zero-bit_and y = bit_and-bitwise 0 y

pub zero-bit_or : (b : ℕ) → bit_or 0 b ≡ b
zero-bit_or b = bit_or-bitwise 0 b

mod_halves : (a p : ℕ) → a % (2 * p) ≡ a / 2 % p * 2 + a % 2
mod_halves a p = omega (
  arith,
  mod-eq-sub-div-mul a (2 * p),
  ap (λ (t : ℕ). t * (2 * p)) (div-div-eq-div-mul a 2 p),
  div-add-mod' (a / 2) p,
)

-- A mask of `k` low bits is the remainder by `2 ^ k`.
pub bit_and_mask : (k a : ℕ) → bit_and a (2 ^ k - 1) ≡ a % 2 ^ k
bit_and_mask zero a = omega (arith, bit_and-zero a)
bit_and_mask (suc k) a =
    let p = one-le-pow k 2 (omega arith) in
    let s = pow-suc 2 k in
    let even : a % 2 ^ suc k ≡ a % (2 * 2 ^ k) =
      let e : 2 ^ suc k ≡ 2 * 2 ^ k = omega arith in rw e in
    let half : (2 ^ suc k - 1) / 2 ≡ 2 ^ k - 1 = omega arith in
    let odd : (2 ^ suc k - 1) % 2 ≡ 1 = omega arith in
    rw (and_lowest a (2 ^ suc k - 1), half, odd, bit_and_mask k (a / 2))
      (omega (arith, mod_halves a (2 ^ k), even))
