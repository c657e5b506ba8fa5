-- ===== src/Base/Align.antt =====
-- Words rounded down to a multiple of a power of two by a mask.
use Prim.Native.Nat.{bit_and, ℕ, zero, suc, ◌+◌, ◌-◌, ◌*◌, ◌/◌, ◌%◌, ◌^◌, ◌≤◌, ◌<◌}
use mathlib.Core.Path.{◌≡◌, sym, ap, ◌∙◌}
use native.Mathlib.Nat.{
  pow-suc, one-le-pow, div-lt_iff_lt-mul, div-add-mod', mul_assoc, suc-mul, mod-eq_of_lt,
}
use native.Mathlib.Omega.{arith}
use bme.Base.Words.{not64}
use bme.Base.Bits.{bit_and_fields, bit_and_mask, bit_and-zero}

pow_split : (m k : ℕ) → 2 ^ (m + k) ≡ 2 ^ m * 2 ^ k
pow_split m zero = let e : m + 0 ≡ m = omega arith in rw e (omega arith)
pow_split m (suc k) =
    let e : m + suc k ≡ suc (m + k) = omega arith in
    rw (e, pow-suc 2 (m + k), pow-suc 2 k, pow_split m k) (mul_assoc (2 ^ m) (2 ^ k) 2)

one_product : (a b : ℕ) → 1 ≤ a → a * b ≡ (a - 1) * b + b
one_product (suc a) b h =
    (let pred : suc a - 1 ≡ a = omega arith in suc-mul a b ∙ ap (λ c. c * b + b) (sym pred))
one_product zero b h = absurd (omega arith)

pub bit_and-not64 :
    (k n : ℕ) → k ≤ 64 → n < 2 ^ 64 → bit_and n (not64 (2 ^ k - 1)) ≡ n / 2 ^ k * 2 ^ k
bit_and-not64 k n small below =
    let m = 64 - k in
    let one_k = one-le-pow k 2 (omega arith) in
    let one_m = one-le-pow m 2 (omega arith) in
    let sixty_four : 64 ≡ m + k = omega arith in
    let split : 2 ^ 64 ≡ 2 ^ m * 2 ^ k = ap (λ e. 2 ^ e) sixty_four ∙ pow_split m k in
    let high : n / 2 ^ k < 2 ^ m = (div-lt_iff_lt-mul (omega arith)).1 (omega arith) in
    let low : n % 2 ^ k < 2 ^ k = omega arith in
    let mask : not64 (2 ^ k - 1) ≡ (2 ^ m - 1) * 2 ^ k + 0 =
      omega (arith, split, suc-mul (2 ^ m - 1) (2 ^ k), one_product (2 ^ m) (2 ^ k) one_m) in
    let fields = bit_and_fields k (n / 2 ^ k) (2 ^ m - 1) (n % 2 ^ k) 0 low (omega arith) in
    let kept = bit_and_mask m (n / 2 ^ k) in
    let nothing = bit_and-zero (n % 2 ^ k) in
    let parts : n ≡ n / 2 ^ k * 2 ^ k + n % 2 ^ k = sym (div-add-mod' n (2 ^ k)) in
    let whole : bit_and n (not64 (2 ^ k - 1))
        ≡ bit_and (n / 2 ^ k * 2 ^ k + n % 2 ^ k) ((2 ^ m - 1) * 2 ^ k + 0) =
      λ i. bit_and (parts i) (mask i) in
    let sum : bit_and (n / 2 ^ k) (2 ^ m - 1) * 2 ^ k + bit_and (n % 2 ^ k) 0
        ≡ n / 2 ^ k * 2 ^ k + 0 =
      λ i. (kept ∙ mod-eq_of_lt high) i * 2 ^ k + nothing i in
    whole ∙ fields ∙ sum ∙ omega arith
