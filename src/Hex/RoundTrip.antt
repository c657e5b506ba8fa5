-- ===== src/Hex/RoundTrip.antt =====
-- Reading back what the hexadecimal formatters write.
use native.Mathlib.Nat.{mod-eq-sub-div-mul, div-div-eq-div-mul, div-add-mod', mod-eq_of_lt}
use mathlib.Core.List.{append-nil}
use native.Mathlib.Numerals.{towards_suc}
use bme.Base.{
  ℕ, zero, suc, ◌+◌, ◌-◌, ◌*◌, ◌/◌, ◌%◌, ◌^◌, ◌<◌, ◌≡◌, refl, ap, ◌∙◌, Bool, true, false, some, [],
  ◌∷◌, ◌++◌, arith, ltb, ◌==◌, if◌then◌else◌,
}
use bme.Base.Words.{u8}
use bme.Text.{Text, is_empty}
use bme.Hex.{digit_in, digits_value, from_chars, hex_digit, hex_chars, byte_chars}

pub mod_split : (v p : ℕ) → v % (p * 16) ≡ v / p % 16 * p + v % p
mod_split v p = omega (
  arith,
  mod-eq-sub-div-mul v (p * 16),
  ap (λ (t : ℕ). t * (p * 16)) (div-div-eq-div-mul v p 16),
  div-add-mod' v p,
  ap (λ (t : ℕ). t * p) (div-add-mod' (v / p) 16),
)

pub two-pow-four : (n : ℕ) → 2 ^ (suc n * 4) ≡ 2 ^ (n * 4) * 16
two-pow-four n =
    let e : suc n * 4 ≡ n * 4 + 4 = omega arith in rw e (simp towards_suc (omega arith))

-- The character of a digit, in arithmetic.
unfoldable pub digit_char : ℕ → ℕ
digit_char d = if ltb d 10 then b'0' + d else b'A' + (d - 10)

agree_below : ℕ → Bool
agree_below zero = true
agree_below (suc n) = if hex_digit n == digit_char n then agree_below n else false

hex_digit_below : (n d : ℕ) → agree_below n ≡ true → d < n → hex_digit d ≡ digit_char d
unfolding agree_below
hex_digit_below zero d e h = absurd (omega arith)
hex_digit_below (suc n) d e h = ground (arith, hex_digit_below n d)

sixteen_agree : agree_below 16 ≡ true
unfolding agree_below hex_digit digit_char
sixteen_agree = refl

hex_digit-mod : (v : ℕ) → hex_digit v ≡ hex_digit (v % 16)
unfolding hex_digit
hex_digit-mod v = let e : v % 16 % 16 ≡ v % 16 = omega arith in rw e

pub hex_digit_char : (v : ℕ) → hex_digit v ≡ digit_char (v % 16)
hex_digit_char v = hex_digit-mod v ∙ hex_digit_below 16 (v % 16) sixteen_agree (omega arith)

pub digit_in-hex_digit : (v : ℕ) → digit_in 16 (hex_digit v) ≡ some (v % 16)
unfolding digit_in digit_char
digit_in-hex_digit v = ground (arith, hex_digit_char v)

digits_value-hex_digit :
    (v acc : ℕ) (rest : Text)
    → digits_value 16 acc (hex_digit v ∷ rest) ≡ digits_value 16 (acc * 16 + v % 16) rest
unfolding digits_value
digits_value-hex_digit v acc rest = rw (digit_in-hex_digit v, digits_value)

-- One more digit in front of `n` others.
shift_digit : (v acc p : ℕ) → (acc * 16 + v / p % 16) * p + v % p ≡ acc * (p * 16) + v % (p * 16)
shift_digit v acc p = omega (arith, mod_split v p)

digits_value-hex_digit-u8 :
    (v acc : ℕ) (rest : Text)
    → digits_value 16 acc (hex_digit (u8 v) ∷ rest) ≡ digits_value 16 (acc * 16 + v % 16) rest
digits_value-hex_digit-u8 v acc rest =
    let e : u8 v % 16 ≡ v % 16 = omega arith in rw (← e) (digits_value-hex_digit (u8 v) acc rest)

-- The digits that follow are read after those of `n` characters.
pub digits_value-hex_chars :
    (n v acc : ℕ) (rest : Text)
    → digits_value 16 acc (hex_chars n v ++ rest)
      ≡ digits_value 16 (acc * 2 ^ (n * 4) + v % 2 ^ (n * 4)) rest
unfolding hex_chars
digits_value-hex_chars zero v acc rest =
    let e : acc * 2 ^ (0 * 4) + v % 2 ^ (0 * 4) ≡ acc = omega arith in rw e
digits_value-hex_chars (suc n) v acc rest =
    let p = 2 ^ (n * 4) in
    rw (two-pow-four n, ← shift_digit v acc p)
      (digits_value-hex_digit-u8 (v / p) acc (hex_chars n v ++ rest)
        ∙ digits_value-hex_chars n v (acc * 16 + v / p % 16) rest)

pub digits_value-byte_chars :
    (b acc : ℕ) (rest : Text)
    → b < 256
    → digits_value 16 acc (byte_chars b ++ rest) ≡ digits_value 16 (acc * 256 + b) rest
digits_value-byte_chars b acc rest h =
    let e : (acc * 16 + b / 16 % 16) * 16 + b % 16 ≡ acc * 256 + b = omega arith in
    unfold byte_chars in
    digits_value-hex_digit (b / 16) acc (hex_digit b ∷ rest)
    ∙ digits_value-hex_digit b (acc * 16 + b / 16 % 16) rest
    ∙ rw e

pub digits_value_self : (acc : ℕ) → digits_value 16 acc [] ≡ some acc
unfolding digits_value
digits_value_self acc = refl

-- What `from_chars` asks of a text.
pub from_chars-eq-some :
    (limit v : ℕ) (text : Text)
    → is_empty text ≡ false
    → digits_value 16 0 text ≡ some v
    → v < limit
    → from_chars 16 limit text ≡ some v
unfolding from_chars
from_chars-eq-some limit v text nonempty e small = ground arith

is_empty-hex_chars : (n v : ℕ) → 0 < n → is_empty (hex_chars n v) ≡ false
unfolding hex_chars
is_empty-hex_chars zero v h = absurd (omega arith)
is_empty-hex_chars (suc n) v h = refl

-- A value below `limit` that fits `n` digits is read back from them.
pub from_chars-hex_chars :
    (n v limit : ℕ)
    → 0 < n
    → v < 2 ^ (n * 4)
    → v < limit
    → from_chars 16 limit (hex_chars n v) ≡ some v
from_chars-hex_chars n v limit n_pos fits small =
    let e : 0 * 2 ^ (n * 4) + v % 2 ^ (n * 4) ≡ v = grind (arith, mod-eq_of_lt fits) in
    from_chars-eq-some limit v (hex_chars n v) (is_empty-hex_chars n v n_pos)
      (rw (append-nil, e) at (digits_value-hex_chars n v 0 []) ∙ digits_value_self v) small
