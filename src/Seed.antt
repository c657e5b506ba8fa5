-- ===== src/Seed.antt =====
-- Register seeds as text: the readers of src/bme_core.cpp from `parse_seed` to `compose_st_seed`.
pub mod RoundTrip
pub mod Gpr
pub mod Names
pub mod Compose
pub mod Cli
pub mod Accepted
use bme.Base.{
  ℕ, zero, suc, ◌<◌, ◌≡◌, ◌+◌, ◌-◌, ◌^◌, Bool, true, false, not, ◌&&◌, ◌||◌, Option, none, some,
  List, [], ◌∷◌, ◌++◌, ltb, ◌==◌, if◌then◌else◌, length, take, drop, replicate, Result, ok, err,
  ◌>>=◌,
}
use bme.Text.{Text, codes, is_empty, ascii_case_insensitive_equal}
use bme.Hex.{from_chars}

-- The messages, with the label and the text that they show.
pub data SeedError : Type 0 where
  invalid_hex_value : Text → SeedError
  invalid_mxcsr : Text → SeedError
  invalid_control_word : Text → SeedError
  invalid_decimal : Text → Text → SeedError
  xmm_digits : Text → SeedError
  xmm_hex : Text → SeedError
  st_digits : Text → SeedError
  st_hex : Text → SeedError

abbrev pub default_mxcsr : ℕ
default_mxcsr = 0x1F80

abbrev mxcsr_defined_mask : ℕ
mxcsr_defined_mask = 0xFFFF

-- The text behind an optional `0x`.
unfoldable pub strip_prefix : Text → Text
strip_prefix (a ∷ b ∷ rest) = if a == b'0' && (b == b'x' || b == b'X') then rest else a ∷ b ∷ rest
strip_prefix text = text

unfoldable pub parse_seed : Text → Result ℕ SeedError
parse_seed seed =
    if is_empty seed then ok 0 else elim (from_chars 16 (2 ^ 64) (strip_prefix seed)) [
      | none ↦ err (invalid_hex_value seed)
      | some value ↦ ok value
    ]

-- A seed that is refused above a limit, whatever the reason.
unfoldable pub parse_bounded_seed : ℕ → SeedError → Text → Result ℕ SeedError
parse_bounded_seed limit error text = elim (parse_seed text) [
  | err e ↦ err error
  | ok value ↦ if ltb limit value then err error else ok value
]

unfoldable pub parse_mxcsr_seed : Text → Result ℕ SeedError
parse_mxcsr_seed text = parse_bounded_seed mxcsr_defined_mask (invalid_mxcsr text) text

unfoldable pub parse_fpu_control_word_seed : Text → Result ℕ SeedError
parse_fpu_control_word_seed text = parse_bounded_seed 0xFFFF (invalid_control_word text) text

-- The floating-point operations: `std::from_chars` on a whole text, the conversions between
-- `float` and `double`, and `double_to_st80`. Values are IEEE 754 bit patterns.
pub record Floats : Type 0 where
  pub parse_float : Text → Option ℕ
  pub parse_double : Text → Option ℕ
  pub widen : ℕ → ℕ
  pub narrow : ℕ → ℕ
  pub to_st80 : ℕ → List ℕ

pub record DecimalSeed : Type 0 where
  pub value : ℕ
  pub is_single : Bool

abbrev infinity : Bool → ℕ
infinity negative = if negative then 0xFFF0_0000_0000_0000 else 0x7FF0_0000_0000_0000

abbrev quiet_nan : Bool → ℕ
quiet_nan negative = if negative then 0xFFF8_0000_0000_0000 else 0x7FF8_0000_0000_0000

-- `!text.empty() && (text.back() == a || text.back() == b)`
unfoldable pub back_is : ℕ → ℕ → Text → Bool
back_is a b [] = false
back_is a b (c ∷ []) = c == a || c == b
back_is a b (c ∷ d ∷ rest) = back_is a b (d ∷ rest)

unfoldable pub remove_suffix : Text → Text
remove_suffix [] = []
remove_suffix (c ∷ []) = []
remove_suffix (c ∷ d ∷ rest) = c ∷ remove_suffix (d ∷ rest)

-- The text behind an optional sign, and whether the sign is a minus.
unfoldable pub magnitude_of : Text → Text × Bool
magnitude_of [] = ([], false)
magnitude_of (c ∷ cs) = if c == b'+' || c == b'-' then (cs, c == b'-') else (c ∷ cs, false)

unfoldable pub is_infinity : Text → Bool
is_infinity magnitude =
    ascii_case_insensitive_equal magnitude (codes "inf")
    || ascii_case_insensitive_equal magnitude (codes "infinity")

module _ (f : Floats) where
  -- The value, once the precision suffix is off.
  unfoldable pub decimal_value : Bool → Text → Option ℕ
  decimal_value is_single text =
      let (magnitude, negative) = magnitude_of text in
      if is_infinity magnitude
      then some (infinity negative)
      else if ascii_case_insensitive_equal magnitude (codes "nan")
      then some (quiet_nan negative)
      else if is_single
      then elim (f.parse_float text) [ none ↦ none | some v ↦ some (f.widen v) ]
      else f.parse_double text

  unfoldable pub parse_decimal_seed : Text → Text → Result DecimalSeed SeedError
  parse_decimal_seed text label =
      let infinity_without_suffix = is_infinity (magnitude_of text).0 in
      let is_single = not infinity_without_suffix && back_is b'f' b'F' text in
      let text' = if is_single || back_is b'l' b'L' text then remove_suffix text else text in
      elim (decimal_value is_single text') [
        | none ↦ err (invalid_decimal label text)
        | some v ↦ ok (record { value = v; is_single = is_single })
      ]

-- A character that no hexadecimal text has: a point, or a letter of a non-finite spelling.
unfoldable pub is_decimal_mark : ℕ → Bool
is_decimal_mark c = c == b'.' || c == b'i' || c == b'I' || c == b'n' || c == b'N'

unfoldable pub is_decimal_seed : Text → Bool
is_decimal_seed [] = false
is_decimal_seed (c ∷ cs) = is_decimal_mark c || is_decimal_seed cs

-- The high digits may be missing.
unfoldable pub xmm_high : Text → Option ℕ
xmm_high high = if is_empty high then some 0 else from_chars 16 (2 ^ 64) high

unfoldable pub xmm_digits_value : Text → Text → Result (ℕ × ℕ) SeedError
xmm_digits_value text digits =
    let low_begin = if ltb 16 (length digits) then length digits - 16 else 0 in
    elim (from_chars 16 (2 ^ 64) (drop low_begin digits)) [
      | none ↦ err (xmm_hex text)
      | some low ↦ elim (xmm_high (take low_begin digits)) [
        | none ↦ err (xmm_hex text)
        | some high ↦ ok (low, high)
      ]
    ]

-- Two digits for each byte, the most significant first; the result has the least significant first.
unfoldable pub st_bytes : List ℕ → Text → Option (List ℕ)
st_bytes result (a ∷ b ∷ rest) = elim (from_chars 16 256 (a ∷ b ∷ [])) [
  | none ↦ none
  | some byte ↦ st_bytes (byte ∷ result) rest
]
st_bytes result _ = some result

module _ (f : Floats) where
  unfoldable pub compose_xmm_seed : Text → Result (ℕ × ℕ) SeedError
  compose_xmm_seed text =
      let digits = strip_prefix text in
      if is_empty text
      then ok (0, 0)
      else if is_decimal_seed text
      then (do
        parsed ← parse_decimal_seed f text (codes "XMM")
        ok (if parsed.is_single then (f.narrow parsed.value, 0) else (parsed.value, 0)))
      else if is_empty digits || ltb 32 (length digits)
      then err (xmm_digits text)
      else xmm_digits_value text digits

  unfoldable pub compose_st_seed : Text → Result (List ℕ) SeedError
  compose_st_seed text =
      let digits = strip_prefix text in
      if is_empty text
      then ok (replicate 10 0)
      else if is_decimal_seed text
      then (do parsed ← parse_decimal_seed f text (codes "ST"); ok (f.to_st80 parsed.value))
      else if is_empty digits || ltb 20 (length digits)
      then err (st_digits text)
      else elim (st_bytes [] (replicate (20 - length digits) b'0' ++ digits)) [
        | none ↦ err (st_hex text)
        | some bytes ↦ ok bytes
      ]
