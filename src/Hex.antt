-- ===== src/Hex.antt =====
-- Hexadecimal text: `std::from_chars` over digits, and the formatters of src/trace_json.cpp.
pub mod RoundTrip
use bme.Base.{
  ℕ, zero, suc, ◌+◌, ◌-◌, ◌*◌, ◌%◌, Bool, true, false, ◌&&◌, ◌||◌, Option, none, some, List, [],
  ◌∷◌, ◌++◌, ltb, leb, if◌then◌else◌, get_or,
}
use bme.Base.Words.{u8, ◌>>>◌}
use bme.Text.{Text, codes, is_empty, is_digit}

-- The value of a character as a digit of a base up to 16.
unfoldable pub digit_value : ℕ → Option ℕ
digit_value c =
    if is_digit c
    then some (c - b'0')
    else if leb b'A' c && leb c b'F'
    then some (c - b'A' + 10)
    else if leb b'a' c && leb c b'f'
    then some (c - b'a' + 10)
    else none

unfoldable pub digit_in : ℕ → ℕ → Option ℕ
unfolding digit_value
digit_in base c = elim (digit_value c) [
  | none ↦ none
  | some d ↦ if ltb d base then some d else none
]

unfoldable pub digits_value : ℕ → ℕ → Text → Option ℕ
digits_value base acc [] = some acc
digits_value base acc (c ∷ cs) = elim (digit_in base c) [
  | none ↦ none
  | some d ↦ digits_value base (acc * base + d) cs
]

-- `std::from_chars` on an unsigned type with `limit` values, together with the test made at every
-- call, that there is no error and the whole range was read: digits only, at least one, in range.
unfoldable pub from_chars : ℕ → ℕ → Text → Option ℕ
from_chars base limit text = if is_empty text then none else elim (digits_value base 0 text) [
  | none ↦ none
  | some v ↦ if ltb v limit then some v else none
]

abbrev hex_table : Text
hex_table = codes "0123456789ABCDEF"

-- `value & 0xF` is `value % 16`.
unfoldable pub hex_digit : ℕ → ℕ
hex_digit value = get_or hex_table (value % 16) 0

-- The loop of `format_hex`: with `n` characters to go the shift is `(n - 1) * 4`.
unfoldable pub hex_chars : ℕ → ℕ → Text
hex_chars zero value = []
hex_chars (suc n) value = hex_digit (u8 (value >>> (n * 4))) ∷ hex_chars n value

unfoldable pub format_hex : ℕ → ℕ → Text
format_hex digits value = b'0' ∷ b'x' ∷ hex_chars digits value

-- The two characters of a byte, as `format_bytes`, `format_st` and `{:02X}` write them.
unfoldable pub byte_chars : ℕ → Text
byte_chars byte = hex_digit (byte >>> 4) ∷ hex_digit byte ∷ []

unfoldable pub format_bytes : List ℕ → Text
format_bytes [] = []
format_bytes (b ∷ bs) = byte_chars b ++ format_bytes bs

-- An XMM value is `{low, high}`.
unfoldable pub format_xmm : ℕ × ℕ → Text
format_xmm value = b'0' ∷ b'x' ∷ (hex_chars 16 value.1 ++ hex_chars 16 value.0)

-- The bytes of an x87 register are stored lowest first and written highest first.
unfoldable pub reversed_bytes : List ℕ → Text
reversed_bytes [] = []
reversed_bytes (b ∷ bs) = reversed_bytes bs ++ byte_chars b

unfoldable pub format_st : List ℕ → Text
format_st value = b'0' ∷ b'x' ∷ reversed_bytes value
