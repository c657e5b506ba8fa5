-- ===== src/Code/Bytes.antt =====
-- One byte as two digits: what the readers of `parse_code_text` make of it.
use bme.Base.{
  ℕ, ◌+◌, ◌*◌, ◌%◌, ◌<◌, ◌≡◌, refl, ap, ◌∙◌, true, false, some, List, [], ◌∷◌, ◌++◌, arith, ◌==◌,
  ok,
}
use bme.Base.Words.{◌>>>◌}
use bme.Text.{Text, is_space, is_xdigit}
use bme.Hex.{from_chars, hex_digit, byte_chars}
use bme.Hex.RoundTrip.{
  digit_char, hex_digit_char, digits_value-byte_chars, digits_value_self, from_chars-eq-some,
}
use bme.Code.{parse_byte, parse_pairs}

-- A digit is no blank and none of the marks of the notations.
pub record IsPlain (c : ℕ) : Type 0 where
  pub no_space : is_space c ≡ false
  pub xdigit : is_xdigit c ≡ true
  pub no_open : (c == b'{') ≡ false
  pub no_close : (c == b'}') ≡ false
  pub no_backslash : (c == b'\\') ≡ false

digit_char-IsPlain : (d : ℕ) → d < 16 → IsPlain (digit_char d)
unfolding digit_char is_space is_xdigit
digit_char-IsPlain d h = record {
  no_space = ground arith;
  xdigit = ground arith;
  no_open = ground arith;
  no_close = ground arith;
  no_backslash = ground arith;
}

pub hex_digit-IsPlain : (v : ℕ) → IsPlain (hex_digit v)
hex_digit-IsPlain v = rw (hex_digit_char v) (digit_char-IsPlain (v % 16) (omega arith))

pub from_chars-byte_chars : (b : ℕ) → b < 256 → from_chars 16 256 (byte_chars b) ≡ some b
from_chars-byte_chars b h =
    let e : 0 * 256 + b ≡ b = omega arith in
    from_chars-eq-some 256 b (byte_chars b) (unfold byte_chars in refl)
      (unfold byte_chars in digits_value-byte_chars b 0 [] h ∙ digits_value_self _ ∙ ap some e) h

pub parse_byte-byte_chars :
    (position b : ℕ) (rest : Text) → b < 256 → parse_byte position (byte_chars b ++ rest) ≡ ok b
unfolding parse_byte byte_chars
parse_byte-byte_chars position b rest h = rw (from_chars-byte_chars b h, parse_byte)

-- One round of the loop over digit pairs, and one over a blank.
pub parse_pairs-byte_chars :
    (result : List ℕ) (position b : ℕ) (rest : Text)
    → b < 256
    → parse_pairs result position (byte_chars b ++ rest)
      ≡ parse_pairs (result ++ b ∷ []) (position + 2) rest
unfolding parse_pairs byte_chars
parse_pairs-byte_chars result position b rest h = rw (
  (hex_digit-IsPlain (b >>> 4)).no_space,
  (hex_digit-IsPlain b).no_space,
  parse_byte-byte_chars position b rest h,
)

pub parse_pairs-space :
    (result : List ℕ) (position : ℕ) (text : Text)
    → parse_pairs result position (b' ' ∷ text) ≡ parse_pairs result (position + 1) text
unfolding parse_pairs is_space
parse_pairs-space result position [] = refl
parse_pairs-space result position (c ∷ cs) = refl
