-- ===== src/Code.antt =====
-- `parse_code_text` and `format_code_text` of src/bme_core.cpp: machine code as text.
-- A position is kept beside the text that follows it, so `text.size() - position` is its length.
pub mod Arrays
pub mod Bytes
pub mod Errors
pub mod RoundTrip
use bme.Base.{
  ℕ, zero, suc, ◌+◌, ◌-◌, Bool, true, false, not, ◌&&◌, ◌||◌, Option, none, some, List, [], ◌∷◌,
  ◌++◌, ltb, ◌==◌, if◌then◌else◌, length, Result, ok, err, ◌>>=◌,
}
use bme.Text.{Text, is_empty, is_space, is_xdigit}
use bme.Hex.{from_chars, byte_chars}

-- Each message of the source, with the position and the text that it shows.
pub data CodeError : Type 0 where
  no_code missing_brace : CodeError
  dangling_nibble : ℕ → CodeError
  invalid_hex_byte : Text → ℕ → CodeError
  unexpected_text : ℕ → CodeError
  expected_0x : ℕ → CodeError
  expected_hexadecimal : ℕ → CodeError
  exceeds_byte : ℕ → CodeError
  invalid_hexadecimal : ℕ → CodeError
  expected_comma : ℕ → CodeError
  expected_x : ℕ → CodeError
  out_of_fuel : CodeError

unfoldable pub skip_whitespace : ℕ → Text → ℕ × Text
skip_whitespace position [] = (position, [])
skip_whitespace position (c ∷ cs) =
    if is_space c then skip_whitespace (position + 1) cs else (position, c ∷ cs)

-- `text` is what follows `position`.
unfoldable pub parse_byte : ℕ → Text → Result ℕ CodeError
parse_byte position (a ∷ b ∷ rest) = elim (from_chars 16 256 (a ∷ b ∷ [])) [
  | none ↦ err (invalid_hex_byte (a ∷ b ∷ []) position)
  | some byte ↦ ok byte
]
parse_byte position _ = err (dangling_nibble position)

abbrev is_x : ℕ → Bool
is_x c = c == b'x' || c == b'X'

-- The longest run of hexadecimal digits, and what follows it.
unfoldable pub digit_run : Text → Text × Text
digit_run [] = ([], [])
digit_run (c ∷ cs) =
    let (run, rest) = digit_run cs in if is_xdigit c then (c ∷ run, rest) else ([], c ∷ cs)

-- The digits behind a `0x` at `digit_start - 2`.
unfoldable pub braced_digits : ℕ → Text × Text → Result (ℕ × ℕ × Text) CodeError
braced_digits digit_start (run, rest) =
    if length run == 0
    then err (expected_hexadecimal digit_start)
    else if ltb 2 (length run)
    then err (exceeds_byte (digit_start - 2))
    else elim (from_chars 16 256 run) [
      | none ↦ err (invalid_hexadecimal (digit_start - 2))
      | some byte ↦ ok (byte, digit_start + length run, rest)
    ]

-- One `0xNN` of a byte array: the byte, and the position and the text behind it.
unfoldable pub braced_byte : ℕ → Text → Result (ℕ × ℕ × Text) CodeError
unfolding braced_digits
braced_byte position (zero_char ∷ x_char ∷ digit ∷ rest) =
    if not (zero_char == b'0') || not (is_x x_char)
    then err (expected_0x position)
    else braced_digits (position + 2) (digit_run (digit ∷ rest))
braced_byte position _ = err (expected_0x position)

-- Behind the closing brace.
unfoldable pub close_array : List ℕ → ℕ × Text → Result (List ℕ) CodeError
close_array result (position, []) = if is_empty result then err no_code else ok result
close_array result (position, c ∷ cs) = err (unexpected_text position)

-- What may follow a byte of an array: a brace, which is left for the next round, or a comma.
unfoldable pub after_byte : ℕ × Text → Result (ℕ × Text) CodeError
after_byte (position, []) = err (expected_comma position)
after_byte (position, c ∷ cs) =
    if c == b'}'
    then ok (position, c ∷ cs)
    else if c == b','
    then ok (position + 1, cs)
    else err (expected_comma position)

abbrev pub Loop : Type 0
Loop = List ℕ → ℕ × Text → Result (List ℕ) CodeError

-- A round of the `for (;;)` of a byte array behind its blanks; `next` is the rounds that follow.
unfoldable pub braced_round : Loop → List ℕ → ℕ × Text → Result (List ℕ) CodeError
braced_round next result (position, []) = err missing_brace
braced_round next result (position, c ∷ cs) =
    let item = (do
      (byte, behind, rest) ← braced_byte position (c ∷ cs)
      place ← after_byte (skip_whitespace behind rest)
      next (result ++ byte ∷ []) place) in
    if c == b'}' then close_array result (skip_whitespace (position + 1) cs) else item

unfoldable pub parse_braced : ℕ → Loop
parse_braced zero result place = err out_of_fuel
parse_braced (suc fuel) result (position, text) =
    braced_round (parse_braced fuel) result (skip_whitespace position text)

-- `\xNN` at a position.
unfoldable pub escaped_byte : ℕ → Text → Result (ℕ × ℕ × Text) CodeError
escaped_byte position (backslash ∷ x_char ∷ a ∷ b ∷ rest) =
    if not (backslash == b'\\') || not (is_x x_char)
    then err (expected_x position)
    else do byte ← parse_byte (position + 2) (a ∷ b ∷ rest); ok (byte, position + 4, rest)
escaped_byte position _ = err (expected_x position)

-- A round of the loop over `\xNN` bytes behind its blanks.
unfoldable pub escaped_round : Loop → List ℕ → ℕ × Text → Result (List ℕ) CodeError
escaped_round next result (position, []) = ok result
escaped_round next result (position, c ∷ cs) = do
  (byte, behind, rest) ← escaped_byte position (c ∷ cs)
  next (result ++ byte ∷ []) (behind, rest)

unfoldable pub parse_escaped : ℕ → Loop
parse_escaped zero result place = err out_of_fuel
parse_escaped (suc fuel) result (position, text) =
    escaped_round (parse_escaped fuel) result (skip_whitespace position text)

-- The loop over plain digit pairs.
unfoldable pub parse_pairs : List ℕ → ℕ → Text → Result (List ℕ) CodeError
parse_pairs result position [] = ok result
parse_pairs result position (c ∷ []) =
    if is_space c then ok result else err (dangling_nibble position)
parse_pairs result position (c ∷ d ∷ rest) =
    let skipped = parse_pairs result (position + 1) (d ∷ rest) in
    let paired = (do
      byte ← parse_byte position (c ∷ d ∷ rest)
      parse_pairs (result ++ byte ∷ []) (position + 2) rest) in
    if is_space c then skipped else if is_space d then err (dangling_nibble position) else paired

unfoldable pub parse_notation : ℕ × Text → Result (List ℕ) CodeError
parse_notation (position, []) = err no_code
parse_notation (position, c ∷ cs) =
    if c == b'{'
    then parse_braced (suc (length cs)) [] (position + 1, cs)
    else if c == b'\\'
    then parse_escaped (suc (length (c ∷ cs))) [] (position, c ∷ cs)
    else parse_pairs [] position (c ∷ cs)

unfoldable pub parse_code_text : Text → Result (List ℕ) CodeError
unfolding parse_notation
parse_code_text text = parse_notation (skip_whitespace 0 text)

-- `fmt::format("{:02X}", fmt::join(code, " "))`.
unfoldable pub format_code_text : List ℕ → Text
format_code_text [] = []
format_code_text (b ∷ []) = byte_chars b
format_code_text (b ∷ c ∷ rest) = byte_chars b ++ (b' ' ∷ format_code_text (c ∷ rest))
