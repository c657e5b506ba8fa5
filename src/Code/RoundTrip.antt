-- ===== src/Code/RoundTrip.antt =====
-- The notations of a program are read back by `parse_code_text`.
use mathlib.Core.List.{append-nil, append_assoc}
use bme.Base.{
  ℕ, zero, suc, ◌+◌, ◌≤◌, ◌<◌, ◌≡◌, ◌≢◌, refl, ap, ◌∙◌, List, [], ◌∷◌, ◌++◌, arith, length, All, ok,
}
use bme.Text.{Text, is_space}
use bme.Base.Words.{IsByte}
use bme.Hex.{hex_digit, byte_chars}
use bme.Code.{
  parse_pairs, skip_whitespace, parse_escaped, escaped_round, escaped_byte, parse_code_text,
  format_code_text,
}
use bme.Code.Bytes.{
  hex_digit-IsPlain, parse_pairs-byte_chars, parse_pairs-space, parse_byte-byte_chars,
}

parse_pairs-format :
    (code result : List ℕ) (position : ℕ)
    → All IsByte code
    → parse_pairs result position (format_code_text code) ≡ ok (result ++ code)
unfolding format_code_text
parse_pairs-format [] result position h = rw append-nil (unfold parse_pairs in refl)
parse_pairs-format (b ∷ []) result position h =
    rw append-nil at (parse_pairs-byte_chars result position b [] h.0) ∙ unfold parse_pairs in refl
parse_pairs-format (b ∷ c ∷ rest) result position (hb, hrest) =
    parse_pairs-byte_chars result position b (b' ' ∷ format_code_text (c ∷ rest)) hb
    ∙ parse_pairs-space _ _ (format_code_text (c ∷ rest))
    ∙ parse_pairs-format (c ∷ rest) (result ++ b ∷ []) (position + 2 + 1) hrest
    ∙ ap ok (append_assoc result (b ∷ []) (c ∷ rest))

-- A text that begins with a digit is read as digit pairs.
pub parse_code_text-hex_digit :
    (v : ℕ) (rest : Text)
    → parse_code_text (hex_digit v ∷ rest) ≡ parse_pairs [] 0 (hex_digit v ∷ rest)
unfolding parse_code_text skip_whitespace
parse_code_text-hex_digit v rest =
    let d = hex_digit-IsPlain v in rw (d.no_space, d.no_open, d.no_backslash)

-- Formatting machine code of at least one byte and parsing the text gives the code back.
pub parse_code_text-format_code_text :
    (code : List ℕ)
    → code ≢ []
    → All IsByte code
    → parse_code_text (format_code_text code) ≡ ok code
unfolding format_code_text byte_chars
parse_code_text-format_code_text [] nonempty h = absurd (nonempty refl)
parse_code_text-format_code_text (b ∷ []) nonempty h =
    parse_code_text-hex_digit _ _ ∙ parse_pairs-format (b ∷ []) [] 0 h
parse_code_text-format_code_text (b ∷ c ∷ rest) nonempty h =
    parse_code_text-hex_digit _ _ ∙ parse_pairs-format (b ∷ c ∷ rest) [] 0 h

-- `\xNN\xNN`, as the documentation of `--bytes` shows it.
abbrev pub escaped_notation : List ℕ → Text
escaped_notation [] = []
escaped_notation (b ∷ bs) = b'\\' ∷ b'x' ∷ (byte_chars b ++ escaped_notation bs)

parse_escaped-byte :
    (fuel : ℕ) (result : List ℕ) (position b : ℕ) (rest : Text)
    → b < 256
    → parse_escaped (suc fuel) result (position, b'\\' ∷ b'x' ∷ (byte_chars b ++ rest))
      ≡ parse_escaped fuel (result ++ b ∷ []) (position + 4, rest)
unfolding parse_escaped escaped_round skip_whitespace is_space escaped_byte byte_chars
parse_escaped-byte fuel result position b rest h =
    rw (parse_byte-byte_chars (position + 2) b rest h)

parse_escaped-notation :
    (code result : List ℕ) (fuel position : ℕ)
    → length code < fuel
    → All IsByte code
    → parse_escaped fuel result (position, escaped_notation code) ≡ ok (result ++ code)
parse_escaped-notation [] result zero position f h = absurd (omega arith)
parse_escaped-notation [] result (suc fuel) position f h =
    rw append-nil (unfold parse_escaped escaped_round skip_whitespace in refl)
parse_escaped-notation (b ∷ bs) result zero position f h = absurd (omega arith)
parse_escaped-notation (b ∷ bs) result (suc fuel) position f (hb, hbs) =
    parse_escaped-byte fuel result position b (escaped_notation bs) hb
    ∙ parse_escaped-notation bs (result ++ b ∷ []) fuel (position + 4) (omega arith) hbs
    ∙ ap ok (append_assoc result (b ∷ []) bs)

length-escaped_notation : (code : List ℕ) → length code ≤ length (escaped_notation code)
unfolding byte_chars
length-escaped_notation [] = omega arith
length-escaped_notation (b ∷ bs) = omega (arith, length-escaped_notation bs)

-- Code of at least one byte that is written as `\xNN` bytes is read back.
pub parse_code_text-escaped_notation :
    (code : List ℕ)
    → code ≢ []
    → All IsByte code
    → parse_code_text (escaped_notation code) ≡ ok code
unfolding parse_code_text skip_whitespace is_space
parse_code_text-escaped_notation [] nonempty h = absurd (nonempty refl)
parse_code_text-escaped_notation (b ∷ bs) nonempty h =
    let n = length-escaped_notation (b ∷ bs) in
    parse_escaped-notation (b ∷ bs) [] (suc (length (escaped_notation (b ∷ bs)))) 0 (omega arith) h
