-- ===== src/Code/Errors.antt =====
-- `parse_code_text` on any text: what it returns, and where its errors point.
pub mod Loops
pub mod Report
use bme.Base.{
  ℕ, zero, suc, ◌+◌, ◌*◌, ◌≤◌, ◌<◌, ◌≡◌, refl, false, inl, inr, some, List, [], ◌∷◌, ◌++◌, arith,
  length, length-append, All, All-append, Result, ok, err, ◌>>=◌, Bool-cases, Option-cases,
}
use bme.Base.Words.{IsByte}
use bme.Text.{Text, is_space, is_empty}
use bme.Hex.{from_chars}
use bme.Code.{
  CodeError, no_code, missing_brace, dangling_nibble, invalid_hex_byte, unexpected_text,
  expected_0x, expected_hexadecimal, exceeds_byte, invalid_hexadecimal, expected_comma, expected_x,
  out_of_fuel, parse_byte, parse_pairs, skip_whitespace, Loop, parse_escaped, escaped_round,
  escaped_byte, parse_braced, braced_round, braced_byte, braced_digits, after_byte, close_array,
  digit_run, parse_notation, parse_code_text,
}

-- An error that the program reports shows a position inside the text or at its end, and the two
-- characters of a malformed byte stand in the text.
abbrev pub PointsInto : ℕ → CodeError → Type 0
PointsInto size no_code = Unit
PointsInto size missing_brace = Unit
PointsInto size (dangling_nibble position) = position ≤ size
PointsInto size (invalid_hex_byte pair position) = position + length pair ≤ size
PointsInto size (unexpected_text position) = position < size
PointsInto size (expected_0x position) = position < size
PointsInto size (expected_hexadecimal position) = position ≤ size
PointsInto size (exceeds_byte position) = position < size
PointsInto size (invalid_hexadecimal position) = position < size
PointsInto size (expected_comma position) = position ≤ size
PointsInto size (expected_x position) = position < size
PointsInto size out_of_fuel = ⊥

-- A result of `parse_code_text` on a text of `size` characters: bytes only, at least `low` of them,
-- and no more than half as many as the text has characters.
abbrev pub IsReport : ℕ → ℕ → Result (List ℕ) CodeError → Type 0
IsReport low size (ok code) = All IsByte code × (low ≤ length code) × (2 * length code ≤ size)
IsReport low size (err e) = PointsInto size e

IsReport-mono :
    (low low' size : ℕ) (r : Result (List ℕ) CodeError)
    → low' ≤ low
    → IsReport low size r
    → IsReport low' size r
IsReport-mono low low' size (ok code) le (bytes, least, most) = (bytes, omega arith, most)
IsReport-mono low low' size (err e) le h = h

-- The same of a reader of one item, with a property of what it returns.
abbrev Yields : {A : Type 0} → (A → Type 0) → ℕ → Result A CodeError → Type 0
Yields P size (ok a) = P a
Yields P size (err e) = PointsInto size e

bind-IsReport :
    {A : Type 0} (P : A → Type 0) (low size : ℕ) (m : Result A CodeError)
    (f : A → Result (List ℕ) CodeError)
    → Yields P size m
    → ((a : A) → P a → IsReport low size (f a))
    → IsReport low size (m >>= f)
bind-IsReport P low size (ok a) f p h = h a p
bind-IsReport P low size (err e) f p h = p

from_chars-lt :
    (base limit : ℕ) (text : Text) (v : ℕ) → from_chars base limit text ≡ some v → v < limit
unfolding from_chars
from_chars-lt base limit text v e = ground arith

parse_byte-Yields :
    (position size : ℕ) (text : Text)
    → position + length text ≤ size
    → Yields IsByte size (parse_byte position text)
unfolding parse_byte
parse_byte-Yields position size [] h = omega arith
parse_byte-Yields position size (a ∷ []) h = omega arith
parse_byte-Yields position size (a ∷ b ∷ rest) h =
    elim (Option-cases (from_chars 16 256 (a ∷ b ∷ []))) [
      | inl e ↦ rw (e, parse_byte) (omega arith)
      | inr (v, e) ↦ rw (e, parse_byte) (from_chars-lt 16 256 (a ∷ b ∷ []) v e)
    ]

-- The bytes so far take two characters each.
pub record Sofar (size : ℕ) (result : List ℕ) (position : ℕ) (text : Text) : Type 0 where
  pub bytes : All IsByte result
  pub spent : 2 * length result ≤ position
  pub fits : position + length text ≡ size

Sofar-concat :
    {size : ℕ} {result : List ℕ} {position : ℕ} {text : Text} (b later : ℕ) (rest : Text)
    → Sofar size result position text
    → b < 256
    → position + 2 ≤ later
    → later + length rest ≡ size
    → Sofar size (result ++ b ∷ []) later rest
Sofar-concat {size} {result} b later rest s hb hl hr = record {
  bytes = All-append IsByte result (b ∷ []) s.bytes (hb, tt);
  spent = omega (arith, length-append result (b ∷ []), s.spent);
  fits = hr;
}

length-concat : (result : List ℕ) (b : ℕ) → length (result ++ b ∷ []) ≡ length result + 1
length-concat result b = length-append result (b ∷ [])

parse_pairs-IsReport :
    (result : List ℕ) (position : ℕ) (text : Text) {size : ℕ}
    → Sofar size result position text
    → IsReport (length result) size (parse_pairs result position text)
unfolding parse_pairs
parse_pairs-IsReport result position [] s = (s.bytes, omega arith, omega (arith, s.spent, s.fits))
parse_pairs-IsReport result position (c ∷ []) s = ground (arith, s.bytes, s.spent, s.fits)
parse_pairs-IsReport result position (c ∷ d ∷ rest) {size} s = elim (Bool-cases (is_space c)) [
  | inl blank ↦ rw blank (
      parse_pairs-IsReport result (position + 1) (d ∷ rest)
        (record { bytes = s.bytes; spent = omega arith; fits = omega arith }))
  | inr digit ↦ elim (Bool-cases (is_space d)) [
    | inl blank ↦ rw (digit, blank) (omega (arith, s.fits))
    | inr other ↦
        rw (digit, other)
          (bind-IsReport IsByte (length result) size (parse_byte position (c ∷ d ∷ rest)) _
            (parse_byte-Yields position size (c ∷ d ∷ rest) (omega arith))
            (λ b hb. IsReport-mono _ _ size _ (omega (arith, length-concat result b)) (
              parse_pairs-IsReport (result ++ b ∷ []) (position + 2) rest
                (Sofar-concat b (position + 2) rest s hb (omega arith) (omega arith)))))
  ]
]

-- At a character that is no blank there is a byte, or an error.
pub parse_pairs_first :
    (position c : ℕ) (cs : Text) {size : ℕ}
    → is_space c ≡ false
    → Sofar size [] position (c ∷ cs)
    → IsReport 1 size (parse_pairs [] position (c ∷ cs))
unfolding parse_pairs
parse_pairs_first position c [] digit s = rw digit (omega (arith, s.fits))
parse_pairs_first position c (d ∷ rest) {size} digit s = elim (Bool-cases (is_space d)) [
  | inl blank ↦ rw (digit, blank) (omega (arith, s.fits))
  | inr other ↦
      rw (digit, other)
        (bind-IsReport IsByte 1 size (parse_byte position (c ∷ d ∷ rest)) _
          (parse_byte-Yields position size (c ∷ d ∷ rest) (omega arith))
          (λ b hb.
            parse_pairs-IsReport (b ∷ []) (position + 2) rest
              (Sofar-concat b (position + 2) rest s hb (omega arith) (omega arith))))
]
