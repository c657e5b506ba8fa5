-- ===== src/Code/Arrays.antt =====
-- A `{ 0xNN, ... }` byte array is read back by `parse_code_text`.
use mathlib.Core.List.{append_assoc}
use bme.Base.{
  ℕ, zero, suc, ◌+◌, ◌≤◌, ◌<◌, ◌≡◌, ◌≢◌, refl, ap, ◌∙◌, List, [], ◌∷◌, ◌++◌, arith, length, All, ok,
  false,
}
use bme.Base.Words.{IsByte, ◌>>>◌}
use bme.Text.{Text, is_empty, is_space, is_xdigit}
use bme.Hex.{byte_chars}
use bme.Code.{
  skip_whitespace, parse_braced, braced_round, braced_byte, braced_digits, after_byte, close_array,
  digit_run, parse_code_text,
}
use bme.Code.Bytes.{hex_digit-IsPlain, from_chars-byte_chars}

-- `{ 0xNN, 0xNN }`, behind the opening brace.
abbrev pub array_items : List ℕ → Text
array_items [] = b'}' ∷ []
array_items (b ∷ []) = b' ' ∷ b'0' ∷ b'x' ∷ (byte_chars b ++ (b' ' ∷ b'}' ∷ []))
array_items (b ∷ c ∷ rest) = b' ' ∷ b'0' ∷ b'x' ∷ (byte_chars b ++ (b',' ∷ array_items (c ∷ rest)))

digit_run-byte_chars :
    (b mark : ℕ) (rest : Text)
    → is_xdigit mark ≡ false
    → digit_run (byte_chars b ++ (mark ∷ rest)) ≡ (byte_chars b, mark ∷ rest)
unfolding digit_run byte_chars
digit_run-byte_chars b mark rest h =
    rw (h, (hex_digit-IsPlain (b >>> 4)).xdigit, (hex_digit-IsPlain b).xdigit)

braced_byte-byte_chars :
    (b mark position : ℕ) (rest : Text)
    → b < 256
    → is_xdigit mark ≡ false
    → braced_byte position (b'0' ∷ b'x' ∷ (byte_chars b ++ (mark ∷ rest)))
      ≡ ok (b, position + 2 + 2, mark ∷ rest)
unfolding braced_byte byte_chars
braced_byte-byte_chars b mark position rest hb h =
    ap (braced_digits (position + 2)) (digit_run-byte_chars b mark rest h)
    ∙ rw (from_chars-byte_chars b hb, braced_digits)

is_empty-concat : (xs : List ℕ) (x : ℕ) → is_empty (xs ++ x ∷ []) ≡ false
is_empty-concat [] x = refl
is_empty-concat (y ∷ ys) x = refl

-- A round that ends at a comma, and the last two rounds.
parse_braced-byte :
    (fuel : ℕ) (result : List ℕ) (position b : ℕ) (rest : Text)
    → b < 256
    → parse_braced
        (suc fuel)
        result
        (position, b' ' ∷ b'0' ∷ b'x' ∷ (byte_chars b ++ (b',' ∷ rest)))
      ≡ parse_braced fuel (result ++ b ∷ []) (position + 1 + 2 + 2 + 1, rest)
unfolding parse_braced braced_round skip_whitespace is_space after_byte
parse_braced-byte fuel result position b rest h =
    rw (braced_byte-byte_chars b b',' (position + 1) rest h (unfold is_xdigit in refl))

parse_braced_last :
    (fuel : ℕ) (result : List ℕ) (position b : ℕ)
    → b < 256
    → parse_braced
        (suc (suc fuel))
        result
        (position, b' ' ∷ b'0' ∷ b'x' ∷ (byte_chars b ++ (b' ' ∷ b'}' ∷ [])))
      ≡ ok (result ++ b ∷ [])
unfolding parse_braced braced_round skip_whitespace is_space after_byte close_array
parse_braced_last fuel result position b h =
    rw (braced_byte-byte_chars b b' ' (position + 1) (b'}' ∷ []) h (unfold is_xdigit in refl))
      (rw (is_empty-concat result b))

parse_braced-array_items :
    (code result : List ℕ) (fuel position : ℕ)
    → code ≢ []
    → length code < fuel
    → All IsByte code
    → parse_braced fuel result (position, array_items code) ≡ ok (result ++ code)
parse_braced-array_items [] result fuel position nonempty f h = absurd (nonempty refl)
parse_braced-array_items (b ∷ rest) result zero position nonempty f h = absurd (omega arith)
parse_braced-array_items (b ∷ []) result (suc zero) position nonempty f h = absurd (omega arith)
parse_braced-array_items (b ∷ []) result (suc (suc fuel)) position nonempty f h =
    parse_braced_last fuel result position b h.0
parse_braced-array_items (b ∷ c ∷ rest) result (suc fuel) position nonempty f (hb, hrest) =
    parse_braced-byte fuel result position b (array_items (c ∷ rest)) hb
    ∙ parse_braced-array_items (c ∷ rest) (result ++ b ∷ []) fuel _ (λ e. cc) (omega arith) hrest
    ∙ ap ok (append_assoc result (b ∷ []) (c ∷ rest))

length-array_items : (code : List ℕ) → length code ≤ length (array_items code)
unfolding byte_chars
length-array_items [] = omega arith
length-array_items (b ∷ []) = omega arith
length-array_items (b ∷ c ∷ rest) = omega (arith, length-array_items (c ∷ rest))

-- Code of at least one byte that is written as an array of `0xNN` is read back.
pub parse_code_text-array_items :
    (code : List ℕ)
    → code ≢ []
    → All IsByte code
    → parse_code_text (b'{' ∷ array_items code) ≡ ok code
unfolding parse_code_text skip_whitespace is_space
parse_code_text-array_items code nonempty h =
    let n = length-array_items code in
    parse_braced-array_items code [] (suc (length (array_items code))) 1 nonempty (omega arith) h
