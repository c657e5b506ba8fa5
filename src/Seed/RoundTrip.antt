-- ===== src/Seed/RoundTrip.antt =====
-- The seed readers give back the values that the trace formatters write.
use mathlib.Core.List.{append-nil, append_assoc}
use bme.Base.{
  ℕ, zero, suc, ◌*◌, ◌^◌, ◌≤◌, ◌<◌, ◌≡◌, refl, ap, ◌∙◌, false, List, [], ◌∷◌, ◌++◌, some, arith,
  length, length-append, All, ok, err, if◌then◌else◌, ltb, take-append, drop-append,
}
use bme.Base.Words.{IsByte, ◌>>>◌}
use bme.Text.{Text, is_empty}
use bme.Hex.{
  from_chars, hex_digit, hex_chars, format_hex, byte_chars, reversed_bytes, format_xmm, format_st,
}
use bme.Hex.RoundTrip.{digit_char, hex_digit_char, from_chars-hex_chars}
use bme.Code.Bytes.{from_chars-byte_chars}
use bme.Seed.{
  Floats, invalid_mxcsr, strip_prefix, parse_seed, parse_bounded_seed, parse_mxcsr_seed,
  is_decimal_mark, is_decimal_seed, xmm_digits_value, xmm_high, st_bytes, compose_xmm_seed,
  compose_st_seed,
}

parse_seed-prefixed :
    (v : ℕ) (digits : Text)
    → from_chars 16 (2 ^ 64) digits ≡ some v
    → parse_seed (b'0' ∷ b'x' ∷ digits) ≡ ok v
unfolding parse_seed strip_prefix
parse_seed-prefixed v digits e = rw e

-- `parse_seed` reads back a 64-bit value that `format_hex` writes with at least one digit and with
-- enough digits for it.
pub parse_seed-format_hex :
    (n v : ℕ) → 0 < n → v < 2 ^ (n * 4) → v < 2 ^ 64 → parse_seed (format_hex n v) ≡ ok v
unfolding format_hex
parse_seed-format_hex n v n_pos fits small =
    parse_seed-prefixed v (hex_chars n v) (from_chars-hex_chars n v (2 ^ 64) n_pos fits small)

-- A formatted 32-bit value is accepted as an MXCSR seed exactly if its reserved bits are clear.
pub parse_mxcsr_seed-format_hex :
    (v : ℕ)
    → v < 2 ^ 32
    → parse_mxcsr_seed (format_hex 8 v)
      ≡ (if ltb 0xFFFF v then err (invalid_mxcsr (format_hex 8 v)) else ok v)
unfolding parse_mxcsr_seed parse_bounded_seed
parse_mxcsr_seed-format_hex v h =
    rw (parse_seed-format_hex 8 v (omega arith) (omega arith) (omega arith), parse_bounded_seed)

is_decimal_mark-hex_digit : (v : ℕ) → is_decimal_mark (hex_digit v) ≡ false
unfolding is_decimal_mark digit_char
is_decimal_mark-hex_digit v = ground (arith, hex_digit_char v)

is_decimal_seed-hex_chars :
    (n v : ℕ) (rest : Text) → is_decimal_seed (hex_chars n v ++ rest) ≡ is_decimal_seed rest
unfolding is_decimal_seed hex_chars
is_decimal_seed-hex_chars zero v rest = refl
is_decimal_seed-hex_chars (suc n) v rest =
    rw (is_decimal_mark-hex_digit _) (is_decimal_seed-hex_chars n v rest)

is_decimal_seed-reversed_bytes :
    (bytes : List ℕ) (rest : Text)
    → is_decimal_seed (reversed_bytes bytes ++ rest) ≡ is_decimal_seed rest
unfolding reversed_bytes
is_decimal_seed-reversed_bytes [] rest = refl
is_decimal_seed-reversed_bytes (b ∷ bs) rest = rw append_assoc (
    is_decimal_seed-reversed_bytes bs (byte_chars b ++ rest)
    ∙ unfold is_decimal_seed byte_chars in
      rw (is_decimal_mark-hex_digit (b >>> 4), is_decimal_mark-hex_digit b))

length-hex_chars : (n v : ℕ) → length (hex_chars n v) ≡ n
unfolding hex_chars
length-hex_chars zero v = refl
length-hex_chars (suc n) v = ap suc (length-hex_chars n v)

length-reversed_bytes : (bytes : List ℕ) → length (reversed_bytes bytes) ≡ 2 * length bytes
unfolding reversed_bytes byte_chars
length-reversed_bytes [] = refl
length-reversed_bytes (b ∷ bs) =
    omega (arith, length-append (reversed_bytes bs) (byte_chars b), length-reversed_bytes bs)

is_empty-false : (text : Text) → 0 < length text → is_empty text ≡ false
is_empty-false [] h = absurd (omega arith)
is_empty-false (c ∷ cs) h = refl

xmm_digits_value-append :
    (text high low : Text) (l h : ℕ)
    → length high ≡ 16
    → length low ≡ 16
    → from_chars 16 (2 ^ 64) low ≡ some l
    → from_chars 16 (2 ^ 64) high ≡ some h
    → xmm_digits_value text (high ++ low) ≡ ok (l, h)
unfolding xmm_digits_value xmm_high
xmm_digits_value-append text high low l h eh el fl fh =
    let e : length (high ++ low) ≡ 32 = omega (arith, length-append high low) in
    rw (
      e,
      xmm_digits_value,
      drop-append 16 high low eh,
      fl,
      e,
      take-append 16 high low eh,
      is_empty-false high (omega arith),
      fh,
    )

compose_xmm_seed-prefixed :
    (f : Floats) (digits : Text) {v : ℕ × ℕ}
    → is_decimal_seed (b'0' ∷ b'x' ∷ digits) ≡ false
    → 0 < length digits
    → length digits ≤ 32
    → xmm_digits_value (b'0' ∷ b'x' ∷ digits) digits ≡ ok v
    → compose_xmm_seed f (b'0' ∷ b'x' ∷ digits) ≡ ok v
unfolding compose_xmm_seed strip_prefix
compose_xmm_seed-prefixed f digits {v} hex some_digits few e =
    let fits : ltb 32 (length digits) ≡ false = ground arith in
    rw (hex, is_empty-false digits some_digits, fits) e

no_mark_prefix : (digits : Text) → is_decimal_seed (b'0' ∷ b'x' ∷ digits) ≡ is_decimal_seed digits
unfolding is_decimal_seed is_decimal_mark
no_mark_prefix digits = refl

-- Seeding an XMM register with the text that a trace shows for it restores its two 64-bit halves,
-- whatever the floating-point operations are.
pub compose_xmm_seed-format_xmm :
    (f : Floats) (low high : ℕ)
    → low < 2 ^ 64
    → high < 2 ^ 64
    → compose_xmm_seed f (format_xmm (low, high)) ≡ ok (low, high)
unfolding format_xmm is_decimal_seed
compose_xmm_seed-format_xmm f low high hl hh =
    let h16 = length-hex_chars 16 high in
    let l16 = length-hex_chars 16 low in
    let n = length-append (hex_chars 16 high) (hex_chars 16 low) in
    compose_xmm_seed-prefixed f (hex_chars 16 high ++ hex_chars 16 low)
      (no_mark_prefix _
        ∙ is_decimal_seed-hex_chars 16 high (hex_chars 16 low)
        ∙ rw append-nil at (is_decimal_seed-hex_chars 16 low []))
      (omega arith) (omega arith)
      (xmm_digits_value-append _ (hex_chars 16 high) (hex_chars 16 low) low high h16 l16
        (from_chars-hex_chars 16 low (2 ^ 64) (omega arith) (omega arith) (omega arith))
        (from_chars-hex_chars 16 high (2 ^ 64) (omega arith) (omega arith) (omega arith)))

st_bytes-reversed_bytes :
    (bytes result : List ℕ) (rest : Text)
    → All IsByte bytes
    → st_bytes result (reversed_bytes bytes ++ rest) ≡ st_bytes (bytes ++ result) rest
unfolding reversed_bytes
st_bytes-reversed_bytes [] result rest h = refl
st_bytes-reversed_bytes (b ∷ bs) result rest (hb, hbs) = rw append_assoc (
    st_bytes-reversed_bytes bs result (byte_chars b ++ rest) hbs
    ∙ unfold byte_chars st_bytes in rw (from_chars-byte_chars b hb, st_bytes))

-- Seeding an x87 register with the text that a trace shows for it restores its ten bytes, whatever
-- the floating-point operations are.
pub compose_st_seed-format_st :
    (f : Floats) (bytes : List ℕ)
    → length bytes ≡ 10
    → All IsByte bytes
    → compose_st_seed f (format_st bytes) ≡ ok bytes
unfolding format_st compose_st_seed strip_prefix is_decimal_seed st_bytes
compose_st_seed-format_st f bytes ten h =
    let n : length (reversed_bytes bytes) ≡ 20 = omega (arith, length-reversed_bytes bytes) in
    let hex =
      no_mark_prefix (reversed_bytes bytes)
      ∙ rw append-nil at (is_decimal_seed-reversed_bytes bytes []) in
    let read = rw append-nil at (st_bytes-reversed_bytes bytes [] [] h) in
    rw (hex, is_empty-false (reversed_bytes bytes) (omega arith), n, read, append-nil)
