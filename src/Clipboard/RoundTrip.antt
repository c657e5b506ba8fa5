-- ===== src/Clipboard/RoundTrip.antt =====
-- The base 64 of src/os.linux.cpp, and a decoder of RFC 4648.
use Prim.Native.Nat.{bit_or}
use bme.Base.{
  ℕ, ◌+◌, ◌-◌, ◌*◌, ◌/◌, ◌%◌, ◌^◌, ◌<◌, Bool, true, false, ◌&&◌, Option, none, some, List, [], ◌∷◌,
  leb, ◌==◌, if◌then◌else◌, All, ◌≡◌, refl, ap, ◌∙◌, all_below, all_below-at, arith,
}
use bme.Base.Words.{IsByte, ◌<<<◌, ◌>>>◌}
use bme.Base.Bits.{bit_or_fields, bit_or-zero, zero-bit_or}
use bme.Text.{Text}
use bme.Clipboard.{encode, encode_bytes}

-- The value of a character of the alphabet.
unfoldable pub decode : ℕ → Option ℕ
decode c =
    if leb b'A' c && leb c b'Z'
    then some (c - b'A')
    else if leb b'a' c && leb c b'z'
    then some (c - b'a' + 26)
    else if leb b'0' c && leb c b'9'
    then some (c - b'0' + 52)
    else if c == b'+'
    then some 62
    else if c == b'/'
    then some 63
    else none

abbrev first_byte : (v w : ℕ) → ℕ
first_byte v w = v * 4 + w / 16

abbrev second_byte : (w x : ℕ) → ℕ
second_byte w x = w % 16 * 16 + x / 4

abbrev third_byte : (x y : ℕ) → ℕ
third_byte x y = x % 4 * 64 + y

abbrev triple : (v w x y : Option ℕ) → Option (List ℕ) → Option (List ℕ)
triple (some v) (some w) (some x) (some y) (some rest) =
    some (first_byte v w ∷ second_byte w x ∷ third_byte x y ∷ rest)
triple (some v) (some w) (some x) none (some []) = some (first_byte v w ∷ second_byte w x ∷ [])
triple (some v) (some w) none none (some []) = some (first_byte v w ∷ [])
triple _ _ _ _ _ = none

-- Groups of four characters, of which the last may end in `=`, which is no character of the alphabet.
unfoldable pub decode_text : Text → Option (List ℕ)
decode_text [] = some []
decode_text (v ∷ w ∷ x ∷ y ∷ text) =
    triple (decode v) (decode w) (decode x) (decode y) (decode_text text)
decode_text _ = none

is_some_of : Option ℕ → ℕ → Bool
is_some_of none v = false
is_some_of (some u) v = u == v

of_some : (o : Option ℕ) (v : ℕ) → is_some_of o v ≡ true → o ≡ some v
unfolding is_some_of
of_some none v h = ground arith
of_some (some u) v h = let same : u ≡ v = ground arith in ap some same

all_decoded : all_below (λ v. is_some_of (decode (encode v)) v) 64 ≡ true
unfolding is_some_of decode encode
all_decoded = refl

decode-encode : (v : ℕ) → v < 64 → decode (encode v) ≡ some v
decode-encode v small =
    of_some (decode (encode v)) v
      (all_below-at (λ v. is_some_of (decode (encode v)) v) 64 v all_decoded small)

or_sum : (k q t : ℕ) → t < 2 ^ k → bit_or (q * 2 ^ k) t ≡ q * 2 ^ k + t
or_sum k q t h =
    let fields = bit_or_fields k q 0 0 t (omega arith) h in
    let left : q * 2 ^ k ≡ q * 2 ^ k + 0 = omega arith in
    let right : t ≡ 0 * 2 ^ k + t = omega arith in
    let apart : bit_or (q * 2 ^ k) t ≡ bit_or (q * 2 ^ k + 0) (0 * 2 ^ k + t) =
      λ i. bit_or (left i) (right i) in
    apart ∙ fields ∙ λ i. bit_or-zero q i * 2 ^ k + zero-bit_or t i

-- The characters of two neighbouring bytes, and of the parts of one.
decode-high : (a : ℕ) → IsByte a → decode (encode (a >>> 2)) ≡ some (a / 4)
decode-high a ha = decode-encode (a / 4) (omega arith)

decode-second :
    (a b : ℕ)
    → IsByte b
    → decode (encode (bit_or ((a % 4) <<< 4) (b >>> 4))) ≡ some (a % 4 * 16 + b / 16)
decode-second a b hb =
    ap (λ v. decode (encode v)) (or_sum 4 (a % 4) (b / 16) (omega arith))
    ∙ decode-encode (a % 4 * 16 + b / 16) (omega arith)

decode-third :
    (b c : ℕ)
    → IsByte c
    → decode (encode (bit_or ((b % 16) <<< 2) (c >>> 6))) ≡ some (b % 16 * 4 + c / 64)
decode-third b c hc =
    ap (λ v. decode (encode v)) (or_sum 2 (b % 16) (c / 64) (omega arith))
    ∙ decode-encode (b % 16 * 4 + c / 64) (omega arith)

first_back : (a b : ℕ) → IsByte b → first_byte (a / 4) (a % 4 * 16 + b / 16) ≡ a
first_back a b hb = omega arith

second_back :
    (a b c : ℕ) → IsByte b → IsByte c → second_byte (a % 4 * 16 + b / 16) (b % 16 * 4 + c / 64) ≡ b
second_back a b c hb hc = omega arith

third_back : (b c : ℕ) → IsByte c → third_byte (b % 16 * 4 + c / 64) (c % 64) ≡ c
third_back b c hc = omega arith

-- Base 64 of any bytes is read back as those bytes, by a decoder of the alphabet of RFC 4648.
pub decode_text-encode_bytes :
    (bytes : List ℕ) → All IsByte bytes → decode_text (encode_bytes bytes) ≡ some bytes
unfolding decode_text encode_bytes decode
decode_text-encode_bytes [] h = refl
decode_text-encode_bytes (a ∷ []) h =
    (λ i. triple (decode-high a h.0 i) (decode-second a 0 (omega arith) i) none none (some []))
    ∙ λ i. some (first_back a 0 (omega arith) i ∷ [])
decode_text-encode_bytes (a ∷ b ∷ []) h =
    (λ i.
      triple (decode-high a h.0 i) (decode-second a b h.1.0 i) (decode-third b 0 (omega arith) i)
        none (some []))
    ∙ λ i. some (first_back a b h.1.0 i ∷ second_back a b 0 h.1.0 (omega arith) i ∷ [])
decode_text-encode_bytes (a ∷ b ∷ c ∷ text) h =
    (λ i.
      triple (decode-high a h.0 i) (decode-second a b h.1.0 i) (decode-third b c h.1.1.0 i)
        (decode-encode (c % 64) (omega arith) i) (decode_text-encode_bytes text h.1.1.1 i))
    ∙ λ i. some (
        first_back a b h.1.0 i
        ∷ second_back a b c h.1.0 h.1.1.0 i
        ∷ third_back b c h.1.1.0 i
        ∷ text)
