-- ===== src/Clipboard.antt =====
-- `copy_to_clipboard` of src/os.linux.cpp: a text as an escape sequence with base 64.
pub mod RoundTrip
use Prim.Native.Nat.{bit_or}
use bme.Base.{
  ℕ, ◌+◌, ◌-◌, ◌*◌, ◌/◌, ◌%◌, Bool, true, false, ◌||◌, not, Option, none, some, List, [], ◌∷◌, ◌++◌,
  ltb, ◌==◌, if◌then◌else◌,
}
use bme.Base.Words.{u8, ◌<<<◌, ◌>>>◌}
use bme.Text.{Text, codes, is_empty}

-- The lambda `encode`.
unfoldable pub encode : ℕ → ℕ
encode value =
    if ltb value 26
    then b'A' + value
    else if ltb value 52
    then b'a' + value - 26
    else if ltb value 62
    then b'0' + value - 52
    else if value == 62
    then b'+'
    else b'/'

-- A round of the loop: one, two or three bytes as four characters. `x & 3`, `x & 0xF` and `x & 0x3F`
-- are remainders.
unfoldable pub encode_bytes : Text → Text
encode_bytes [] = []
encode_bytes (first ∷ []) =
    encode (first >>> 2) ∷ encode (bit_or ((first % 4) <<< 4) (0 >>> 4)) ∷ b'=' ∷ b'=' ∷ []
encode_bytes (first ∷ second ∷ []) =
    encode (first >>> 2)
    ∷ encode (bit_or ((first % 4) <<< 4) (second >>> 4))
    ∷ encode (bit_or ((second % 16) <<< 2) (0 >>> 6))
    ∷ b'='
    ∷ []
encode_bytes (first ∷ second ∷ third ∷ text) =
    encode (first >>> 2)
    ∷ encode (bit_or ((first % 4) <<< 4) (second >>> 4))
    ∷ encode (bit_or ((second % 16) <<< 2) (third >>> 6))
    ∷ encode (third % 64)
    ∷ encode_bytes text

-- What is written to the terminal, where standard output is one and takes all of it.
unfoldable pub copy_to_clipboard : (is_terminal : Bool) → Text → Option Text
copy_to_clipboard is_terminal text =
    if is_empty text || not is_terminal
    then none
    else some (0x1B ∷ codes "]52;c;" ++ encode_bytes text ++ 7 ∷ [])
