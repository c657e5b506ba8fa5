-- ===== src/Controls.antt =====
-- Control and status words as text: `decode_flag_bits` to `decode_mxcsr` of src/bme_core.cpp, and
-- `x87_tag_name`.
use Prim.Native.Nat.{bit_and, bit_or}
use bme.Base.{
  ℕ, ◌+◌, ◌*◌, ◌%◌, Bool, not, ◌||◌, List, [], ◌∷◌, ◌++◌, ◌==◌, if◌then◌else◌, get_or, take,
}
use bme.Base.Words.{◌<<<◌, ◌>>>◌}
use bme.Text.{Text, codes, is_empty}
use bme.Engine.Address.{Fmt}

-- A name and the bit that it stands for.
abbrev pub FlagBits : Type 0
FlagBits = List (Text × ℕ)

-- The names of the bits that are set, each behind a space.
unfoldable pub set_names : ℕ → FlagBits → Text
set_names word [] = []
set_names word ((name, bit) ∷ bits) =
    let rest = set_names word bits in
    if bit_and word bit == 0 then rest else codes " " ++ name ++ rest

abbrev pub without_first : Text → Text
without_first [] = []
without_first (c ∷ rest) = rest

unfoldable pub decode_flag_bits : ℕ → FlagBits → Text
decode_flag_bits word bits =
    let result = set_names word bits in
    if is_empty result then codes "none" else without_first result

abbrev pub precisions : List Text
precisions = codes "Real4" ∷ codes "Not Used" ∷ codes "Real8" ∷ codes "Real10" ∷ []

abbrev pub x87_roundings : List Text
x87_roundings = codes "Round Near" ∷ codes "Round Down" ∷ codes "Round Up" ∷ codes "Truncate" ∷ []

abbrev pub x87_masks : FlagBits
x87_masks =
    (codes "IM", 1)
    ∷ (codes "DM", 2)
    ∷ (codes "ZM", 4)
    ∷ (codes "OM", 8)
    ∷ (codes "UM", 0x10)
    ∷ (codes "PM", 0x20)
    ∷ []

unfoldable pub decode_x87_control_word : ℕ → List Text
decode_x87_control_word control_word =
    (get_or precisions ((control_word >>> 8) % 4) []
      ++ codes " "
      ++ get_or x87_roundings ((control_word >>> 10) % 4) [])
    ∷ (codes "Masks: " ++ decode_flag_bits control_word x87_masks)
    ∷ []

abbrev pub x87_flags : FlagBits
x87_flags =
    (codes "IE", 1)
    ∷ (codes "DE", 2)
    ∷ (codes "ZE", 4)
    ∷ (codes "OE", 8)
    ∷ (codes "UE", 0x10)
    ∷ (codes "PE", 0x20)
    ∷ (codes "SF", 0x40)
    ∷ (codes "ES", 0x80)
    ∷ (codes "B", 0x8000)
    ∷ []

abbrev pub x87_conditions : FlagBits
x87_conditions =
    (codes "C0", 0x100) ∷ (codes "C1", 0x200) ∷ (codes "C2", 0x400) ∷ (codes "C3", 0x4000) ∷ []

unfoldable pub decode_x87_status_word : Fmt → ℕ → List Text
decode_x87_status_word fmt status_word =
    let top = fmt.number ((status_word >>> 11) % 8) in
    (codes "TOP=" ++ top ++ codes " (ST0=x87r" ++ top ++ codes ")")
    ∷ (codes "Flags: " ++ decode_flag_bits status_word x87_flags)
    ∷ (codes "CC: " ++ decode_flag_bits status_word x87_conditions)
    ∷ []

abbrev pub sse_roundings : List Text
sse_roundings =
    codes "Round Near"
    ∷ codes "Toward Negative"
    ∷ codes "Toward Positive"
    ∷ codes "Toward Zero"
    ∷ []

abbrev pub sse_masks : FlagBits
sse_masks =
    (codes "IM", 0x80)
    ∷ (codes "DM", 0x100)
    ∷ (codes "ZM", 0x200)
    ∷ (codes "OM", 0x400)
    ∷ (codes "UM", 0x800)
    ∷ (codes "PM", 0x1000)
    ∷ []

abbrev pub sse_flags : FlagBits
sse_flags =
    (codes "IE", 1)
    ∷ (codes "DE", 2)
    ∷ (codes "ZE", 4)
    ∷ (codes "OE", 8)
    ∷ (codes "UE", 0x10)
    ∷ (codes "PE", 0x20)
    ∷ []

abbrev pub sse_modes : FlagBits
sse_modes = (codes "DAZ", 0x40) ∷ (codes "FZ", 0x8000) ∷ []

unfoldable pub decode_mxcsr : ℕ → List Text
decode_mxcsr mxcsr =
    get_or sse_roundings ((mxcsr >>> 13) % 4) []
    ∷ (codes "Masks: " ++ decode_flag_bits mxcsr sse_masks)
    ∷ (codes "Flags: " ++ decode_flag_bits mxcsr sse_flags)
    ∷ (codes "Modes: " ++ decode_flag_bits mxcsr sse_modes)
    ∷ []

-- Bytes as a number, the least significant first.
unfoldable pub little_endian : List ℕ → ℕ
little_endian [] = 0
little_endian (b ∷ bytes) = b + 256 * little_endian bytes

unfoldable pub x87_tag_name : (valid : Bool) → List ℕ → Text
x87_tag_name valid bytes =
    let mantissa = little_endian (take 8 bytes) in
    let exponent = bit_and (bit_or (get_or bytes 9 0 <<< 8) (get_or bytes 8 0)) 0x7FFF in
    if not valid
    then codes "Empty"
    else if exponent == 0
    then (if mantissa == 0 then codes "Zero" else codes "Special")
    else if exponent == 0x7FFF || bit_and mantissa 0x8000_0000_0000_0000 == 0
    then codes "Special"
    else codes "Nonzero"
