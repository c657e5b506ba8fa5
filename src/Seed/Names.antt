-- ===== src/Seed/Names.antt =====
-- The register name tables of src/bme_core.cpp, and the names that index a register.
use bme.Base.{
  ℕ, zero, suc, ◌^◌, ◌+◌, ◌/◌, ◌%◌, not, ◌&&◌, ◌||◌, Option, none, some, List, [], ◌∷◌, ltb, leb,
  ◌==◌, if◌then◌else◌, length, get_or,
}
use bme.Text.{Text, codes, ascii_case_insensitive_equal}
use bme.Hex.{from_chars}

abbrev pub gpr_count : ℕ
gpr_count = 16

-- `Reg::RSP`, which the engine sets.
abbrev pub rsp : ℕ
rsp = 7

abbrev pub reg_names : List Text
reg_names =
    codes "RAX"
    ∷ codes "RBX"
    ∷ codes "RCX"
    ∷ codes "RDX"
    ∷ codes "RSI"
    ∷ codes "RDI"
    ∷ codes "RBP"
    ∷ codes "RSP"
    ∷ codes "R8"
    ∷ codes "R9"
    ∷ codes "R10"
    ∷ codes "R11"
    ∷ codes "R12"
    ∷ codes "R13"
    ∷ codes "R14"
    ∷ codes "R15"
    ∷ codes "RIP"
    ∷ codes "RFLAGS"
    ∷ []

abbrev pub gpr_names_32 : List Text
gpr_names_32 =
    codes "EAX"
    ∷ codes "EBX"
    ∷ codes "ECX"
    ∷ codes "EDX"
    ∷ codes "ESI"
    ∷ codes "EDI"
    ∷ codes "EBP"
    ∷ codes "ESP"
    ∷ codes "R8D"
    ∷ codes "R9D"
    ∷ codes "R10D"
    ∷ codes "R11D"
    ∷ codes "R12D"
    ∷ codes "R13D"
    ∷ codes "R14D"
    ∷ codes "R15D"
    ∷ []

abbrev pub gpr_names_16 : List Text
gpr_names_16 =
    codes "AX"
    ∷ codes "BX"
    ∷ codes "CX"
    ∷ codes "DX"
    ∷ codes "SI"
    ∷ codes "DI"
    ∷ codes "BP"
    ∷ codes "SP"
    ∷ codes "R8W"
    ∷ codes "R9W"
    ∷ codes "R10W"
    ∷ codes "R11W"
    ∷ codes "R12W"
    ∷ codes "R13W"
    ∷ codes "R14W"
    ∷ codes "R15W"
    ∷ []

abbrev pub gpr_names_8l : List Text
gpr_names_8l =
    codes "AL"
    ∷ codes "BL"
    ∷ codes "CL"
    ∷ codes "DL"
    ∷ codes "SIL"
    ∷ codes "DIL"
    ∷ codes "BPL"
    ∷ codes "SPL"
    ∷ codes "R8B"
    ∷ codes "R9B"
    ∷ codes "R10B"
    ∷ codes "R11B"
    ∷ codes "R12B"
    ∷ codes "R13B"
    ∷ codes "R14B"
    ∷ codes "R15B"
    ∷ []

-- Only the first four registers have a high byte with a name.
abbrev pub gpr_names_8h : List Text
gpr_names_8h = codes "AH" ∷ codes "BH" ∷ codes "CH" ∷ codes "DH" ∷ []

-- A flag's name and its bit.
abbrev pub status_flags : List (Text × ℕ)
status_flags =
    (codes "OF", 0x800)
    ∷ (codes "DF", 0x400)
    ∷ (codes "SF", 0x80)
    ∷ (codes "ZF", 0x40)
    ∷ (codes "AF", 0x10)
    ∷ (codes "PF", 4)
    ∷ (codes "CF", 1)
    ∷ []

pub data Slice : Type 0 where
  full : Slice
  dword : Slice
  word : Slice
  byte_high : Slice
  byte_low : Slice

-- The slice of one register that a name spells.
unfoldable pub slice_at : Text → ℕ → Option Slice
slice_at name reg =
    if ascii_case_insensitive_equal name (get_or reg_names reg [])
    then some full
    else if ascii_case_insensitive_equal name (get_or gpr_names_32 reg [])
    then some dword
    else if ascii_case_insensitive_equal name (get_or gpr_names_16 reg [])
    then some word
    else if ascii_case_insensitive_equal name (get_or gpr_names_8l reg [])
    then some byte_low
    else if ltb reg (length gpr_names_8h)
        && ascii_case_insensitive_equal name (get_or gpr_names_8h reg [])
    then some byte_high
    else none

-- The search through `count` registers, from `reg` on, for the first that has the name.
unfoldable pub find_slice : (count reg : ℕ) → Text → Option (ℕ × Slice)
find_slice zero reg name = none
find_slice (suc count) reg name = elim (slice_at name reg) [
  | some slice ↦ some (reg, slice)
  | none ↦ find_slice count (reg + 1) name
]

abbrev checked_index : ℕ → Option ℕ → Option ℕ
checked_index limit none = none
checked_index limit (some i) = if leb limit i then none else some i

unfoldable pub parse_xmm_seed_index : Text → Option ℕ
parse_xmm_seed_index (x ∷ m ∷ n ∷ digits) =
    if ltb (length digits) 1
      || not (x == b'x' || x == b'X')
      || not (m == b'm' || m == b'M')
      || not (n == b'm' || n == b'M')
    then none
    else checked_index 16 (from_chars 10 (2 ^ 64) digits)
parse_xmm_seed_index _ = none

unfoldable pub parse_st_seed_index : Text → Option ℕ
parse_st_seed_index (s ∷ t ∷ digits) =
    if not (length digits == 1) || not (s == b's' || s == b'S') || not (t == b't' || t == b'T')
    then none
    else checked_index 8 (from_chars 10 (2 ^ 64) digits)
parse_st_seed_index _ = none

-- `fmt` of a number below 100.
unfoldable pub decimal : ℕ → Text
decimal n = if ltb n 10 then (b'0' + n) ∷ [] else (b'0' + n / 10) ∷ (b'0' + n % 10) ∷ []
