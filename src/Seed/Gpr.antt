-- ===== src/Seed/Gpr.antt =====
-- `compose_gpr_seed` of src/bme_core.cpp: one general-purpose register from the text of its slices.
pub mod Merge
pub mod Slices
use Prim.Native.Nat.{bit_and, bit_or}
use bme.Base.{ℕ, ◌-◌, ◌^◌, List, [], ◌∷◌, ◌++◌, if◌then◌else◌, Result, ok, err}
use bme.Base.Words.{u64, not64, ◌<<<◌}
use bme.Text.{Text, is_empty}
use bme.Seed.{SeedError, parse_seed}

pub record GprSeed : Type 0 where
  pub full : Text
  pub dword : Text
  pub word : Text
  pub byte_high : Text
  pub byte_low : Text

abbrev pub empty_gpr_seed : GprSeed
empty_gpr_seed = record { full = []; dword = []; word = []; byte_high = []; byte_low = [] }

-- An error, behind `{label}: ` or alone.
pub data ErrorLine : Type 0 where
  labelled : Text → SeedError → ErrorLine
  bare : SeedError → ErrorLine

abbrev pub Errors : Type 0
Errors = List ErrorLine

-- `result = (result & ~mask) | (*value << shift & mask)`
unfoldable pub merge : ℕ → ℕ → ℕ → ℕ → ℕ
merge mask shift value result =
    bit_or (bit_and result (not64 mask)) (bit_and (u64 (value <<< shift)) mask)

-- The lambda `overlay`, over the register and the errors that it captures.
unfoldable pub overlay : Text → Text → ℕ → ℕ → ℕ × Errors → ℕ × Errors
overlay label text mask shift (result, errors) =
    if is_empty text then (result, errors) else elim (parse_seed text) [
      | ok value ↦ (merge mask shift value result, errors)
      | err e ↦ (result, errors ++ labelled label e ∷ [])
    ]

unfoldable pub compose_gpr_seed : GprSeed → Text → Errors → ℕ × Errors
compose_gpr_seed seed label errors =
    let after_full = overlay label seed.full (2 ^ 64 - 1) 0 (0, errors) in
    let after_dword = overlay label seed.dword 0xFFFF_FFFF 0 after_full in
    let after_word = overlay label seed.word 0xFFFF 0 after_dword in
    let after_high = overlay label seed.byte_high 0xFF00 8 after_word in
    overlay label seed.byte_low 0xFF 0 after_high
