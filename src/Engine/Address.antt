-- ===== src/Engine/Address.antt =====
-- `format_address_value` of src/bme_core.cpp: an address, as an offset of the region it is in.
use bme.Base.{
  ℕ, ◌+◌, ◌-◌, Bool, ◌&&◌, not, Option, none, some, ◌++◌, ltb, leb, ◌==◌, if◌then◌else◌, length,
}
use bme.Text.{Text, codes, is_empty}
use bme.Seed.Names.{rsp}
use bme.Trace.{Trace}
use bme.Platform.{
  PageSizes, scratch_stack_bytes, scratch_stack_headroom, scratch_data_bytes, scratch_data_base,
  gpr_at,
}

-- `fmt`: a number in decimal, and in upper-case hexadecimal of a width at least.
pub record Fmt : Type 0 where
  pub number : ℕ → Text
  pub hex : (width value : ℕ) → Text

unfoldable pub format_hex64_string : Fmt → ℕ → Text
format_hex64_string fmt value = codes "0x" ++ fmt.hex 16 value

abbrev or_else : Option Text → Option Text → Option Text
or_else none other = other
or_else (some text) other = some text

abbrev text_or : Option Text → Text → Text
text_or none other = other
text_or (some text) other = text

-- An offset above the start of a region of `size` bytes with a guard page above it.
unfoldable pub region_text : Fmt → Text → (offset size page_size : ℕ) → Option Text
region_text fmt name offset size page_size =
    if ltb offset size
    then some (name ++ fmt.hex 4 offset)
    else if offset == size
    then some (name ++ fmt.hex 4 offset ++ codes " (end, guard)")
    else if ltb offset (size + page_size)
    then some (name ++ fmt.hex 4 offset ++ codes " (guard)")
    else none

module _ (fmt : Fmt) (sizes : PageSizes) where
  unfoldable pub code_text : Trace → ℕ → Option Text
  code_text trace address =
      let code_base = trace.seed.rip in
      if not (code_base == 0) && not (is_empty trace.code) && leb code_base address
      then region_text fmt (codes "code+") (address - code_base) (length trace.code) sizes.page_size
      else none

  -- Below the stack pointer: what the stack leaves under the headroom, and a guard page.
  unfoldable pub stack_below_text : ℕ → Option Text
  stack_below_text offset =
      if leb offset (scratch_stack_bytes - scratch_stack_headroom)
      then some (codes "stack-" ++ fmt.hex 4 offset)
      else if leb offset (scratch_stack_bytes - scratch_stack_headroom + sizes.page_size)
      then some (codes "stack-" ++ fmt.hex 4 offset ++ codes " (guard)")
      else none

  unfoldable pub stack_text : Trace → ℕ → Option Text
  stack_text trace address =
      let stack_pointer = gpr_at trace.seed rsp in
      if stack_pointer == 0
      then none
      else if leb stack_pointer address
      then region_text fmt (codes "stack+") (address - stack_pointer) scratch_stack_headroom
          sizes.page_size
      else stack_below_text (stack_pointer - address)

  unfoldable pub data_text : ℕ → Option Text
  data_text address =
      let data_base = scratch_data_base sizes in
      if leb data_base address
      then region_text fmt (codes "data+") (address - data_base) scratch_data_bytes sizes.page_size
      else if leb (data_base - address) sizes.page_size
      then some (codes "data-" ++ fmt.hex 4 (data_base - address) ++ codes " (guard)")
      else none

  unfoldable pub format_address_value : Trace → ℕ → Bool → Text
  format_address_value trace address normalized =
      if normalized
      then text_or
          (or_else (code_text trace address)
            (or_else (stack_text trace address) (data_text address)))
          (format_hex64_string fmt address)
      else format_hex64_string fmt address
