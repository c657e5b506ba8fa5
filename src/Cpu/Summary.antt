-- ===== src/Cpu/Summary.antt =====
-- `format_cpu_summary` of src/cpu.cpp.
use bme.Base.{ℕ, ◌||◌, Option, none, some, [], ◌++◌, if◌then◌else◌}
use bme.Text.{Text, codes, is_empty}
use bme.Cpu.{CpuFingerprint}
use bme.Engine.Address.{Fmt}

-- The details with a separator before what is added, where there is something before it.
abbrev add_detail : Text → Text → Text → Text
add_detail separator details detail =
    if is_empty details then detail else details ++ separator ++ detail

module _ (fmt : Fmt) where
  -- The lambda `append_identity`, where there is a value.
  abbrev append_identity : Text → Option ℕ → Text → Text
  append_identity name none details = details
  append_identity name (some value) details =
      add_detail (codes " ") details (name ++ codes " 0x" ++ fmt.hex 0 value)

  abbrev append_xcr0 : Option ℕ → Text → Text
  append_xcr0 none details = details
  append_xcr0 (some value) details =
      add_detail (codes ", ") details (codes "XCR0 0x" ++ fmt.hex 16 value)

  unfoldable pub format_cpu_summary : CpuFingerprint → Text
  format_cpu_summary fingerprint =
      let known = if is_empty fingerprint.brand then fingerprint.vendor else fingerprint.brand in
      let summary = if is_empty known then codes "Unknown" else known in
      let vendor =
        if is_empty fingerprint.brand || is_empty fingerprint.vendor
        then []
        else fingerprint.vendor in
      let identity = append_identity (codes "stepping") fingerprint.stepping (
        append_identity (codes "model") fingerprint.model
          (append_identity (codes "family") fingerprint.family vendor)) in
      let details = append_xcr0 fingerprint.xcr0 identity in
      if is_empty details
      then summary
      else if is_empty fingerprint.brand
      then summary ++ codes " " ++ details
      else summary ++ codes " (" ++ details ++ codes ")"
