-- ===== src/Cpu/Signature.antt =====
-- The signature decoders of src/cpu.cpp against the fields of CPUID leaf 1.
use Prim.Native.Nat.{bit_and}
use bme.Base.{
  if-cases, ℕ, ◌+◌, ◌*◌, ◌≡◌, ◌≢◌, ◌<◌, ◌⊎◌, inl, inr, true, false, ◌||◌, refl, sym, arith,
  Bool-cases,
}
use bme.Base.Words.{◌>>>◌}
use bme.Base.Bits.{bit_and_mask}
use bme.Text.{Text, codes, text_eq}
use bme.CommandLine.Track.{text_eq_sound}
use bme.Cpu.{CpuSignature, decode_intel_signature, decode_amd_signature, decode_signature}

-- The fields of EAX of leaf 1; `reserved` is bits 28 and up, and `processor_type` bits 12 to 15.
pub record SignatureFields : Type 0 where
  pub stepping_id : ℕ
  pub base_model : ℕ
  pub base_family : ℕ
  pub processor_type : ℕ
  pub extended_model : ℕ
  pub extended_family : ℕ
  pub reserved : ℕ

-- Each field has its width.
pub record IsFielded (s : SignatureFields) : Type 0 where
  pub stepping_fits : s.stepping_id < 16
  pub model_fits : s.base_model < 16
  pub family_fits : s.base_family < 16
  pub type_fits : s.processor_type < 16
  pub extended_model_fits : s.extended_model < 16
  pub extended_family_fits : s.extended_family < 256

abbrev pub packed : SignatureFields → ℕ
packed s =
    s.stepping_id
    + 0x10 * s.base_model
    + 0x100 * s.base_family
    + 0x1000 * s.processor_type
    + 0x1_0000 * s.extended_model
    + 0x10_0000 * s.extended_family
    + 0x1000_0000 * s.reserved

-- The vendors whose processors of base family 6 do not extend their model.
abbrev pub IsAmd : Text → Type 0
IsAmd vendor = (vendor ≡ codes "AuthenticAMD") ⊎ (vendor ≡ codes "HygonGenuine")

-- What a decoded signature is, by the fields and the vendor.
pub record IsIdentified (vendor : Text) (s : SignatureFields) (d : CpuSignature) : Type 0 where
  pub stepping_told : d.stepping ≡ s.stepping_id
  pub family_basic : s.base_family ≢ 15 → d.family ≡ s.base_family
  pub family_extended : s.base_family ≡ 15 → d.family ≡ 15 + s.extended_family
  pub model_basic : s.base_family ≢ 6 → s.base_family ≢ 15 → d.model ≡ s.base_model
  pub model_extended : s.base_family ≡ 15 → d.model ≡ 16 * s.extended_model + s.base_model
  pub model_of_six :
      s.base_family ≡ 6 → (IsAmd vendor → ⊥) → d.model ≡ 16 * s.extended_model + s.base_model
  pub model_of_amd_six : s.base_family ≡ 6 → IsAmd vendor → d.model ≡ s.base_model

text_eq-IsAmd :
    (vendor : Text)
    → (text_eq vendor (codes "AuthenticAMD") || text_eq vendor (codes "HygonGenuine")) ≡ true
    → IsAmd vendor
text_eq-IsAmd vendor e = elim (Bool-cases (text_eq vendor (codes "AuthenticAMD"))) [
  | inl amd ↦ inl (sym (text_eq_sound vendor (codes "AuthenticAMD") amd))
  | inr other ↦ inr (sym (text_eq_sound vendor (codes "HygonGenuine") (ground arith)))
]

text_eq-not_IsAmd :
    (vendor : Text)
    → (text_eq vendor (codes "AuthenticAMD") || text_eq vendor (codes "HygonGenuine")) ≡ false
    → IsAmd vendor
    → ⊥
unfolding text_eq
text_eq-not_IsAmd vendor e (inl amd) = let e' : true ≡ false = rw (amd) at e in cc
text_eq-not_IsAmd vendor e (inr hygon) = let e' : true ≡ false = rw (hygon) at e in cc

module _ (s : SignatureFields) (widths : IsFielded s) where
  field_lem :
      (bit_and (packed s) 0xF ≡ s.stepping_id)
      × (bit_and (packed s >>> 4) 0xF ≡ s.base_model)
      × (bit_and (packed s >>> 8) 0xF ≡ s.base_family)
      × (bit_and (packed s >>> 16) 0xF ≡ s.extended_model)
      × (bit_and (packed s >>> 20) 0xFF ≡ s.extended_family)
  field_lem = (
    omega (arith, bit_and_mask 4 (packed s)),
    omega (arith, bit_and_mask 4 (packed s >>> 4)),
    omega (arith, bit_and_mask 4 (packed s >>> 8)),
    omega (arith, bit_and_mask 4 (packed s >>> 16)),
    omega (arith, bit_and_mask 8 (packed s >>> 20)),
  )

  decode_amd_signature-IsIdentified :
      (vendor : Text) → IsAmd vendor → IsIdentified vendor s (decode_amd_signature (packed s))
  unfolding decode_amd_signature
  decode_amd_signature-IsIdentified vendor amd =
      let (stepping, model, family, extended_model, extended_family) = field_lem in
      rw (stepping, model, family, extended_model, extended_family)
        (record {
          stepping_told = refl;
          family_basic = λ e. ground arith;
          family_extended = λ e. ground arith;
          model_basic = λ e e'. ground arith;
          model_extended = λ e. ground arith;
          model_of_six = λ e other. absurd (other amd);
          model_of_amd_six = λ e amd'. ground arith;
        })

  decode_intel_signature-IsIdentified :
      (vendor : Text)
      → (IsAmd vendor → ⊥)
      → IsIdentified vendor s (decode_intel_signature (packed s))
  unfolding decode_intel_signature
  decode_intel_signature-IsIdentified vendor other =
      let (stepping, model, family, extended_model, extended_family) = field_lem in
      rw (stepping, model, family, extended_model, extended_family)
        (record {
          stepping_told = refl;
          family_basic = λ e. ground arith;
          family_extended = λ e. ground arith;
          model_basic = λ e e'. ground arith;
          model_extended = λ e. ground arith;
          model_of_six = λ e other'. ground arith;
          model_of_amd_six = λ e amd. absurd (other amd);
        })

  -- Of a signature with fields of their widths, whatever its upper bits are, the decoder chosen by the
  -- vendor tells the stepping; the base family, and for 15 that and the extended family; and the base
  -- model, with the extended model above it for the base family 15, and for 6 exactly if the vendor is
  -- neither AMD nor Hygon.
  pub decode_signature-IsIdentified :
      (vendor : Text) → IsIdentified vendor s (decode_signature vendor (packed s))
  unfolding decode_signature
  decode_signature-IsIdentified vendor =
      if-cases (IsIdentified vendor s)
        (text_eq vendor (codes "AuthenticAMD") || text_eq vendor (codes "HygonGenuine")) _ _
        (λ e. decode_amd_signature-IsIdentified vendor (text_eq-IsAmd vendor e))
        (λ e. decode_intel_signature-IsIdentified vendor (text_eq-not_IsAmd vendor e))
