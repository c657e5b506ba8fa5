-- ===== src/Cpu.antt =====
-- The CPU fingerprint of src/cpu.cpp and src/cpu.hpp, over the answers of a query source.
pub mod Summary
pub mod Tables
pub mod Sorted
pub mod Signature
use Prim.Native.Nat.{bit_and, bit_or}
use bme.Base.{
  ℕ, zero, suc, ◌+◌, ◌-◌, ◌*◌, ◌^◌, Bool, true, false, not, ◌&&◌, ◌||◌, Option, none, some, List,
  [], ◌∷◌, ◌++◌, ltb, leb, ◌==◌, min, if◌then◌else◌,
}
use bme.Base.Words.{u8, u32, u64, ◌<<<◌, ◌>>>◌}
use bme.Text.{Text, codes, text_eq, is_empty, ltrim, rtrim, trim}
use bme.Cpu.Tables.*

pub record CpuidRegisters : Type 0 where
  pub eax : ℕ
  pub ebx : ℕ
  pub ecx : ℕ
  pub edx : ℕ

-- The source that answers CPUID and XGETBV.
pub record CpuQuerySource : Type 0 where
  pub cpuid : ℕ → ℕ → CpuidRegisters
  pub xgetbv : ℕ → ℕ

pub record CpuidRecord : Type 0 where
  pub leaf : ℕ
  pub subleaf : ℕ
  pub registers : CpuidRegisters

-- Without the capture scope, which has one value, and the attribution flag, which is not written.
pub record CpuFingerprint : Type 0 where
  pub vendor : Text
  pub brand : Text
  pub family : Option ℕ
  pub model : Option ℕ
  pub stepping : Option ℕ
  pub maximum_basic_leaf : ℕ
  pub maximum_extended_leaf : ℕ
  pub physical_address_width : Option ℕ
  pub linear_address_width : Option ℕ
  pub hypervisor_present : Bool
  pub hypervisor_vendor : Text
  pub hypervisor_interface : Text
  pub features : List Text
  pub xcr0_supported : Option ℕ
  pub xss_supported : Option ℕ
  pub xcr0 : Option ℕ
  pub enabled_xstate : List Text
  pub raw_cpuid : List CpuidRecord

abbrev pub empty_fingerprint : CpuFingerprint
empty_fingerprint = record {
  vendor = [];
  brand = [];
  family = none;
  model = none;
  stepping = none;
  maximum_basic_leaf = 0;
  maximum_extended_leaf = 0;
  physical_address_width = none;
  linear_address_width = none;
  hypervisor_present = false;
  hypervisor_vendor = [];
  hypervisor_interface = [];
  features = [];
  xcr0_supported = none;
  xss_supported = none;
  xcr0 = none;
  enabled_xstate = [];
  raw_cpuid = [];
}

pub record CpuSignature : Type 0 where
  pub family : ℕ
  pub model : ℕ
  pub stepping : ℕ

abbrev cpuid_padding : ℕ → Bool
cpuid_padding c = c == 0 || c == b' '

unfoldable pub register_text : ℕ → Text
register_text value =
    bit_and value 0xFF
    ∷ bit_and (value >>> 8) 0xFF
    ∷ bit_and (value >>> 16) 0xFF
    ∷ bit_and (value >>> 24) 0xFF
    ∷ []

unfoldable pub brand_leaf : CpuidRegisters → Text
brand_leaf r =
    register_text r.eax ++ register_text r.ebx ++ register_text r.ecx ++ register_text r.edx

-- Whether a bit of a mask is set.
abbrev pub has_bit : ℕ → ℕ → Bool
has_bit value bit = not (bit_and value (1 <<< bit) == 0)

unfoldable pub decode_intel_signature : ℕ → CpuSignature
decode_intel_signature value =
    let base_family = bit_and (value >>> 8) 0xF in
    let base_model = bit_and (value >>> 4) 0xF in
    let extended_model = bit_and (value >>> 16) 0xF in
    let extended_family = bit_and (value >>> 20) 0xFF in
    record {
      family = if base_family == 0xF then base_family + extended_family else base_family;
      model =
          if base_family == 6 || base_family == 0xF
          then base_model + (extended_model <<< 4)
          else base_model;
      stepping = bit_and value 0xF;
    }

unfoldable pub decode_amd_signature : ℕ → CpuSignature
decode_amd_signature value =
    let base_family = bit_and (value >>> 8) 0xF in
    let base_model = bit_and (value >>> 4) 0xF in
    let extended_model = bit_and (value >>> 16) 0xF in
    let extended_family = bit_and (value >>> 20) 0xFF in
    record {
      family = if base_family == 0xF then base_family + extended_family else base_family;
      model = if base_family == 0xF then base_model + (extended_model <<< 4) else base_model;
      stepping = bit_and value 0xF;
    }

unfoldable pub find_record : List CpuidRecord → (leaf subleaf : ℕ) → Option CpuidRecord
find_record [] leaf subleaf = none
find_record (r ∷ rs) leaf subleaf =
    if r.leaf == leaf && r.subleaf == subleaf then some r else find_record rs leaf subleaf

unfoldable pub register_value : CpuidRecord → CpuidRegister → ℕ
register_value r CpuidRegister.eax = r.registers.eax
register_value r CpuidRegister.ebx = r.registers.ebx
register_value r CpuidRegister.ecx = r.registers.ecx
register_value r CpuidRegister.edx = r.registers.edx

unfoldable pub has_feature : List CpuidRecord → CpuidFeatureDefinition → Bool
has_feature records d = elim (find_record records d.leaf d.subleaf) [
  | none ↦ false
  | some r ↦ has_bit (register_value r d.reg) d.bit
]

-- The loop over the features, and the one over the state components.
unfoldable pub feature_names : List CpuidRecord → List CpuidFeatureDefinition → List Text
feature_names records [] = []
feature_names records (d ∷ ds) =
    let rest = feature_names records ds in if has_feature records d then d.name ∷ rest else rest

unfoldable pub component_names : ℕ → List (ℕ × Text) → List Text
component_names enabled [] = []
component_names enabled ((bit, name) ∷ others) =
    let rest = component_names enabled others in if has_bit enabled bit then name ∷ rest else rest

unfoldable pub decode_features : CpuFingerprint → CpuFingerprint
decode_features f = record f { features = f.features ++ feature_names f.raw_cpuid cpuid_features }

unfoldable pub enabled_components : Option ℕ → Option ℕ → List Text
enabled_components (some supported) (some xcr0) =
    component_names (bit_and supported xcr0) xstate_components
enabled_components _ _ = []

unfoldable pub decode_enabled_xstate : CpuFingerprint → CpuFingerprint
decode_enabled_xstate f = record f {
  enabled_xstate = f.enabled_xstate ++ enabled_components f.xcr0_supported f.xcr0;
}

unfoldable pub decode_signature : Text → ℕ → CpuSignature
decode_signature vendor value =
    if text_eq vendor (codes "AuthenticAMD") || text_eq vendor (codes "HygonGenuine")
    then decode_amd_signature value
    else decode_intel_signature value

module _ (source : CpuQuerySource) where
  -- The answer that `query_and_record` records.
  abbrev pub answer : ℕ → ℕ → CpuidRecord
  answer leaf subleaf = record {
    leaf = leaf;
    subleaf = subleaf;
    registers = source.cpuid leaf subleaf;
  }

  unfoldable pub query_and_record : ℕ → ℕ → CpuFingerprint → CpuFingerprint
  query_and_record leaf subleaf f = record f { raw_cpuid = f.raw_cpuid ++ answer leaf subleaf ∷ [] }

  unfoldable pub query_vendor : CpuFingerprint → CpuFingerprint
  query_vendor f =
      let r = source.cpuid vendor_leaf 0 in
      record (query_and_record vendor_leaf 0 f) {
        maximum_basic_leaf = r.eax;
        vendor =
            rtrim cpuid_padding
              (f.vendor ++ register_text r.ebx ++ register_text r.edx ++ register_text r.ecx);
      }

  unfoldable pub query_signature : CpuFingerprint → CpuFingerprint
  query_signature f =
      let r = source.cpuid signature_leaf 0 in
      let decoded = decode_signature f.vendor r.eax in
      if leb signature_leaf f.maximum_basic_leaf
      then record (query_and_record signature_leaf 0 f) {
        family = some decoded.family;
        model = some decoded.model;
        stepping = some decoded.stepping;
        hypervisor_present = has_bit r.ecx 31;
      }
      else f

  -- The two flags that the signature leaf sets.
  abbrev pub signature_flag : CpuFingerprint → ℕ → Bool
  signature_flag f bit =
      leb signature_leaf f.maximum_basic_leaf && has_bit (source.cpuid signature_leaf 0).ecx bit

  unfoldable pub query_subleaves : (count leaf subleaf : ℕ) → CpuFingerprint → CpuFingerprint
  query_subleaves zero leaf subleaf f = f
  query_subleaves (suc count) leaf subleaf f =
      query_subleaves count leaf (subleaf + 1) (query_and_record leaf subleaf f)

  unfoldable pub query_structured : CpuFingerprint → CpuFingerprint
  query_structured f =
      let r = source.cpuid structured_features_leaf 0 in
      if leb structured_features_leaf f.maximum_basic_leaf
      then query_subleaves (min r.eax max_structured_feature_subleaf) structured_features_leaf 1
          (query_and_record structured_features_leaf 0 f)
      else f

  -- The loop over the supported components.
  unfoldable pub query_components : (count subleaf supported : ℕ) → CpuFingerprint → CpuFingerprint
  query_components zero subleaf supported f = f
  query_components (suc count) subleaf supported f =
      query_components count (subleaf + 1) supported
        (if has_bit supported subleaf then query_and_record xstate_leaf subleaf f else f)

  -- The components that XCR0 and XSS may enable.
  abbrev pub xcr0_components : ℕ
  xcr0_components = let r = source.cpuid xstate_leaf 0 in bit_or (r.edx <<< 32) r.eax

  abbrev pub xss_components : ℕ
  xss_components = let r = source.cpuid xstate_leaf 1 in bit_or (r.edx <<< 32) r.ecx

  abbrev pub query_supported : CpuFingerprint → CpuFingerprint
  query_supported f = record (query_and_record xstate_leaf 1 (query_and_record xstate_leaf 0 f)) {
    xcr0_supported = some xcr0_components;
    xss_supported = some xss_components;
  }

  unfoldable pub query_xstate : (xsave osxsave : Bool) → CpuFingerprint → CpuFingerprint
  query_xstate xsave osxsave f =
      let listed =
        query_components 62 2 (bit_or xcr0_components xss_components) (query_supported f) in
      if leb xstate_leaf f.maximum_basic_leaf && xsave
      then record listed { xcr0 = if osxsave then some (source.xgetbv 0) else listed.xcr0 }
      else f

  unfoldable pub query_interface : ℕ → CpuFingerprint → CpuFingerprint
  query_interface limit f =
      let r = source.cpuid hypervisor_interface_leaf 0 in
      let named = rtrim cpuid_padding (f.hypervisor_interface ++ register_text r.eax) in
      if leb hypervisor_interface_leaf limit
      then record (query_and_record hypervisor_interface_leaf 0 f) {
        hypervisor_interface =
            if text_eq f.hypervisor_vendor (codes "Microsoft Hv")
            then named
            else f.hypervisor_interface;
      }
      else f

  unfoldable pub query_hypervisor : CpuFingerprint → CpuFingerprint
  query_hypervisor f =
      let r = source.cpuid hypervisor_leaf 0 in
      if f.hypervisor_present
      then query_interface r.eax (record (query_and_record hypervisor_leaf 0 f) {
        hypervisor_vendor = rtrim cpuid_padding (
            f.hypervisor_vendor
            ++ register_text r.ebx
            ++ register_text r.ecx
            ++ register_text r.edx);
      })
      else f

  unfoldable pub query_extended_limit : CpuFingerprint → CpuFingerprint
  query_extended_limit f = record (query_and_record extended_limit_leaf 0 f) {
    maximum_extended_leaf = (source.cpuid extended_limit_leaf 0).eax;
  }

  unfoldable pub query_extended_features : CpuFingerprint → CpuFingerprint
  query_extended_features f =
      if leb extended_features_leaf f.maximum_extended_leaf
      then query_and_record extended_features_leaf 0 f
      else f

  -- The text of `count` brand leaves, and the records of them.
  unfoldable pub brand_text : (count leaf : ℕ) → Text
  brand_text zero leaf = []
  brand_text (suc count) leaf = brand_leaf (source.cpuid leaf 0) ++ brand_text count (leaf + 1)

  unfoldable pub query_leaves : (count leaf : ℕ) → CpuFingerprint → CpuFingerprint
  query_leaves zero leaf f = f
  query_leaves (suc count) leaf f = query_leaves count (leaf + 1) (query_and_record leaf 0 f)

  unfoldable pub query_brand : CpuFingerprint → CpuFingerprint
  query_brand f =
      if leb brand_last_leaf f.maximum_extended_leaf
      then record (query_leaves 3 brand_first_leaf f) {
        brand = trim cpuid_padding (brand_text 3 brand_first_leaf);
      }
      else f

  unfoldable pub query_widths : CpuFingerprint → CpuFingerprint
  query_widths f =
      let r = source.cpuid address_width_leaf 0 in
      if leb address_width_leaf f.maximum_extended_leaf
      then record (query_and_record address_width_leaf 0 f) {
        physical_address_width = some (bit_and r.eax 0xFF);
        linear_address_width = some (bit_and (r.eax >>> 8) 0xFF);
      }
      else f

  unfoldable pub query_cpu_fingerprint : CpuFingerprint
  query_cpu_fingerprint =
      let with_vendor = query_vendor empty_fingerprint in
      let xsave = signature_flag with_vendor 26 in
      let osxsave = signature_flag with_vendor 27 in
      let with_signature = query_signature with_vendor in
      let basic = query_xstate xsave osxsave (query_structured with_signature) in
      let hypervised = query_hypervisor basic in
      let extended = query_extended_features (query_extended_limit hypervised) in
      decode_enabled_xstate (decode_features (query_widths (query_brand extended)))
