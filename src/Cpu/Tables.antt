-- ===== src/Cpu/Tables.antt =====
-- The tables of src/cpu.cpp: CPUID leaves, features and XSTATE components.
use bme.Base.{ℕ, List, [], ◌∷◌}
use bme.Text.{Text, codes}

abbrev pub vendor_leaf : ℕ
vendor_leaf = 0

abbrev pub signature_leaf : ℕ
signature_leaf = 1

abbrev pub structured_features_leaf : ℕ
structured_features_leaf = 7

abbrev pub xstate_leaf : ℕ
xstate_leaf = 0xD

abbrev pub hypervisor_leaf : ℕ
hypervisor_leaf = 0x4000_0000

abbrev pub hypervisor_interface_leaf : ℕ
hypervisor_interface_leaf = 0x4000_0001

abbrev pub extended_limit_leaf : ℕ
extended_limit_leaf = 0x8000_0000

abbrev pub extended_features_leaf : ℕ
extended_features_leaf = 0x8000_0001

abbrev pub brand_first_leaf : ℕ
brand_first_leaf = 0x8000_0002

abbrev pub brand_last_leaf : ℕ
brand_last_leaf = 0x8000_0004

abbrev pub address_width_leaf : ℕ
address_width_leaf = 0x8000_0008

abbrev pub max_structured_feature_subleaf : ℕ
max_structured_feature_subleaf = 128

pub data CpuidRegister : Type 0 where
  eax : CpuidRegister
  ebx : CpuidRegister
  ecx : CpuidRegister
  edx : CpuidRegister

pub record CpuidFeatureDefinition : Type 0 where
  pub leaf : ℕ
  pub subleaf : ℕ
  pub reg : CpuidRegister
  pub bit : ℕ
  pub name : Text

abbrev feature : ℕ → ℕ → CpuidRegister → ℕ → Text → CpuidFeatureDefinition
feature leaf subleaf reg bit name = record {
  leaf = leaf;
  subleaf = subleaf;
  reg = reg;
  bit = bit;
  name = name;
}

abbrev pub cpuid_features : List CpuidFeatureDefinition
cpuid_features =
    feature signature_leaf 0 edx 0 (codes "fpu")
    ∷ feature signature_leaf 0 edx 4 (codes "tsc")
    ∷ feature signature_leaf 0 edx 5 (codes "msr")
    ∷ feature signature_leaf 0 edx 6 (codes "pae")
    ∷ feature signature_leaf 0 edx 8 (codes "cx8")
    ∷ feature signature_leaf 0 edx 9 (codes "apic")
    ∷ feature signature_leaf 0 edx 11 (codes "sep")
    ∷ feature signature_leaf 0 edx 12 (codes "mtrr")
    ∷ feature signature_leaf 0 edx 13 (codes "pge")
    ∷ feature signature_leaf 0 edx 15 (codes "cmov")
    ∷ feature signature_leaf 0 edx 19 (codes "clfsh")
    ∷ feature signature_leaf 0 edx 23 (codes "mmx")
    ∷ feature signature_leaf 0 edx 24 (codes "fxsr")
    ∷ feature signature_leaf 0 edx 25 (codes "sse")
    ∷ feature signature_leaf 0 edx 26 (codes "sse2")
    ∷ feature signature_leaf 0 edx 28 (codes "htt")
    ∷ feature signature_leaf 0 ecx 0 (codes "sse3")
    ∷ feature signature_leaf 0 ecx 1 (codes "pclmulqdq")
    ∷ feature signature_leaf 0 ecx 3 (codes "monitor")
    ∷ feature signature_leaf 0 ecx 5 (codes "vmx")
    ∷ feature signature_leaf 0 ecx 6 (codes "smx")
    ∷ feature signature_leaf 0 ecx 9 (codes "ssse3")
    ∷ feature signature_leaf 0 ecx 12 (codes "fma")
    ∷ feature signature_leaf 0 ecx 13 (codes "cx16")
    ∷ feature signature_leaf 0 ecx 17 (codes "pcid")
    ∷ feature signature_leaf 0 ecx 19 (codes "sse4_1")
    ∷ feature signature_leaf 0 ecx 20 (codes "sse4_2")
    ∷ feature signature_leaf 0 ecx 21 (codes "x2apic")
    ∷ feature signature_leaf 0 ecx 22 (codes "movbe")
    ∷ feature signature_leaf 0 ecx 23 (codes "popcnt")
    ∷ feature signature_leaf 0 ecx 24 (codes "tsc_deadline")
    ∷ feature signature_leaf 0 ecx 25 (codes "aes")
    ∷ feature signature_leaf 0 ecx 26 (codes "xsave")
    ∷ feature signature_leaf 0 ecx 27 (codes "osxsave")
    ∷ feature signature_leaf 0 ecx 28 (codes "avx")
    ∷ feature signature_leaf 0 ecx 29 (codes "f16c")
    ∷ feature signature_leaf 0 ecx 30 (codes "rdrand")
    ∷ feature signature_leaf 0 ecx 31 (codes "hypervisor")
    ∷ feature structured_features_leaf 0 ebx 0 (codes "fsgsbase")
    ∷ feature structured_features_leaf 0 ebx 2 (codes "sgx")
    ∷ feature structured_features_leaf 0 ebx 3 (codes "bmi1")
    ∷ feature structured_features_leaf 0 ebx 4 (codes "hle")
    ∷ feature structured_features_leaf 0 ebx 5 (codes "avx2")
    ∷ feature structured_features_leaf 0 ebx 7 (codes "smep")
    ∷ feature structured_features_leaf 0 ebx 8 (codes "bmi2")
    ∷ feature structured_features_leaf 0 ebx 9 (codes "erms")
    ∷ feature structured_features_leaf 0 ebx 10 (codes "invpcid")
    ∷ feature structured_features_leaf 0 ebx 11 (codes "rtm")
    ∷ feature structured_features_leaf 0 ebx 14 (codes "mpx")
    ∷ feature structured_features_leaf 0 ebx 16 (codes "avx512f")
    ∷ feature structured_features_leaf 0 ebx 17 (codes "avx512dq")
    ∷ feature structured_features_leaf 0 ebx 18 (codes "rdseed")
    ∷ feature structured_features_leaf 0 ebx 19 (codes "adx")
    ∷ feature structured_features_leaf 0 ebx 20 (codes "smap")
    ∷ feature structured_features_leaf 0 ebx 21 (codes "avx512_ifma")
    ∷ feature structured_features_leaf 0 ebx 23 (codes "clflushopt")
    ∷ feature structured_features_leaf 0 ebx 24 (codes "clwb")
    ∷ feature structured_features_leaf 0 ebx 25 (codes "intel_pt")
    ∷ feature structured_features_leaf 0 ebx 28 (codes "avx512cd")
    ∷ feature structured_features_leaf 0 ebx 29 (codes "sha")
    ∷ feature structured_features_leaf 0 ebx 30 (codes "avx512bw")
    ∷ feature structured_features_leaf 0 ebx 31 (codes "avx512vl")
    ∷ feature structured_features_leaf 0 ecx 1 (codes "avx512_vbmi")
    ∷ feature structured_features_leaf 0 ecx 2 (codes "umip")
    ∷ feature structured_features_leaf 0 ecx 3 (codes "pku")
    ∷ feature structured_features_leaf 0 ecx 4 (codes "ospke")
    ∷ feature structured_features_leaf 0 ecx 5 (codes "waitpkg")
    ∷ feature structured_features_leaf 0 ecx 6 (codes "avx512_vbmi2")
    ∷ feature structured_features_leaf 0 ecx 7 (codes "cet_ss")
    ∷ feature structured_features_leaf 0 ecx 8 (codes "gfni")
    ∷ feature structured_features_leaf 0 ecx 9 (codes "vaes")
    ∷ feature structured_features_leaf 0 ecx 10 (codes "vpclmulqdq")
    ∷ feature structured_features_leaf 0 ecx 11 (codes "avx512_vnni")
    ∷ feature structured_features_leaf 0 ecx 12 (codes "avx512_bitalg")
    ∷ feature structured_features_leaf 0 ecx 14 (codes "avx512_vpopcntdq")
    ∷ feature structured_features_leaf 0 ecx 16 (codes "la57")
    ∷ feature structured_features_leaf 0 ecx 22 (codes "rdpid")
    ∷ feature structured_features_leaf 0 ecx 25 (codes "cldemote")
    ∷ feature structured_features_leaf 0 ecx 27 (codes "movdiri")
    ∷ feature structured_features_leaf 0 ecx 28 (codes "movdir64b")
    ∷ feature structured_features_leaf 0 ecx 29 (codes "enqcmd")
    ∷ feature structured_features_leaf 0 ecx 30 (codes "sgx_lc")
    ∷ feature structured_features_leaf 0 ecx 31 (codes "pks")
    ∷ feature structured_features_leaf 0 edx 4 (codes "fsrm")
    ∷ feature structured_features_leaf 0 edx 5 (codes "uintr")
    ∷ feature structured_features_leaf 0 edx 8 (codes "avx512_vp2intersect")
    ∷ feature structured_features_leaf 0 edx 10 (codes "md_clear")
    ∷ feature structured_features_leaf 0 edx 14 (codes "serialize")
    ∷ feature structured_features_leaf 0 edx 15 (codes "hybrid")
    ∷ feature structured_features_leaf 0 edx 16 (codes "tsxldtrk")
    ∷ feature structured_features_leaf 0 edx 18 (codes "pconfig")
    ∷ feature structured_features_leaf 0 edx 20 (codes "cet_ibt")
    ∷ feature structured_features_leaf 0 edx 22 (codes "amx_bf16")
    ∷ feature structured_features_leaf 0 edx 23 (codes "avx512_fp16")
    ∷ feature structured_features_leaf 0 edx 24 (codes "amx_tile")
    ∷ feature structured_features_leaf 0 edx 25 (codes "amx_int8")
    ∷ feature structured_features_leaf 0 edx 26 (codes "ibrs_ibpb")
    ∷ feature structured_features_leaf 0 edx 27 (codes "stibp")
    ∷ feature structured_features_leaf 0 edx 28 (codes "l1d_flush")
    ∷ feature structured_features_leaf 0 edx 29 (codes "ia32_arch_capabilities")
    ∷ feature structured_features_leaf 0 edx 30 (codes "ia32_core_capabilities")
    ∷ feature structured_features_leaf 0 edx 31 (codes "ssbd")
    ∷ feature extended_features_leaf 0 ecx 0 (codes "lahf_lm")
    ∷ feature extended_features_leaf 0 ecx 2 (codes "svm")
    ∷ feature extended_features_leaf 0 ecx 5 (codes "abm")
    ∷ feature extended_features_leaf 0 ecx 6 (codes "sse4a")
    ∷ feature extended_features_leaf 0 ecx 8 (codes "prefetchw")
    ∷ feature extended_features_leaf 0 ecx 11 (codes "xop")
    ∷ feature extended_features_leaf 0 ecx 16 (codes "fma4")
    ∷ feature extended_features_leaf 0 ecx 21 (codes "tbm")
    ∷ feature extended_features_leaf 0 ecx 22 (codes "topoext")
    ∷ feature extended_features_leaf 0 edx 11 (codes "syscall")
    ∷ feature extended_features_leaf 0 edx 20 (codes "nx")
    ∷ feature extended_features_leaf 0 edx 22 (codes "mmxext")
    ∷ feature extended_features_leaf 0 edx 25 (codes "fxsr_opt")
    ∷ feature extended_features_leaf 0 edx 26 (codes "pdpe1gb")
    ∷ feature extended_features_leaf 0 edx 27 (codes "rdtscp")
    ∷ feature extended_features_leaf 0 edx 29 (codes "long_mode")
    ∷ feature extended_features_leaf 0 edx 30 (codes "3dnowext")
    ∷ feature extended_features_leaf 0 edx 31 (codes "3dnow")
    ∷ []

-- A state component's bit and its name.
abbrev pub xstate_components : List (ℕ × Text)
xstate_components =
    (0, codes "x87")
    ∷ (1, codes "sse")
    ∷ (2, codes "avx")
    ∷ (3, codes "mpx_bndregs")
    ∷ (4, codes "mpx_bndcsr")
    ∷ (5, codes "avx512_opmask")
    ∷ (6, codes "avx512_zmm_hi256")
    ∷ (7, codes "avx512_hi16_zmm")
    ∷ (8, codes "processor_trace")
    ∷ (9, codes "pkru")
    ∷ (10, codes "pasid")
    ∷ (11, codes "cet_user")
    ∷ (12, codes "cet_supervisor")
    ∷ (13, codes "hdc")
    ∷ (14, codes "uintr")
    ∷ (15, codes "lbr")
    ∷ (16, codes "hwp")
    ∷ (17, codes "amx_tilecfg")
    ∷ (18, codes "amx_tiledata")
    ∷ (19, codes "apx")
    ∷ []
