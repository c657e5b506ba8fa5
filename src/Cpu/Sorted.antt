-- ===== src/Cpu/Sorted.antt =====
-- The raw records of `query_cpu_fingerprint` in src/cpu.cpp.
use Prim.Native.Nat.{bit_or}
use bme.Base.{
  ℕ, zero, suc, ◌+◌, ◌*◌, ◌^◌, ◌≡◌, ◌≤◌, ◌<◌, refl, ◌⊎◌, inl, inr, Bool, true, false, ◌&&◌, List,
  [], ◌∷◌, ◌++◌, ltb, leb, min, if◌then◌else◌, All, All-append, All-map, arith, Bool-cases,
}
use bme.Cpu.Tables.{
  vendor_leaf, signature_leaf, structured_features_leaf, xstate_leaf, hypervisor_leaf,
  hypervisor_interface_leaf, extended_limit_leaf, extended_features_leaf, brand_first_leaf,
  brand_last_leaf, address_width_leaf, max_structured_feature_subleaf,
}
use bme.Cpu.{
  CpuidRecord, CpuQuerySource, CpuFingerprint, answer, has_bit, empty_fingerprint, query_and_record,
  signature_flag, query_vendor, query_signature, query_subleaves, query_structured,
  query_components, query_xstate, query_supported, xcr0_components, xss_components, query_interface,
  query_hypervisor, query_extended_limit, query_extended_features, query_leaves, query_brand,
  query_widths, decode_features, decode_enabled_xstate, query_cpu_fingerprint,
}

-- The order by leaf and subleaf.
abbrev pub IsBefore : CpuidRecord → CpuidRecord → Type 0
IsBefore r s = (r.leaf < s.leaf) ⊎ ((r.leaf ≡ s.leaf) × (r.subleaf < s.subleaf))

abbrev pub IsSorted : List CpuidRecord → Type 0
IsSorted [] = Unit
IsSorted (r ∷ rs) = All (IsBefore r) rs × IsSorted rs

abbrev key : ℕ → ℕ → ℕ
key leaf subleaf = leaf * 2 ^ 32 + subleaf

IsSorted-append :
    (rs : List CpuidRecord) (s : CpuidRecord)
    → IsSorted rs
    → All (λ r. IsBefore r s) rs
    → IsSorted (rs ++ s ∷ [])
IsSorted-append [] s sorted before = (tt, tt)
IsSorted-append (r ∷ rs) s sorted before = (
  All-append (IsBefore r) rs (s ∷ []) sorted.0 (before.0, tt),
  IsSorted-append rs s sorted.1 before.1,
)

key-IsBefore :
    (r s : CpuidRecord)
    → r.subleaf < 2 ^ 32
    → s.subleaf < 2 ^ 32
    → key r.leaf r.subleaf < key s.leaf s.subleaf
    → IsBefore r s
key-IsBefore r s r_small s_small less = elim (Bool-cases (ltb r.leaf s.leaf)) [
  | inl lower ↦ inl (ground arith)
  | inr not_lower ↦ inr (ground arith, ground arith)
]

module _ (source : CpuQuerySource) where
  -- The record is the source's answer to its leaf and subleaf.
  abbrev pub IsAnswer : CpuidRecord → Type 0
  IsAnswer r = r.registers ≡ source.cpuid r.leaf r.subleaf

  abbrev IsBelow : ℕ → CpuidRecord → Type 0
  IsBelow bound r = (key r.leaf r.subleaf < bound) × (r.subleaf < 2 ^ 32) × IsAnswer r

  -- Sorted answers, all below a bound.
  abbrev IsLog : ℕ → CpuFingerprint → Type 0
  IsLog bound f = IsSorted f.raw_cpuid × All (IsBelow bound) f.raw_cpuid

  IsLog-weaken : (b c : ℕ) (f : CpuFingerprint) → b ≤ c → IsLog b f → IsLog c f
  IsLog-weaken b c f le log = (
    log.0,
    All-map (IsBelow b) (IsBelow c) (λ r below. (omega (arith, below.0), below.1, below.2))
        f.raw_cpuid log.1,
  )

  query_and_record-IsLog :
      (bound leaf subleaf : ℕ) (f : CpuFingerprint)
      → bound ≤ key leaf subleaf
      → subleaf < 2 ^ 32
      → IsLog bound f
      → IsLog (key leaf subleaf + 1) (query_and_record source leaf subleaf f)
  unfolding query_and_record
  query_and_record-IsLog bound leaf subleaf f le small log =
      let s = answer source leaf subleaf in
      (
        IsSorted-append f.raw_cpuid s log.0 (
            All-map (IsBelow bound) (λ r. IsBefore r s)
              (λ r below. key-IsBefore r s below.1 small (omega (arith, below.0))) f.raw_cpuid
              log.1),
        All-append (IsBelow (key leaf subleaf + 1)) f.raw_cpuid (s ∷ [])
            (All-map (IsBelow bound) (IsBelow (key leaf subleaf + 1))
              (λ r below. (omega (arith, below.0), below.1, below.2)) f.raw_cpuid log.1)
            ((omega arith, small, refl), tt),
      )

  -- A stage that a test may skip.
  if-IsLog :
      (b c : ℕ) (test : Bool) (f g : CpuFingerprint)
      → b ≤ c
      → IsLog b f
      → IsLog c g
      → IsLog c (if test then g else f)
  if-IsLog b c true f g le before after = after
  if-IsLog b c false f g le before after = IsLog-weaken b c f le before

  query_and_record-step :
      (b c leaf subleaf : ℕ) (f : CpuFingerprint)
      → b ≤ key leaf subleaf
      → key leaf subleaf < c
      → subleaf < 2 ^ 32
      → IsLog b f
      → IsLog c (query_and_record source leaf subleaf f)
  query_and_record-step b c leaf subleaf f le above small log =
      IsLog-weaken (key leaf subleaf + 1) c (query_and_record source leaf subleaf f) (omega arith)
        (query_and_record-IsLog b leaf subleaf f le small log)

  query_subleaves-IsLog :
      (count leaf subleaf : ℕ) (f : CpuFingerprint)
      → subleaf + count < 2 ^ 32
      → IsLog (key leaf subleaf) f
      → IsLog (key leaf (subleaf + count)) (query_subleaves source count leaf subleaf f)
  unfolding query_subleaves
  query_subleaves-IsLog zero leaf subleaf f small log =
      IsLog-weaken (key leaf subleaf) (key leaf (subleaf + 0)) f (omega arith) log
  query_subleaves-IsLog (suc count) leaf subleaf f small log =
      let next = query_and_record source leaf subleaf f in
      let here =
        query_and_record-IsLog (key leaf subleaf) leaf subleaf f (omega arith) (omega arith) log in
      IsLog-weaken (key leaf (subleaf + 1 + count)) (key leaf (subleaf + suc count))
        (query_subleaves source count leaf (subleaf + 1) next) (omega arith)
        (query_subleaves-IsLog count leaf (subleaf + 1) next (omega arith)
          (IsLog-weaken (key leaf subleaf + 1) (key leaf (subleaf + 1)) next (omega arith) here))

  query_components-IsLog :
      (count subleaf supported : ℕ) (f : CpuFingerprint)
      → subleaf + count < 2 ^ 32
      → IsLog (key 0xD subleaf) f
      → IsLog (key 0xD (subleaf + count)) (query_components source count subleaf supported f)
  unfolding query_components
  query_components-IsLog zero subleaf supported f small log =
      IsLog-weaken (key 0xD subleaf) (key 0xD (subleaf + 0)) f (omega arith) log
  query_components-IsLog (suc count) subleaf supported f small log =
      let next =
        if has_bit supported subleaf then query_and_record source xstate_leaf subleaf f else f in
      IsLog-weaken (key 0xD (subleaf + 1 + count)) (key 0xD (subleaf + suc count))
        (query_components source count (subleaf + 1) supported next) (omega arith)
        (query_components-IsLog count (subleaf + 1) supported next (omega arith) (
          if-IsLog (key 0xD subleaf) (key 0xD (subleaf + 1)) (has_bit supported subleaf) f
            (query_and_record source xstate_leaf subleaf f) (omega arith) log
            (query_and_record-step (key 0xD subleaf) (key 0xD (subleaf + 1)) 0xD subleaf f
              (omega arith) (omega arith) (omega arith) log)))

  query_leaves-IsLog :
      (count leaf : ℕ) (f : CpuFingerprint)
      → IsLog (key leaf 0) f
      → IsLog (key (leaf + count) 0) (query_leaves source count leaf f)
  unfolding query_leaves
  query_leaves-IsLog zero leaf f log =
      IsLog-weaken (key leaf 0) (key (leaf + 0) 0) f (omega arith) log
  query_leaves-IsLog (suc count) leaf f log =
      let next = query_and_record source leaf 0 f in
      IsLog-weaken (key (leaf + 1 + count) 0) (key (leaf + suc count) 0)
        (query_leaves source count (leaf + 1) next) (omega arith)
        (query_leaves-IsLog count (leaf + 1) next (
          query_and_record-step (key leaf 0) (key (leaf + 1) 0) leaf 0 f (omega arith) (omega arith)
            (omega arith) log))

  vendor-IsLog : IsLog (key signature_leaf 0) (query_vendor source empty_fingerprint)
  unfolding query_vendor
  vendor-IsLog =
      query_and_record-step 0 (key signature_leaf 0) vendor_leaf 0 empty_fingerprint (omega arith)
        (omega arith) (omega arith) (tt, tt)

  signature-IsLog :
      (f : CpuFingerprint)
      → IsLog (key signature_leaf 0) f
      → IsLog (key structured_features_leaf 0) (query_signature source f)
  unfolding query_signature
  signature-IsLog f log =
      if-IsLog (key signature_leaf 0) (key structured_features_leaf 0)
        (leb signature_leaf f.maximum_basic_leaf) f _ (omega arith) log
        (query_and_record-step (key signature_leaf 0) (key structured_features_leaf 0)
          signature_leaf 0 f (omega arith) (omega arith) (omega arith) log)

  structured-IsLog :
      (f : CpuFingerprint)
      → IsLog (key structured_features_leaf 0) f
      → IsLog (key xstate_leaf 0) (query_structured source f)
  unfolding query_structured
  structured-IsLog f log =
      let leaf = structured_features_leaf in
      let count = min (source.cpuid leaf 0).eax max_structured_feature_subleaf in
      let first = query_and_record source leaf 0 f in
      if-IsLog (key leaf 0) (key xstate_leaf 0) (leb leaf f.maximum_basic_leaf) f
        (query_subleaves source count leaf 1 first) (omega arith) log
        (IsLog-weaken (key leaf (1 + count)) (key xstate_leaf 0)
          (query_subleaves source count leaf 1 first) (omega arith)
          (query_subleaves-IsLog count leaf 1 first (omega arith) (
            query_and_record-step (key leaf 0) (key leaf 1) leaf 0 f (omega arith) (omega arith)
              (omega arith) log)))

  xstate-IsLog :
      (xsave osxsave : Bool) (f : CpuFingerprint)
      → IsLog (key xstate_leaf 0) f
      → IsLog (key hypervisor_leaf 0) (query_xstate source xsave osxsave f)
  unfolding query_xstate
  xstate-IsLog xsave osxsave f log =
      let first = query_and_record source xstate_leaf 0 f in
      let supported = bit_or (xcr0_components source) (xss_components source) in
      let logged =
        query_and_record-step (key xstate_leaf 1) (key xstate_leaf 2) xstate_leaf 1 first
          (omega arith) (omega arith) (omega arith)
          (query_and_record-step (key xstate_leaf 0) (key xstate_leaf 1) xstate_leaf 0 f
            (omega arith) (omega arith) (omega arith) log) in
      if-IsLog (key xstate_leaf 0) (key hypervisor_leaf 0)
        (leb xstate_leaf f.maximum_basic_leaf && xsave) f _ (omega arith) log
        (IsLog-weaken (key xstate_leaf (2 + 62)) (key hypervisor_leaf 0)
          (query_components source 62 2 supported (query_supported source f)) (omega arith)
          (query_components-IsLog 62 2 supported (query_supported source f) (omega arith) logged))

  interface-IsLog :
      (limit : ℕ) (f : CpuFingerprint)
      → IsLog (key hypervisor_interface_leaf 0) f
      → IsLog (key extended_limit_leaf 0) (query_interface source limit f)
  unfolding query_interface
  interface-IsLog limit f log =
      if-IsLog (key hypervisor_interface_leaf 0) (key extended_limit_leaf 0)
        (leb hypervisor_interface_leaf limit) f _ (omega arith) log
        (query_and_record-step (key hypervisor_interface_leaf 0) (key extended_limit_leaf 0)
          hypervisor_interface_leaf 0 f (omega arith) (omega arith) (omega arith) log)

  hypervisor-IsLog :
      (f : CpuFingerprint)
      → IsLog (key hypervisor_leaf 0) f
      → IsLog (key extended_limit_leaf 0) (query_hypervisor source f)
  unfolding query_hypervisor
  hypervisor-IsLog f log =
      if-IsLog (key hypervisor_leaf 0) (key extended_limit_leaf 0) f.hypervisor_present f _
        (omega arith) log
        (interface-IsLog _ _ (
          query_and_record-step (key hypervisor_leaf 0) (key hypervisor_interface_leaf 0)
            hypervisor_leaf 0 f (omega arith) (omega arith) (omega arith) log))

  extended-IsLog :
      (f : CpuFingerprint)
      → IsLog (key extended_limit_leaf 0) f
      → IsLog
          (key brand_first_leaf 0)
          (query_extended_features source (query_extended_limit source f))
  unfolding query_extended_features query_extended_limit
  extended-IsLog f log =
      let limited =
        query_and_record-step (key extended_limit_leaf 0) (key extended_features_leaf 0)
          extended_limit_leaf 0 f (omega arith) (omega arith) (omega arith) log in
      let f' = query_extended_limit source f in
      if-IsLog (key extended_features_leaf 0) (key brand_first_leaf 0)
        (leb extended_features_leaf f'.maximum_extended_leaf) f'
        (query_and_record source extended_features_leaf 0 f') (omega arith) limited
        (query_and_record-step (key extended_features_leaf 0) (key brand_first_leaf 0)
          extended_features_leaf 0 f' (omega arith) (omega arith) (omega arith) limited)

  brand-IsLog :
      (f : CpuFingerprint)
      → IsLog (key brand_first_leaf 0) f
      → IsLog (key (brand_first_leaf + 3) 0) (query_brand source f)
  unfolding query_brand
  brand-IsLog f log =
      if-IsLog (key brand_first_leaf 0) (key (brand_first_leaf + 3) 0)
        (leb brand_last_leaf f.maximum_extended_leaf) f _ (omega arith) log
        (query_leaves-IsLog 3 brand_first_leaf f log)

  widths-IsLog :
      (f : CpuFingerprint)
      → IsLog (key (brand_first_leaf + 3) 0) f
      → IsLog (key address_width_leaf 1) (query_widths source f)
  unfolding query_widths
  widths-IsLog f log =
      if-IsLog (key (brand_first_leaf + 3) 0) (key address_width_leaf 1)
        (leb address_width_leaf f.maximum_extended_leaf) f _ (omega arith) log
        (query_and_record-step (key (brand_first_leaf + 3) 0) (key address_width_leaf 1)
          address_width_leaf 0 f (omega arith) (omega arith) (omega arith) log)

-- Whatever the query source answers, the raw records of the fingerprint are strictly sorted by leaf
-- and then by subleaf, so that no query is recorded twice, and each holds the answer that the source
-- gives for its leaf and subleaf.
pub query_cpu_fingerprint-IsSorted :
    (source : CpuQuerySource)
    → IsSorted (query_cpu_fingerprint source).raw_cpuid
      × All (IsAnswer source) (query_cpu_fingerprint source).raw_cpuid
unfolding query_cpu_fingerprint decode_features decode_enabled_xstate
query_cpu_fingerprint-IsSorted source =
    let first = query_vendor source empty_fingerprint in
    let signed = query_signature source first in
    let structured = query_structured source signed in
    let basic =
      query_xstate source (signature_flag source first 26) (signature_flag source first 27)
        structured in
    let hypervised = query_hypervisor source basic in
    let extended = query_extended_features source (query_extended_limit source hypervised) in
    let branded = query_brand source extended in
    let log = widths-IsLog source branded (
      brand-IsLog source extended (
        extended-IsLog source hypervised (
          hypervisor-IsLog source basic (
            xstate-IsLog source _ _ structured (
              structured-IsLog source signed
                (signature-IsLog source first (vendor-IsLog source))))))) in
    (
      log.0,
      All-map (IsBelow source (key address_width_leaf 1)) (IsAnswer source) (λ r below. below.2)
          (query_widths source branded).raw_cpuid log.1,
    )
