-- ===== src/Seed/Compose.antt =====
-- `compose_seed` of src/bme_core.cpp: the registers that a run starts with, from the seed texts.
pub mod NoErrors
pub mod Tags
use Prim.Native.Nat.{bit_or}
use bme.Base.{ℕ, ◌+◌, Option, List, [], ◌∷◌, ◌++◌, if◌then◌else◌, replicate, Result, ok, err}
use bme.Base.Words.{u8, ◌<<<◌}
use bme.Text.{Text, codes, is_empty}
use bme.Seed.{
  SeedError, Floats, default_mxcsr, parse_mxcsr_seed, parse_fpu_control_word_seed, compose_xmm_seed,
  compose_st_seed,
}
use bme.Seed.Gpr.{GprSeed, Errors, labelled, bare, compose_gpr_seed}
use bme.Seed.Names.{reg_names, decimal}

abbrev pub default_fpu_control_word : ℕ
default_fpu_control_word = 0x037F

pub record Registers : Type 0 where
  pub gpr : List ℕ
  pub rip : ℕ
  pub rflags : ℕ
  pub xmm : List (ℕ × ℕ)
  pub mxcsr : ℕ
  pub st : List (List ℕ)
  pub fpu_control_word : ℕ
  pub fpu_status_word : ℕ
  pub fpu_tag_word_abridged : ℕ

pub record FloatingEnvironmentSeed : Type 0 where
  pub mxcsr : Text
  pub fpu_control_word : Text

-- One of the two control words: its default, or what its text says.
unfoldable pub compose_control : (Text → Result ℕ SeedError) → ℕ → Text → Errors → ℕ × Errors
compose_control parse default text errors =
    if is_empty text
    then (default, errors)
    else elim (parse text) [ ok value ↦ (value, errors) | err e ↦ (default, errors ++ bare e ∷ []) ]

-- The loop over the registers and their names.
unfoldable pub compose_gprs : List Text → List GprSeed → Errors → List ℕ × Errors
compose_gprs (name ∷ names) (seed ∷ seeds) errors =
    let (value, errors') = compose_gpr_seed seed name errors in
    let (values, errors'') = compose_gprs names seeds errors' in (value ∷ values, errors'')
compose_gprs _ _ errors = ([], errors)

module _ (f : Floats) where
  -- The loop over the XMM registers, at the register `i`.
  unfoldable pub compose_xmms : ℕ → List Text → Errors → List (ℕ × ℕ) × Errors
  compose_xmms i [] errors = ([], errors)
  compose_xmms i (text ∷ texts) errors =
      let (value, errors') : (ℕ × ℕ) × Errors = elim (compose_xmm_seed f text) [
        | ok value ↦ (value, errors)
        | err e ↦ ((0, 0), errors ++ labelled (codes "XMM" ++ decimal i) e ∷ [])
      ] in
      let (values, errors'') = compose_xmms (i + 1) texts errors' in (value ∷ values, errors'')

  -- One x87 register: its bytes, the tag word and the errors after it.
  unfoldable pub compose_st : ℕ → Text → ℕ → Errors → List ℕ × ℕ × Errors
  compose_st i text tags errors =
      if is_empty text then (replicate 10 0, tags, errors) else elim (compose_st_seed f text) [
        | ok value ↦ (value, bit_or tags (u8 (1 <<< i)), errors)
        | err e ↦ (replicate 10 0, tags, errors ++ labelled (codes "ST" ++ decimal i) e ∷ [])
      ]

  -- The loop over the x87 registers, at the register `i`.
  unfoldable pub compose_sts : ℕ → List Text → ℕ → Errors → List (List ℕ) × ℕ × Errors
  unfolding compose_st
  compose_sts i [] tags errors = ([], tags, errors)
  compose_sts i (text ∷ texts) tags errors =
      let (value, tags', errors') = compose_st i text tags errors in
      let (values, tags'', errors'') = compose_sts (i + 1) texts tags' errors' in
      (value ∷ values, tags'', errors'')

  unfoldable pub compose_seed :
      List GprSeed
      → ℕ
      → List Text
      → List Text
      → FloatingEnvironmentSeed
      → Errors
      → Registers × Errors
  compose_seed gpr flags xmm st environment errors =
      let (mxcsr, errors1) =
        compose_control parse_mxcsr_seed default_mxcsr environment.mxcsr errors in
      let (control, errors2) =
        compose_control parse_fpu_control_word_seed default_fpu_control_word
          environment.fpu_control_word errors1 in
      let (gprs, errors3) = compose_gprs reg_names gpr errors2 in
      let (xmms, errors4) = compose_xmms 0 xmm errors3 in
      let (sts, tags, errors5) = compose_sts 0 st 0 errors4 in
      (
        record {
          gpr = gprs;
          rip = 0;
          rflags = flags;
          xmm = xmms;
          mxcsr = mxcsr;
          st = sts;
          fpu_control_word = control;
          fpu_status_word = 0;
          fpu_tag_word_abridged = tags;
        },
        errors5,
      )
