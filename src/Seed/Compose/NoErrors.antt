-- ===== src/Seed/Compose/NoErrors.antt =====
-- `compose_seed` reports nothing on seeds whose texts all read.
use mathlib.Core.List.{append-nil}
use bme.Base.{ℕ, ◌+◌, ◌≡◌, refl, ◌∙◌, List, [], ◌∷◌, arith, All, Result}
use bme.Text.{Text}
use bme.Seed.{
  SeedError, Floats, default_mxcsr, parse_seed, parse_mxcsr_seed, parse_fpu_control_word_seed,
  compose_xmm_seed, compose_st_seed,
}
use bme.Seed.Gpr.{GprSeed, Errors, compose_gpr_seed}
use bme.Seed.Gpr.Slices.{slice_errors, compose_gpr_seed_lem}
use bme.Seed.Names.{reg_names}
use bme.Seed.Compose.{
  default_fpu_control_word, compose_control, compose_gprs, compose_xmms, compose_st, compose_sts,
  compose_seed,
}
use bme.Seed.Cli.{Seeds}
use bme.Seed.Cli.Readable.{Reads, IsReadableGpr, IsReadable}

slice_errors-eq-nil : (label text : Text) → Reads (parse_seed text) → slice_errors label text ≡ []
slice_errors-eq-nil label text r = ground arith

compose_gpr_seed-no_errors :
    (seed : GprSeed) (label : Text) (errors : Errors)
    → IsReadableGpr seed
    → (compose_gpr_seed seed label errors).1 ≡ errors
compose_gpr_seed-no_errors seed label errors r =
    (compose_gpr_seed_lem seed label errors).1
    ∙ rw
        (
          slice_errors-eq-nil label seed.full r.full_reads,
          slice_errors-eq-nil label seed.dword r.dword_reads,
          slice_errors-eq-nil label seed.word r.word_reads,
          slice_errors-eq-nil label seed.byte_high r.high_reads,
          slice_errors-eq-nil label seed.byte_low r.low_reads,
        )
        (append-nil errors)

compose_control-no_errors :
    (parse : Text → Result ℕ SeedError) (default : ℕ) (text : Text) (errors : Errors)
    → Reads (parse text)
    → (compose_control parse default text errors).1 ≡ errors
unfolding compose_control
compose_control-no_errors parse default text errors r = ground arith

compose_gprs-no_errors :
    (names : List Text) (seeds : List GprSeed) (errors : Errors)
    → All IsReadableGpr seeds
    → (compose_gprs names seeds errors).1 ≡ errors
unfolding compose_gprs
compose_gprs-no_errors [] seeds errors r = refl
compose_gprs-no_errors (name ∷ names) [] errors r = refl
compose_gprs-no_errors (name ∷ names) (seed ∷ seeds) errors r =
    rw (compose_gpr_seed-no_errors seed name errors r.0)
      (compose_gprs-no_errors names seeds errors r.1)

module _ (f : Floats) where
  compose_xmms-no_errors :
      (i : ℕ) (texts : List Text) (errors : Errors)
      → All (λ text. Reads (compose_xmm_seed f text)) texts
      → (compose_xmms f i texts errors).1 ≡ errors
  unfolding compose_xmms
  compose_xmms-no_errors i [] errors r = refl
  compose_xmms-no_errors i (text ∷ texts) errors r =
      ground (arith, r.0, compose_xmms-no_errors (i + 1) texts errors r.1)

  compose_st-no_errors :
      (i : ℕ) (text : Text) (tags : ℕ) (errors : Errors)
      → Reads (compose_st_seed f text)
      → (compose_st f i text tags errors).2 ≡ errors
  unfolding compose_st
  compose_st-no_errors i text tags errors r = ground arith

  compose_sts-no_errors :
      (i : ℕ) (texts : List Text) (tags : ℕ) (errors : Errors)
      → All (λ text. Reads (compose_st_seed f text)) texts
      → (compose_sts f i texts tags errors).2 ≡ errors
  unfolding compose_sts
  compose_sts-no_errors i [] tags errors r = refl
  compose_sts-no_errors i (text ∷ texts) tags errors r =
      rw (compose_st-no_errors i text tags errors r.0)
        (compose_sts-no_errors (i + 1) texts (compose_st f i text tags errors).1 errors r.1)

  pub compose_seed-no_errors :
      (seeds : Seeds) (errors : Errors)
      → IsReadable f seeds
      → (compose_seed f seeds.gpr seeds.flags seeds.xmm seeds.st seeds.environment errors).1
        ≡ errors
  unfolding compose_seed
  compose_seed-no_errors seeds errors r =
      rw
        (
          compose_control-no_errors parse_mxcsr_seed default_mxcsr seeds.environment.mxcsr errors
              r.mxcsr_reads,
          compose_control-no_errors parse_fpu_control_word_seed default_fpu_control_word
              seeds.environment.fpu_control_word errors r.control_reads,
          compose_gprs-no_errors reg_names seeds.gpr errors r.gpr_reads,
          compose_xmms-no_errors 0 seeds.xmm errors r.xmm_reads,
          compose_sts-no_errors 0 seeds.st 0 errors r.st_reads,
        )
        refl
