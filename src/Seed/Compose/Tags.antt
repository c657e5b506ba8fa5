-- ===== src/Seed/Compose/Tags.antt =====
-- The x87 tag word that `compose_seed` of src/bme_core.cpp composes.
use Prim.Native.Nat.{bit_or}
use native.Mathlib.Nat.{pow-suc, one-le-pow, pow-le-pow_right}
use bme.Base.{
  ℕ, suc, ◌+◌, ◌*◌, ◌^◌, ◌<◌, ◌≤◌, ◌≡◌, sym, ap, ◌∙◌, Bool, not, ◌&&◌, List, [], ◌∷◌, if◌then◌else◌,
  length, has_value, arith,
}
use bme.Base.Words.{u8, ◌<<<◌}
use bme.Base.Bits.{bit_or_fields, bit_or-zero, zero-bit_or}
use bme.Text.{Text, is_empty}
use bme.Seed.{Floats, compose_st_seed}
use bme.Seed.Gpr.{GprSeed, Errors}
use bme.Seed.Compose.{FloatingEnvironmentSeed, compose_st, compose_sts, compose_seed}

bit_or-new : (i tags : ℕ) → tags < 2 ^ i → bit_or tags (2 ^ i) ≡ tags + 2 ^ i
bit_or-new i tags small =
    let p = one-le-pow i 2 (omega arith) in
    let left : 0 * 2 ^ i + tags ≡ tags = omega arith in
    let right : 1 * 2 ^ i + 0 ≡ 2 ^ i = omega arith in
    let fields = bit_or_fields i 0 1 tags 0 small (omega arith) in
    ap (λ x. bit_or x (2 ^ i)) (sym left)
    ∙ ap (bit_or (0 * 2 ^ i + tags)) (sym right)
    ∙ fields
    ∙ rw (bit_or-zero tags, zero-bit_or 1) (omega arith)

tags-below : (i tags : ℕ) (b : Bool) → tags < 2 ^ i → tags + (if b then 2 ^ i else 0) < 2 ^ (i + 1)
tags-below i tags b small =
    let next : i + 1 ≡ suc i = omega arith in
    let twice : 2 ^ (i + 1) ≡ 2 ^ i * 2 = ap (λ k. 2 ^ k) next ∙ pow-suc 2 i in ground arith

module _ (f : Floats) where
  -- The register has a text, and it reads.
  unfoldable pub is_seeded : Text → Bool
  is_seeded text = not (is_empty text) && has_value (compose_st_seed f text)

  -- The sum of the bits of the seeded registers, from the register `i` on.
  unfoldable pub seeded_bits : ℕ → List Text → ℕ
  seeded_bits i [] = 0
  seeded_bits i (text ∷ texts) = (if is_seeded text then 2 ^ i else 0) + seeded_bits (i + 1) texts

  compose_st-tags :
      (i : ℕ) (text : Text) (tags : ℕ) (errors : Errors)
      → i < 8
      → tags < 2 ^ i
      → (compose_st f i text tags errors).1 ≡ tags + (if is_seeded text then 2 ^ i else 0)
  unfolding compose_st is_seeded
  compose_st-tags i text tags errors bound small =
      let byte : u8 (1 <<< i) ≡ 2 ^ i =
        (let le : 2 ^ i ≤ 2 ^ 7 = pow-le-pow_right (omega arith) {j = 7} (omega arith) in
          omega arith) in
      let new = ap (bit_or tags) byte ∙ bit_or-new i tags small in ground (arith, new)

  compose_sts-tags :
      (i : ℕ) (texts : List Text) (tags : ℕ) (errors : Errors)
      → i + length texts ≤ 8
      → tags < 2 ^ i
      → (compose_sts f i texts tags errors).1 ≡ tags + seeded_bits i texts
  unfolding compose_sts seeded_bits
  compose_sts-tags i [] tags errors bound small = omega arith
  compose_sts-tags i (text ∷ texts) tags errors bound small =
      let here = compose_st-tags i text tags errors (omega arith) small in
      let next = (compose_st f i text tags errors).1 in
      let below = tags-below i tags (is_seeded text) small in
      let fits : next < 2 ^ (i + 1) = omega arith in
      let rest =
        compose_sts-tags (i + 1) texts next (compose_st f i text tags errors).2 (omega arith)
          fits in
      omega (arith, rest, here)

  -- When there are at most eight x87 texts, the composed abridged tag word is the sum of `2 ^ i`
  -- over the registers `i` whose text is not empty and reads; the malformed ones stay untagged.
  pub compose_seed-seeded_bits :
      (gpr : List GprSeed) (flags : ℕ) (xmm st : List Text) (environment : FloatingEnvironmentSeed)
      (errors : Errors)
      → length st ≤ 8
      → (compose_seed f gpr flags xmm st environment errors).0.fpu_tag_word_abridged
        ≡ seeded_bits 0 st
  unfolding compose_seed
  compose_seed-seeded_bits gpr flags xmm st environment errors eight =
      compose_sts-tags 0 st 0 _ (omega arith) (omega arith) ∙ omega arith
