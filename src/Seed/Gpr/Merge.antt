-- ===== src/Seed/Gpr/Merge.antt =====
-- `merge` in plain arithmetic, for the masks and shifts of `compose_gpr_seed`.
use Prim.Native.Nat.{bit_and, bit_or}
use native.Mathlib.Nat.{mod-eq_of_lt, div-add-mod'}
use bme.Base.{ℕ, ◌+◌, ◌-◌, ◌*◌, ◌/◌, ◌%◌, ◌^◌, ◌<◌, ◌≡◌, sym, ap, ◌∙◌, arith}
use bme.Base.Words.{u64, not64, ◌<<<◌}
use bme.Base.Bits.{
  bit_and_fields, bit_or_fields, bit_and_mask, bit_and-zero, bit_or-zero, zero-bit_or,
}
use bme.Seed.Gpr.{merge}

-- `(a & ~mask) | b` replaces a low field: above it nothing changes.
low_field :
    (k n q s t : ℕ)
    → s < 2 ^ k
    → q < 2 ^ n
    → t < 2 ^ k
    → bit_or (bit_and (q * 2 ^ k + s) ((2 ^ n - 1) * 2 ^ k + 0)) t ≡ q * 2 ^ k + t
low_field k n q s t hs hq ht =
    let pos : 0 < 2 ^ k = omega arith in
    let kept : bit_and q (2 ^ n - 1) ≡ q = bit_and_mask n q ∙ mod-eq_of_lt hq in
    let e : t ≡ 0 * 2 ^ k + t = omega arith in
    rw (bit_and_fields k q (2 ^ n - 1) s 0 hs pos, kept, bit_and-zero)
      (ap (bit_or (q * 2 ^ k + 0)) e
        ∙ bit_or_fields k q 0 0 t pos ht
        ∙ rw (bit_or-zero, zero-bit_or))

module _ (v r : ℕ) (hv : v < 2 ^ 64) (hr : r < 2 ^ 64) where
  unshifted : u64 (v <<< 0) ≡ v
  unshifted = omega arith

  pub merge_full : merge (2 ^ 64 - 1) 0 v r ≡ v
  unfolding merge
  merge_full = rw (unshifted, bit_and-zero, zero-bit_or) (bit_and_mask 64 v ∙ mod-eq_of_lt hv)

  pub merge_dword : merge 0xFFFF_FFFF 0 v r ≡ r / 2 ^ 32 * 2 ^ 32 + v % 2 ^ 32
  unfolding merge
  merge_dword =
      rw (unshifted, bit_and_mask 32 v)
        (ap (λ (x : ℕ). bit_or (bit_and x 0xFFFF_FFFF_0000_0000) (v % 2 ^ 32))
            (sym (div-add-mod' r (2 ^ 32)))
          ∙ low_field 32 32 (r / 2 ^ 32) (r % 2 ^ 32) (v % 2 ^ 32) (omega arith) (omega arith)
              (omega arith))

  pub merge_word : merge 0xFFFF 0 v r ≡ r / 2 ^ 16 * 2 ^ 16 + v % 2 ^ 16
  unfolding merge
  merge_word =
      rw (unshifted, bit_and_mask 16 v)
        (ap (λ (x : ℕ). bit_or (bit_and x 0xFFFF_FFFF_FFFF_0000) (v % 2 ^ 16))
            (sym (div-add-mod' r (2 ^ 16)))
          ∙ low_field 16 48 (r / 2 ^ 16) (r % 2 ^ 16) (v % 2 ^ 16) (omega arith) (omega arith)
              (omega arith))

  pub merge_low : merge 0xFF 0 v r ≡ r / 2 ^ 8 * 2 ^ 8 + v % 2 ^ 8
  unfolding merge
  merge_low =
      rw (unshifted, bit_and_mask 8 v)
        (ap (λ (x : ℕ). bit_or (bit_and x 0xFFFF_FFFF_FFFF_FF00) (v % 2 ^ 8))
            (sym (div-add-mod' r (2 ^ 8)))
          ∙ low_field 8 56 (r / 2 ^ 8) (r % 2 ^ 8) (v % 2 ^ 8) (omega arith) (omega arith)
              (omega arith))

  -- Bits 8 to 15: the mask leaves a field on either side.
  high_value : bit_and (u64 (v <<< 8)) 0xFF00 ≡ v % 2 ^ 8 * 2 ^ 8
  high_value =
      let e : u64 (v <<< 8) ≡ v % 2 ^ 56 * 2 ^ 8 + 0 = omega arith in
      let low : v % 2 ^ 56 % 2 ^ 8 ≡ v % 2 ^ 8 = omega arith in
      rw e (
        bit_and_fields 8 (v % 2 ^ 56) 0xFF 0 0 (omega arith) (omega arith)
        ∙ rw (bit_and_mask 8 (v % 2 ^ 56), low, bit_and-zero) (omega arith))

  high_kept : bit_and r (not64 0xFF00) ≡ r / 2 ^ 16 * 2 ^ 16 + r % 2 ^ 8
  high_kept =
      let low : r % 2 ^ 16 % 2 ^ 8 ≡ r % 2 ^ 8 = omega arith in
      let above : r / 2 ^ 16 % 2 ^ 48 ≡ r / 2 ^ 16 = omega arith in
      ap (λ (x : ℕ). bit_and x 0xFFFF_FFFF_FFFF_00FF) (sym (div-add-mod' r (2 ^ 16)))
      ∙ bit_and_fields 16 (r / 2 ^ 16) (2 ^ 48 - 1) (r % 2 ^ 16) 0xFF (omega arith) (omega arith)
      ∙ rw (bit_and_mask 48 (r / 2 ^ 16), above, bit_and_mask 8 (r % 2 ^ 16), low)

  high_joined : (low h : ℕ) → low < 2 ^ 8 → h < 2 ^ 8 → bit_or low (h * 2 ^ 8) ≡ h * 2 ^ 8 + low
  high_joined low h hl hh =
      let el : low ≡ 0 * 2 ^ 8 + low = omega arith in
      let eh : h * 2 ^ 8 ≡ h * 2 ^ 8 + 0 = omega arith in
      ap (λ (x : ℕ). bit_or x (h * 2 ^ 8)) el
      ∙ ap (bit_or (0 * 2 ^ 8 + low)) eh
      ∙ bit_or_fields 8 0 h low 0 hl (omega arith)
      ∙ rw (zero-bit_or, bit_or-zero)

  pub merge_high : merge 0xFF00 8 v r ≡ r / 2 ^ 16 * 2 ^ 16 + v % 2 ^ 8 * 2 ^ 8 + r % 2 ^ 8
  unfolding merge
  merge_high =
      let q = r / 2 ^ 16 in
      let h = v % 2 ^ 8 in
      let low = r % 2 ^ 8 in
      let e : h * 2 ^ 8 ≡ 0 * 2 ^ 16 + h * 2 ^ 8 = omega arith in
      rw (high_kept, high_value)
        (ap (bit_or (q * 2 ^ 16 + low)) e
          ∙ bit_or_fields 16 q 0 low (h * 2 ^ 8) (omega arith) (omega arith)
          ∙ rw (bit_or-zero, high_joined low h (omega arith) (omega arith)) (omega arith))
