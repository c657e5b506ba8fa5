-- ===== src/Seed/Gpr/Slices.antt =====
-- What each bit of a composed register comes from, and which slices are reported.
use mathlib.Core.List.{append-nil, append_assoc}
use bme.Base.{
  ℕ, ◌-◌, ◌/◌, ◌%◌, ◌^◌, ◌<◌, ◌≡◌, refl, ap, ◌∙◌, Option, none, some, [], ◌∷◌, ◌++◌, arith,
  if◌then◌else◌, Result, ok, err, Bool-cases, inl, inr,
}
use bme.Text.{Text, is_empty}
use bme.Hex.{from_chars}
use bme.Seed.{SeedError, parse_seed}
use bme.Seed.Gpr.{GprSeed, Errors, labelled, merge, overlay, compose_gpr_seed}
use bme.Seed.Gpr.Merge.{merge_full, merge_dword, merge_word, merge_low, merge_high}

-- The value that a slice's text gives, if it gives one.
abbrev pub slice_value : Text → Option ℕ
slice_value text =
    if is_empty text then none else elim (parse_seed text) [ ok v ↦ some v | err e ↦ none ]

-- The report of a slice's text.
abbrev pub slice_errors : Text → Text → Errors
slice_errors label text =
    if is_empty text
    then []
    else elim (parse_seed text) [ ok v ↦ [] | err e ↦ labelled label e ∷ [] ]

-- The value of a slice, or what the wider slices give.
abbrev pub or_else : Option ℕ → ℕ → ℕ
or_else none wider = wider
or_else (some v) wider = v

pub parse_seed-lt : (text : Text) (v : ℕ) → parse_seed text ≡ ok v → v < 2 ^ 64
unfolding parse_seed from_chars
parse_seed-lt text v e = ground arith

abbrev merged : Option ℕ → ℕ → ℕ → ℕ → ℕ
merged none mask shift r = r
merged (some v) mask shift r = merge mask shift v r

overlay_lem :
    (label text : Text) (mask shift r : ℕ) (errors : Errors)
    → overlay label text mask shift (r, errors)
      ≡ (merged (slice_value text) mask shift r, errors ++ slice_errors label text)
unfolding overlay
overlay_lem label text mask shift r errors = ground (arith, append-nil errors)

abbrev IsWord : Option ℕ → Type 0
IsWord none = Unit
IsWord (some v) = v < 2 ^ 64

slice_value-IsWord : (text : Text) → IsWord (slice_value text)
slice_value-IsWord text = elim (Bool-cases (is_empty text)) [
  | inl nothing ↦ rw nothing tt
  | inr something ↦ rw something (value_cases (parse_seed text) refl)
]
  where
    value_cases :
        (m : Result ℕ SeedError)
        → parse_seed text ≡ m
        → IsWord (elim m [ ok v ↦ some v | err e ↦ none ])
    value_cases (ok v) e = parse_seed-lt text v e
    value_cases (err x) e = tt

-- A stage that replaces the low `k` bits: those below the limit are the slice's, if there is one,
-- and those above it stay.
abbrev Stage : ℕ → Option ℕ → ℕ → ℕ → Type 0
Stage k o r r' = (r' / 2 ^ k ≡ r / 2 ^ k) × (r' % 2 ^ k ≡ or_else o r % 2 ^ k) × (r' < 2 ^ 64)

full-Stage :
    (o : Option ℕ)
    → IsWord o
    → let r' = merged o (2 ^ 64 - 1) 0 0 in (r' ≡ or_else o 0) × (r' < 2 ^ 64)
full-Stage none w = omega arith
full-Stage (some v) w = omega (arith, merge_full v 0 w (omega arith))

Stage-dword :
    (o : Option ℕ) (r : ℕ) → IsWord o → r < 2 ^ 64 → Stage 32 o r (merged o 0xFFFF_FFFF 0 r)
Stage-dword none r w small = omega arith
Stage-dword (some v) r w small = omega (arith, merge_dword v r w small)

Stage-word : (o : Option ℕ) (r : ℕ) → IsWord o → r < 2 ^ 64 → Stage 16 o r (merged o 0xFFFF 0 r)
Stage-word none r w small = omega arith
Stage-word (some v) r w small = omega (arith, merge_word v r w small)

Stage-low : (o : Option ℕ) (r : ℕ) → IsWord o → r < 2 ^ 64 → Stage 8 o r (merged o 0xFF 0 r)
Stage-low none r w small = omega arith
Stage-low (some v) r w small = omega (arith, merge_low v r w small)

-- Bits 8 to 15.
abbrev pub high_bits : Option ℕ → ℕ → ℕ
high_bits none word = word / 2 ^ 8 % 2 ^ 8
high_bits (some v) word = v % 2 ^ 8

Stage-high :
    (o : Option ℕ) (r : ℕ)
    → IsWord o
    → r < 2 ^ 64
    → let r' = merged o 0xFF00 8 r in
      (r' / 2 ^ 16 ≡ r / 2 ^ 16)
      × (r' / 2 ^ 8 % 2 ^ 8 ≡ high_bits o r)
      × (r' % 2 ^ 8 ≡ r % 2 ^ 8)
      × (r' < 2 ^ 64)
Stage-high none r w small = omega arith
Stage-high (some v) r w small = omega (arith, merge_high v r w small)

-- The five bit fields of a register, from its slices.
abbrev pub HasSlices : (full dword word high low : Option ℕ) → ℕ → Type 0
HasSlices full dword word high low r =
    let from_dword = or_else dword (or_else full 0) in
    let from_word = or_else word from_dword in
    (r / 2 ^ 32 ≡ or_else full 0 / 2 ^ 32)
    × (r / 2 ^ 16 % 2 ^ 16 ≡ from_dword / 2 ^ 16 % 2 ^ 16)
    × (r / 2 ^ 8 % 2 ^ 8 ≡ high_bits high from_word)
    × (r % 2 ^ 8 ≡ or_else low from_word % 2 ^ 8)
    × (r < 2 ^ 64)

high_bits-or_else :
    (high word : Option ℕ) (r wider : ℕ)
    → r % 2 ^ 16 ≡ or_else word wider % 2 ^ 16
    → high_bits high r ≡ high_bits high (or_else word wider)
high_bits-or_else none word r wider e = omega arith
high_bits-or_else (some v) word r wider e = refl

or_else_mod :
    (o : Option ℕ) (a b : ℕ) → a % 2 ^ 16 ≡ b % 2 ^ 16 → or_else o a % 2 ^ 16 ≡ or_else o b % 2 ^ 16
or_else_mod none a b e = e
or_else_mod (some v) a b e = refl

or_else_mod_byte :
    (o : Option ℕ) (a b : ℕ) → a % 2 ^ 8 ≡ b % 2 ^ 8 → or_else o a % 2 ^ 8 ≡ or_else o b % 2 ^ 8
or_else_mod_byte none a b e = e
or_else_mod_byte (some v) a b e = refl

composed-HasSlices :
    (full dword word high low : Option ℕ)
    → IsWord full
    → IsWord dword
    → IsWord word
    → IsWord high
    → IsWord low
    → HasSlices full dword word high low (
        merged low 0xFF 0 (
          merged high 0xFF00 8
            (merged word 0xFFFF 0 (merged dword 0xFFFF_FFFF 0 (merged full (2 ^ 64 - 1) 0 0)))))
composed-HasSlices full dword word high low wf wd ww wh wl =
    let r1 = merged full (2 ^ 64 - 1) 0 0 in
    let (e1, b1) = full-Stage full wf in
    let r2 = merged dword 0xFFFF_FFFF 0 r1 in
    let (u2, d2, b2) = Stage-dword dword r1 wd b1 in
    let r3 = merged word 0xFFFF 0 r2 in
    let (u3, d3, b3) = Stage-word word r2 ww b2 in
    let r4 = merged high 0xFF00 8 r3 in
    let (u4, h4, l4, b4) = Stage-high high r3 wh b3 in
    let (u5, d5, b5) = Stage-low low r4 wl b4 in
    let from_dword = or_else dword (or_else full 0) in
    let from_word = or_else word from_dword in
    let dword_e : r2 % 2 ^ 32 ≡ from_dword % 2 ^ 32 =
      d2 ∙ ap (λ wide. or_else dword wide % 2 ^ 32) e1 in
    let narrow : r2 % 2 ^ 16 ≡ from_dword % 2 ^ 16 = omega arith in
    let word_e : r3 % 2 ^ 16 ≡ from_word % 2 ^ 16 = d3 ∙ or_else_mod word r2 from_dword narrow in
    let byte : r4 % 2 ^ 8 ≡ from_word % 2 ^ 8 = omega arith in
    (
      omega arith,
      omega arith,
      (omega arith) ∙ h4 ∙ high_bits-or_else high word r3 from_dword word_e,
      d5 ∙ or_else_mod_byte low r4 from_word byte,
      b5,
    )

abbrev pub ValueOfSlices : GprSeed → ℕ → Type 0
ValueOfSlices seed r =
    HasSlices (slice_value seed.full) (slice_value seed.dword) (slice_value seed.word)
      (slice_value seed.byte_high) (slice_value seed.byte_low) r

abbrev pub seed_errors : Text → GprSeed → Errors
seed_errors label seed =
    slice_errors label seed.full
    ++ slice_errors label seed.dword
    ++ slice_errors label seed.word
    ++ slice_errors label seed.byte_high
    ++ slice_errors label seed.byte_low

append_all :
    (a b c d e f : Errors) → ((((a ++ b) ++ c) ++ d) ++ e) ++ f ≡ a ++ ((((b ++ c) ++ d) ++ e) ++ f)
append_all a b c d e f = simp append_assoc refl

composed :
    (seed : GprSeed) (label : Text) (errors : Errors)
    → compose_gpr_seed seed label errors ≡ (
      merged (slice_value seed.byte_low) 0xFF 0 (
          merged (slice_value seed.byte_high) 0xFF00 8 (
            merged (slice_value seed.word) 0xFFFF 0 (
              merged
                (slice_value seed.dword)
                0xFFFF_FFFF
                0
                (merged (slice_value seed.full) (2 ^ 64 - 1) 0 0)))),
      errors ++ seed_errors label seed,
    )
unfolding compose_gpr_seed
composed seed label errors =
    let r1 = merged (slice_value seed.full) (2 ^ 64 - 1) 0 0 in
    let r2 = merged (slice_value seed.dword) 0xFFFF_FFFF 0 r1 in
    let r3 = merged (slice_value seed.word) 0xFFFF 0 r2 in
    let r4 = merged (slice_value seed.byte_high) 0xFF00 8 r3 in
    let e1 = errors ++ slice_errors label seed.full in
    let e2 = e1 ++ slice_errors label seed.dword in
    let e3 = e2 ++ slice_errors label seed.word in
    let e4 = e3 ++ slice_errors label seed.byte_high in
    rw
      (
        overlay_lem label seed.full (2 ^ 64 - 1) 0 0 errors,
        overlay_lem label seed.dword 0xFFFF_FFFF 0 r1 e1,
        overlay_lem label seed.word 0xFFFF 0 r2 e2,
        overlay_lem label seed.byte_high 0xFF00 8 r3 e3,
        overlay_lem label seed.byte_low 0xFF 0 r4 e4,
      )
      (ap (λ all. (merged (slice_value seed.byte_low) 0xFF 0 r4, all))
        (append_all errors (slice_errors label seed.full) (slice_errors label seed.dword)
          (slice_errors label seed.word) (slice_errors label seed.byte_high)
          (slice_errors label seed.byte_low)))

-- Whatever the texts of the slices are, each bit of the composed register comes from the narrowest
-- slice that covers it and parses: bits 0 to 7 from the low byte, bits 8 to 15 from the high byte,
-- or else both from the word slice; bits 16 to 31 from the dword slice; bits 32 to 63 from the full
-- one; a slice that is empty or malformed leaves its bits to the next wider one, and 0 without any.
-- The errors that the composition adds are those of the malformed slices, from the widest to the
-- narrowest, each with the register's label.
pub compose_gpr_seed_lem :
    (seed : GprSeed) (label : Text) (errors : Errors)
    → ValueOfSlices seed (compose_gpr_seed seed label errors).0
      × ((compose_gpr_seed seed label errors).1 ≡ errors ++ seed_errors label seed)
compose_gpr_seed_lem seed label errors = rw (composed seed label errors) (
  composed-HasSlices (slice_value seed.full) (slice_value seed.dword) (slice_value seed.word)
      (slice_value seed.byte_high) (slice_value seed.byte_low) (slice_value-IsWord seed.full)
      (slice_value-IsWord seed.dword) (slice_value-IsWord seed.word)
      (slice_value-IsWord seed.byte_high) (slice_value-IsWord seed.byte_low),
  refl,
)
