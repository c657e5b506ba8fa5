-- ===== src/Seed/Cli/Readable.antt =====
-- The seeds that `--seed` leaves are ones that `compose_seed` reads without an error.
use bme.Base.{
  ℕ, ◌≡◌, ◌==◌, refl, sym, ◌∙◌, true, Option, none, some, List, [], ◌∷◌, arith, get_or, get_or-set,
  All, All-set, All-get_or, Result, ok, err, has_value, >>=-eq-ok, Bool-cases, Option-cases, inl,
  inr,
}
use bme.Text.{Text, codes, is_empty, ascii_case_insensitive_equal}
use bme.Seed.{
  SeedError, Floats, parse_seed, parse_mxcsr_seed, parse_fpu_control_word_seed, compose_xmm_seed,
  compose_st_seed,
}
use bme.Seed.Gpr.{GprSeed, empty_gpr_seed}
use bme.Seed.Names.{
  Slice, full, dword, word, byte_high, byte_low, gpr_count, rsp, find_slice, status_flags,
  parse_xmm_seed_index, parse_st_seed_index,
}
use bme.Seed.Cli.{
  Seeds, CliError, checked, parse_cli_seed_value, write_slice, write_flag, write_gpr_or_flag,
  write_indexed, write_named, parse_cli_seed_entry, parse_cli_seed_entries, parse_cli_seed_argument,
  split_commas, split_equals,
}

abbrev pub Reads {ℓ} : {A E : Type ℓ} → Result A E → Type 0
Reads m = has_value m ≡ true

pub record IsReadableGpr (seed : GprSeed) : Type 0 where
  pub full_reads : Reads (parse_seed seed.full)
  pub dword_reads : Reads (parse_seed seed.dword)
  pub word_reads : Reads (parse_seed seed.word)
  pub high_reads : Reads (parse_seed seed.byte_high)
  pub low_reads : Reads (parse_seed seed.byte_low)

ok_injective : {a b : Seeds} → ◌≡◌ {A = Result Seeds CliError} (ok a) (ok b) → a ≡ b
ok_injective e = cc

checked-eq-ok :
    {A : Type 0} (m : Result A SeedError) (seeds seeds' : Seeds)
    → checked m seeds ≡ ok seeds'
    → Reads m × (seeds ≡ seeds')
checked-eq-ok (ok a) seeds seeds' e = (refl, cc)
checked-eq-ok (err x) seeds seeds' e = cc

value-Reads : (text : Text) (v : ℕ) → parse_cli_seed_value text ≡ ok v → Reads (parse_seed text)
unfolding parse_cli_seed_value
value-Reads text v e = ground arith

pub empty-IsReadableGpr : IsReadableGpr empty_gpr_seed
unfolding parse_seed
empty-IsReadableGpr = record {
  full_reads = refl;
  dword_reads = refl;
  word_reads = refl;
  high_reads = refl;
  low_reads = refl;
}

write_slice-IsReadableGpr :
    (slice : Slice) (text : Text) (seed : GprSeed)
    → IsReadableGpr seed
    → Reads (parse_seed text)
    → IsReadableGpr (write_slice slice text seed)
unfolding write_slice
write_slice-IsReadableGpr full text seed w r = record {
  full_reads = r;
  dword_reads = w.dword_reads;
  word_reads = w.word_reads;
  high_reads = w.high_reads;
  low_reads = w.low_reads;
}
write_slice-IsReadableGpr dword text seed w r = record {
  full_reads = w.full_reads;
  dword_reads = r;
  word_reads = w.word_reads;
  high_reads = w.high_reads;
  low_reads = w.low_reads;
}
write_slice-IsReadableGpr word text seed w r = record {
  full_reads = w.full_reads;
  dword_reads = w.dword_reads;
  word_reads = r;
  high_reads = w.high_reads;
  low_reads = w.low_reads;
}
write_slice-IsReadableGpr byte_high text seed w r = record {
  full_reads = w.full_reads;
  dword_reads = w.dword_reads;
  word_reads = w.word_reads;
  high_reads = r;
  low_reads = w.low_reads;
}
write_slice-IsReadableGpr byte_low text seed w r = record {
  full_reads = w.full_reads;
  dword_reads = w.dword_reads;
  word_reads = w.word_reads;
  high_reads = w.high_reads;
  low_reads = r;
}

module _ (f : Floats) where
  pub record IsReadable (seeds : Seeds) : Type 0 where
    pub gpr_reads : All IsReadableGpr seeds.gpr
    pub xmm_reads : All (λ text. Reads (compose_xmm_seed f text)) seeds.xmm
    pub st_reads : All (λ text. Reads (compose_st_seed f text)) seeds.st
    pub mxcsr_reads : Reads (parse_mxcsr_seed seeds.environment.mxcsr)
    pub control_reads : Reads (parse_fpu_control_word_seed seeds.environment.fpu_control_word)
    pub rsp_unset : get_or seeds.gpr rsp empty_gpr_seed ≡ empty_gpr_seed

  write_flag-IsReadable :
      (flags : List (Text × ℕ)) (name text : Text) (seeds seeds' : Seeds)
      → IsReadable seeds
      → write_flag flags name text seeds ≡ ok seeds'
      → IsReadable seeds'
  unfolding write_flag
  write_flag-IsReadable [] name text seeds seeds' w e = cc
  write_flag-IsReadable ((flag, bit) ∷ others) name text seeds seeds' w e =
      elim (Bool-cases (ascii_case_insensitive_equal name flag)) [
        | inl same ↦
            let (v, e', read) = >>=-eq-ok (parse_cli_seed_value text) _ (rw (same) at e) in
            rw (sym (ok_injective e')) (record {
              gpr_reads = w.gpr_reads;
              xmm_reads = w.xmm_reads;
              st_reads = w.st_reads;
              mxcsr_reads = w.mxcsr_reads;
              control_reads = w.control_reads;
              rsp_unset = w.rsp_unset;
            })
        | inr other ↦ write_flag-IsReadable others name text seeds seeds' w (rw (other) at e)
      ]

  write_gpr_or_flag-IsReadable :
      (slot : Option (ℕ × Slice)) (name text : Text) (seeds seeds' : Seeds)
      → IsReadable seeds
      → write_gpr_or_flag slot name text seeds ≡ ok seeds'
      → IsReadable seeds'
  unfolding write_gpr_or_flag
  write_gpr_or_flag-IsReadable none name text seeds seeds' w e =
      write_flag-IsReadable status_flags name text seeds seeds' w e
  write_gpr_or_flag-IsReadable (some (reg, slice)) name text seeds seeds' w e =
      elim (Bool-cases (reg == rsp)) [
        | inl refused ↦ absurd (ground (arith, rw (refused) at e))
        | inr allowed ↦
            let (v, e', read) = >>=-eq-ok (parse_cli_seed_value text) _ (rw (allowed) at e) in
            let slices = get_or seeds.gpr reg empty_gpr_seed in
            let old =
              All-get_or IsReadableGpr seeds.gpr reg empty_gpr_seed w.gpr_reads
                empty-IsReadableGpr in
            let new = write_slice-IsReadableGpr slice text slices old (value-Reads text v read) in
            rw (sym (ok_injective e')) (record {
              gpr_reads =
                  All-set IsReadableGpr seeds.gpr reg (write_slice slice text slices) w.gpr_reads
                    new;
              xmm_reads = w.xmm_reads;
              st_reads = w.st_reads;
              mxcsr_reads = w.mxcsr_reads;
              control_reads = w.control_reads;
              rsp_unset =
                  get_or-set seeds.gpr reg rsp (write_slice slice text slices) empty_gpr_seed
                    (ground arith)
                  ∙ w.rsp_unset;
            })
      ]

  write_indexed-IsReadable :
      (xmm st : Option ℕ) (name text : Text) (seeds seeds' : Seeds)
      → IsReadable seeds
      → write_indexed f xmm st name text seeds ≡ ok seeds'
      → IsReadable seeds'
  unfolding write_indexed
  write_indexed-IsReadable (some i) st name text seeds seeds' w e =
      let (reads, e') = checked-eq-ok (compose_xmm_seed f text) _ _ e in
      rw (sym e') (record {
        gpr_reads = w.gpr_reads;
        xmm_reads = All-set (λ t. Reads (compose_xmm_seed f t)) seeds.xmm i text w.xmm_reads reads;
        st_reads = w.st_reads;
        mxcsr_reads = w.mxcsr_reads;
        control_reads = w.control_reads;
        rsp_unset = w.rsp_unset;
      })
  write_indexed-IsReadable none (some i) name text seeds seeds' w e =
      let (reads, e') = checked-eq-ok (compose_st_seed f text) _ _ e in
      rw (sym e') (record {
        gpr_reads = w.gpr_reads;
        xmm_reads = w.xmm_reads;
        st_reads = All-set (λ t. Reads (compose_st_seed f t)) seeds.st i text w.st_reads reads;
        mxcsr_reads = w.mxcsr_reads;
        control_reads = w.control_reads;
        rsp_unset = w.rsp_unset;
      })
  write_indexed-IsReadable none none name text seeds seeds' w e =
      write_gpr_or_flag-IsReadable (find_slice gpr_count 0 name) name text seeds seeds' w e

  write_named-IsReadable :
      (name text : Text) (seeds seeds' : Seeds)
      → IsReadable seeds
      → write_named f name text seeds ≡ ok seeds'
      → IsReadable seeds'
  unfolding write_named
  write_named-IsReadable name text seeds seeds' w e =
      elim (Bool-cases (ascii_case_insensitive_equal name (codes "mxcsr"))) [
        | inl mxcsr ↦
            let (reads, e') = checked-eq-ok (parse_mxcsr_seed text) _ _ (rw (mxcsr) at e) in
            rw (sym e') (record {
              gpr_reads = w.gpr_reads;
              xmm_reads = w.xmm_reads;
              st_reads = w.st_reads;
              mxcsr_reads = reads;
              control_reads = w.control_reads;
              rsp_unset = w.rsp_unset;
            })
        | inr other ↦ elim (Bool-cases (ascii_case_insensitive_equal name (codes "control_word"))) [
          | inl control ↦
              let (reads, e') =
                checked-eq-ok (parse_fpu_control_word_seed text) _ _ (rw (other, control) at e) in
              rw (sym e') (record {
                gpr_reads = w.gpr_reads;
                xmm_reads = w.xmm_reads;
                st_reads = w.st_reads;
                mxcsr_reads = w.mxcsr_reads;
                control_reads = reads;
                rsp_unset = w.rsp_unset;
              })
          | inr neither ↦
              write_indexed-IsReadable (parse_xmm_seed_index name) (parse_st_seed_index name) name
                text seeds seeds' w (rw (other, neither) at e)
        ]
      ]

  parse_cli_seed_entry-IsReadable :
      (entry : Text) (seeds seeds' : Seeds)
      → IsReadable seeds
      → parse_cli_seed_entry f entry seeds ≡ ok seeds'
      → IsReadable seeds'
  unfolding parse_cli_seed_entry
  parse_cli_seed_entry-IsReadable entry seeds seeds' w e = elim (Bool-cases (is_empty entry)) [
    | inl nothing ↦ rw (sym (ok_injective (rw (nothing) at e))) w
    | inr something ↦ elim (Option-cases (split_equals entry)) [
      | inl missing ↦ absurd (ground (arith, rw (something, missing) at e))
      | inr ((name, text), found) ↦ elim (Bool-cases (is_empty text)) [
        | inl no_text ↦ absurd (ground (arith, rw (something, found, no_text) at e))
        | inr some_text ↦
            write_named-IsReadable name text seeds seeds' w (rw (something, found, some_text) at e)
      ]
    ]
  ]

  parse_cli_seed_entries-IsReadable :
      (entries : List Text) (seeds seeds' : Seeds)
      → IsReadable seeds
      → parse_cli_seed_entries f entries seeds ≡ ok seeds'
      → IsReadable seeds'
  unfolding parse_cli_seed_entries
  parse_cli_seed_entries-IsReadable [] seeds seeds' w e = rw (sym (ok_injective e)) w
  parse_cli_seed_entries-IsReadable (entry ∷ entries) seeds seeds' w e =
      let (middle, rest, read) = >>=-eq-ok (parse_cli_seed_entry f entry seeds) _ e in
      parse_cli_seed_entries-IsReadable entries middle seeds'
        (parse_cli_seed_entry-IsReadable entry seeds middle w read) rest

  pub parse_cli_seed_argument-IsReadable :
      (text : Text) (seeds seeds' : Seeds)
      → IsReadable seeds
      → parse_cli_seed_argument f text seeds ≡ ok seeds'
      → IsReadable seeds'
  unfolding parse_cli_seed_argument
  parse_cli_seed_argument-IsReadable text seeds seeds' w e =
      let (first, others) = split_commas text in
      parse_cli_seed_entries-IsReadable (first ∷ others) seeds seeds' w e
