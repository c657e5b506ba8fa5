-- ===== src/Seed/Cli.antt =====
-- `--seed`: `parse_cli_seed_argument` of src/bme_core.cpp.
pub mod Readable
use Prim.Native.Nat.{bit_and, bit_or}
use bme.Base.{
  ℕ, ◌==◌, Bool, true, false, Option, none, some, List, [], ◌∷◌, if◌then◌else◌, get_or, set, Result,
  ok, err, ◌>>=◌,
}
use bme.Base.Words.{not64}
use bme.Text.{Text, codes, is_empty, ascii_case_insensitive_equal}
use bme.Seed.{
  SeedError, Floats, parse_seed, parse_mxcsr_seed, parse_fpu_control_word_seed, compose_xmm_seed,
  compose_st_seed,
}
use bme.Seed.Gpr.{GprSeed, empty_gpr_seed}
use bme.Seed.Names.{
  Slice, full, dword, word, byte_high, byte_low, gpr_count, rsp, status_flags, find_slice,
  parse_xmm_seed_index, parse_st_seed_index,
}
use bme.Seed.Compose.{FloatingEnvironmentSeed}

-- The fields of `CLI` for the initial state, the ones that the function writes.
pub record Seeds : Type 0 where
  pub gpr : List GprSeed
  pub flags : ℕ
  pub xmm : List Text
  pub st : List Text
  pub environment : FloatingEnvironmentSeed

pub data CliError : Type 0 where
  missing_equals : Text → CliError
  empty_value : Text → CliError
  invalid_seed : SeedError → CliError
  invalid_value : Text → CliError
  rsp_refused : CliError
  unknown_name : Text → CliError

-- A test of a value, whose error is the function's.
abbrev pub checked : {A : Type 0} → Result A SeedError → Seeds → Result Seeds CliError
checked (ok value) seeds = ok seeds
checked (err e) seeds = err (invalid_seed e)

unfoldable pub parse_cli_seed_value : Text → Result ℕ CliError
parse_cli_seed_value text = elim (parse_seed text) [
  | err e ↦ err (invalid_value text)
  | ok value ↦ if is_empty text then err (invalid_value text) else ok value
]

unfoldable pub write_slice : Slice → Text → GprSeed → GprSeed
write_slice full text seed = record seed { full = text }
write_slice dword text seed = record seed { dword = text }
write_slice word text seed = record seed { word = text }
write_slice byte_high text seed = record seed { byte_high = text }
write_slice byte_low text seed = record seed { byte_low = text }

-- The text before the first comma, and each text behind one.
unfoldable pub split_commas : Text → Text × List Text
split_commas [] = ([], [])
split_commas (c ∷ cs) =
    let (first, others) = split_commas cs in
    if c == b',' then ([], first ∷ others) else (c ∷ first, others)

-- The texts around the first `=`.
unfoldable pub split_equals : Text → Option (Text × Text)
split_equals [] = none
split_equals (c ∷ cs) =
    let rest = split_equals cs in
    if c == b'='
    then some ([], cs)
    else elim rest [ none ↦ none | some (name, value) ↦ some (c ∷ name, value) ]

-- The loop over the flags.
unfoldable pub write_flag : List (Text × ℕ) → Text → Text → Seeds → Result Seeds CliError
write_flag [] name text seeds = err (unknown_name name)
write_flag ((flag, bit) ∷ others) name text seeds =
    let rest = write_flag others name text seeds in
    if ascii_case_insensitive_equal name flag
    then (do
      value ← parse_cli_seed_value text
      ok (record seeds {
        flags = if value == 0 then bit_and seeds.flags (not64 bit) else bit_or seeds.flags bit;
      }))
    else rest

-- A slice of a register, or else a flag.
unfoldable pub write_gpr_or_flag : Option (ℕ × Slice) → Text → Text → Seeds → Result Seeds CliError
write_gpr_or_flag none name text seeds = write_flag status_flags name text seeds
write_gpr_or_flag (some (reg, slice)) name text seeds = if reg == rsp then err rsp_refused else (do
  value ← parse_cli_seed_value text
  ok (record seeds {
    gpr = set seeds.gpr reg (write_slice slice text (get_or seeds.gpr reg empty_gpr_seed));
  }))

module _ (f : Floats) where
  -- An indexed register, by the two readers of an index.
  unfoldable pub write_indexed : (xmm st : Option ℕ) → Text → Text → Seeds → Result Seeds CliError
  write_indexed (some i) st name text seeds =
      checked (compose_xmm_seed f text) (record seeds { xmm = set seeds.xmm i text })
  write_indexed none (some i) name text seeds =
      checked (compose_st_seed f text) (record seeds { st = set seeds.st i text })
  write_indexed none none name text seeds =
      write_gpr_or_flag (find_slice gpr_count 0 name) name text seeds

  unfoldable pub write_named : Text → Text → Seeds → Result Seeds CliError
  write_named name text seeds =
      if ascii_case_insensitive_equal name (codes "mxcsr")
      then checked (parse_mxcsr_seed text)
          (record seeds { environment = record seeds.environment { mxcsr = text } })
      else if ascii_case_insensitive_equal name (codes "control_word")
      then checked (parse_fpu_control_word_seed text)
          (record seeds { environment = record seeds.environment { fpu_control_word = text } })
      else write_indexed (parse_xmm_seed_index name) (parse_st_seed_index name) name text seeds

  unfoldable pub parse_cli_seed_entry : Text → Seeds → Result Seeds CliError
  parse_cli_seed_entry entry seeds =
      if is_empty entry then ok seeds else elim (split_equals entry) [
        | none ↦ err (missing_equals entry)
        | some (name, text) ↦
            if is_empty text then err (empty_value entry) else write_named name text seeds
      ]

  unfoldable pub parse_cli_seed_entries : List Text → Seeds → Result Seeds CliError
  parse_cli_seed_entries [] seeds = ok seeds
  parse_cli_seed_entries (entry ∷ entries) seeds =
      parse_cli_seed_entry entry seeds >>= parse_cli_seed_entries entries

  -- An error leaves no seeds: its caller drops the partly written `CLI`.
  unfoldable pub parse_cli_seed_argument : Text → Seeds → Result Seeds CliError
  parse_cli_seed_argument text seeds =
      let (first, others) = split_commas text in parse_cli_seed_entries (first ∷ others) seeds
