-- ===== src/Seed/Accepted.antt =====
-- What `--seed` accepts, from `parse_cli_seed_argument` to `compose_seed` of src/bme_core.cpp.
use bme.Base.{◌≡◌, refl, [], get_or, replicate, All-replicate, ok}
use bme.Text.{Text}
use bme.Seed.{
  Floats, parse_seed, parse_bounded_seed, parse_mxcsr_seed, parse_fpu_control_word_seed,
  compose_xmm_seed, compose_st_seed,
}
use bme.Seed.Gpr.{empty_gpr_seed}
use bme.Seed.Names.{gpr_count, rsp}
use bme.Seed.Compose.{compose_seed}
use bme.Seed.Compose.NoErrors.{compose_seed-no_errors}
use bme.Seed.Cli.{Seeds, parse_cli_seed_argument}
use bme.Seed.Cli.Readable.{
  Reads, IsReadableGpr, IsReadable, empty-IsReadableGpr, parse_cli_seed_argument-IsReadable,
}

-- The seeds of a `CLI` that no argument has written to.
abbrev pub no_seeds : Seeds
no_seeds = record {
  gpr = replicate gpr_count empty_gpr_seed;
  flags = 0;
  xmm = replicate 16 [];
  st = replicate 8 [];
  environment = record { mxcsr = []; fpu_control_word = [] };
}

pub no_seeds-IsReadable : (f : Floats) → IsReadable f no_seeds
unfolding compose_xmm_seed compose_st_seed parse_mxcsr_seed parse_fpu_control_word_seed
    parse_bounded_seed parse_seed
no_seeds-IsReadable f = record {
  gpr_reads = All-replicate IsReadableGpr gpr_count empty_gpr_seed empty-IsReadableGpr;
  xmm_reads = All-replicate (λ text. Reads (compose_xmm_seed f text)) 16 [] refl;
  st_reads = All-replicate (λ text. Reads (compose_st_seed f text)) 8 [] refl;
  mxcsr_reads = refl;
  control_reads = refl;
  rsp_unset = refl;
}

-- Whatever the floating-point operations are: when `--seed` is accepted, composing the registers
-- from the seeds that it leaves reports no error, and the seed of RSP is still empty.
pub parse_cli_seed_argument-compose_seed :
    (f : Floats) (text : Text) (seeds : Seeds)
    → parse_cli_seed_argument f text no_seeds ≡ ok seeds
    → ((compose_seed f seeds.gpr seeds.flags seeds.xmm seeds.st seeds.environment []).1 ≡ [])
      × (get_or seeds.gpr rsp empty_gpr_seed ≡ empty_gpr_seed)
parse_cli_seed_argument-compose_seed f text seeds e =
    let readable =
      parse_cli_seed_argument-IsReadable f text no_seeds seeds (no_seeds-IsReadable f) e in
    (compose_seed-no_errors f seeds [] readable, readable.rsp_unset)
