-- ===== src/Windows/Start.antt =====
-- The start of a run in src/os.windows.cpp: the thread's context and the seed that is recorded.
use Prim.Native.Nat.{bit_and, bit_or}
use bme.Base.{all_below, all_below-at, ℕ, ◌%◌, ◌<◌, Bool, true, ◌==◌, length, All, ◌≡◌, refl, arith}
use bme.Base.Words.{not64}
use bme.Platform.{PlatformRunRequest, rflags_trap_flag}
use bme.Linux.State.{child_rflags, child_regs, snapshot_gpr, tag_st}
use bme.Linux.Start.{take-all, snapshot-write_st, low_flags, snapshot_gpr-child_regs}
use bme.Windows.{Context, context_fpu, context_snapshot, trap}
use bme.Windows.Run.{
  Placed, placed_seed, seed_context_controls, recorded_context, seeded_flt_save, seeded_context,
}

trap_is_masked : ℕ → Bool
trap_is_masked flags =
    bit_and (bit_or (child_rflags flags) rflags_trap_flag) (not64 rflags_trap_flag)
    == child_rflags flags

all_masked : all_below trap_is_masked 4096 ≡ true
unfolding trap_is_masked child_rflags
all_masked = refl

trap_masked :
    (s : ℕ)
    → s < 4096
    → bit_and (bit_or (child_rflags s) rflags_trap_flag) (not64 rflags_trap_flag) ≡ child_rflags s
unfolding trap_is_masked
trap_masked s below =
    let test = all_below-at trap_is_masked 4096 s all_masked below in ground (arith, test)

-- The trap flag, set for the thread, is left out of a snapshot.
child_rflags-trapped :
    (flags : ℕ)
    → bit_and (bit_or (child_rflags flags) rflags_trap_flag) (not64 rflags_trap_flag)
      ≡ child_rflags flags
child_rflags-trapped flags = rw (low_flags flags) (trap_masked (flags % 4096) (omega arith))

-- For a seed with 16 general-purpose and 16 XMM registers and x87 values of 10 bytes, a snapshot of
-- the context that the thread is given, its trap flag set, is the seed that the run records, whatever
-- the thread's own context was.
pub context_snapshot-seeded_context :
    (request : PlatformRunRequest) (ready : Placed) (context : Context)
    → length request.seed.gpr ≡ 16
    → length request.seed.xmm ≡ 16
    → All (λ seed. length seed ≡ 10) request.seed.st
    → context_snapshot (seeded_context request ready context)
      ≡ recorded_context request ready context
unfolding context_snapshot context_fpu seeded_context seeded_flt_save recorded_context placed_seed
    seed_context_controls trap snapshot_gpr child_regs
context_snapshot-seeded_context request ready context gprs xmms tens =
    let seed = request.seed in
    let tags = seed.fpu_tag_word_abridged in
    let gpr = snapshot_gpr-child_regs request ready gprs in
    let flags = child_rflags-trapped seed.rflags in
    let xmm = take-all 16 seed.xmm xmms in
    let st = snapshot-write_st 8 0 tags seed.st context.flt_save.st_space tens in
    λ i. record {
      gpr = gpr i;
      rip = ready.code_base;
      rflags = flags i;
      xmm = xmm i;
      mxcsr = seed.mxcsr;
      st = st i;
      fpu_control_word = seed.fpu_control_word;
      fpu_status_word = 0;
      fpu_tag_word_abridged = tag_st 0 tags seed.st 0;
    }
