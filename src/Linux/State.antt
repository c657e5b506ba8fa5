-- ===== src/Linux/State.antt =====
-- The registers that src/os.linux.cpp gives the child, and the snapshots that it reads.
use Prim.Native.Nat.{bit_and, bit_or}
use bme.Base.{
  ℕ, suc, Bool, ◌&&◌, not, Option, none, some, List, [], ◌∷◌, ◌++◌, ◌==◌, if◌then◌else◌, map, take,
  drop, set,
}
use bme.Base.Words.{u8, ◌<<<◌, not64}
use bme.Cpu.{has_bit}
use bme.Seed.Compose.{Registers}
use bme.Platform.{
  no_registers, PlatformRunRequest, gpr_at, rflags_status_mask, rflags_trap_flag,
  rflags_interrupt_flag, rflags_reserved_bit1, mxcsr_fallback_mask,
}
use bme.Linux.{
  get_regs, get_fp_regs, UserRegs, UserFpRegs, ChildReady, Kernel, M, ◌>>=◌, ask, pure, when,
  is_some,
}

unfoldable pub snapshot_fpu : UserFpRegs → Registers → Registers
snapshot_fpu source target = record target {
  xmm = take 16 source.xmm_space;
  st = map (take 10) (take 8 source.st_space);
  mxcsr = source.mxcsr;
  fpu_control_word = source.cwd;
  fpu_status_word = source.swd;
  fpu_tag_word_abridged = u8 source.ftw;
}

-- The general-purpose registers in the order of `Reg`, RAX to R15.
unfoldable pub snapshot_gpr : UserRegs → Registers → Registers
snapshot_gpr regs target = record target {
  gpr =
      regs.rax ∷ regs.rbx ∷ regs.rcx ∷ regs.rdx ∷ regs.rsi ∷ regs.rdi ∷ regs.rbp ∷ regs.rsp
      ∷ regs.r8 ∷ regs.r9 ∷ regs.r10 ∷ regs.r11 ∷ regs.r12 ∷ regs.r13 ∷ regs.r14 ∷ regs.r15 ∷ [];
  rip = regs.rip;
  rflags = bit_and regs.eflags (not64 rflags_trap_flag);
}

-- What `read_snapshot` writes to a new `Registers`, where both reads succeed.
unfoldable pub snapshot : UserRegs → UserFpRegs → Registers → Registers
snapshot regs fp_regs target = snapshot_fpu fp_regs (snapshot_gpr regs target)

-- The mask of the MXCSR bits that the CPU supports.
unfoldable pub mxcsr_mask : UserFpRegs → ℕ
mxcsr_mask fp_regs = if fp_regs.mxcr_mask == 0 then mxcsr_fallback_mask else fp_regs.mxcr_mask

-- `~mask` of 32 bits, on a 32-bit value.
unfoldable pub mxcsr_unsupported : Registers → UserFpRegs → Bool
mxcsr_unsupported seed fp_regs = not (bit_and seed.mxcsr (not64 (mxcsr_mask fp_regs)) == 0)

unfoldable pub seed_controls : Registers → UserFpRegs → UserFpRegs
seed_controls seed fp_regs = record fp_regs { cwd = seed.fpu_control_word; mxcsr = seed.mxcsr }

-- The recorded x87 registers, from register `i` on: the seed's where its tag is set.
unfoldable pub record_st : ℕ → ℕ → List (List ℕ) → List (List ℕ) → List (List ℕ)
record_st i tags (seed ∷ seeds) (old ∷ olds) =
    (if has_bit tags i then seed else old) ∷ record_st (suc i) tags seeds olds
record_st i tags _ olds = olds

-- The child's slots of 16 bytes, from register `i` on: 10 bytes of the seed where its tag is set.
unfoldable pub write_st : ℕ → ℕ → List (List ℕ) → List (List ℕ) → List (List ℕ)
write_st i tags (seed ∷ seeds) (slot ∷ slots) =
    (if has_bit tags i then seed ++ drop 10 slot else slot) ∷ write_st (suc i) tags seeds slots
write_st i tags _ slots = slots

-- The tags with those of the seed set, from register `i` on.
unfoldable pub tag_st : ℕ → ℕ → List (List ℕ) → ℕ → ℕ
tag_st i tags [] ftw = ftw
tag_st i tags (seed ∷ seeds) ftw =
    tag_st (suc i) tags seeds (if has_bit tags i then bit_or ftw (1 <<< i) else ftw)

-- The FPU state that is set: the seed's values, and the top of the x87 stack at register 0.
unfoldable pub child_fp_regs : Registers → UserFpRegs → UserFpRegs
child_fp_regs seed fp_regs =
    let fp_regs' = seed_controls seed fp_regs in
    record fp_regs' {
      xmm_space = seed.xmm;
      st_space = write_st 0 seed.fpu_tag_word_abridged seed.st fp_regs'.st_space;
      ftw = tag_st 0 seed.fpu_tag_word_abridged seed.st fp_regs'.ftw;
      swd = bit_and fp_regs'.swd 0xC7FF;
    }

unfoldable pub child_rflags : ℕ → ℕ
child_rflags flags =
    bit_or (bit_or (bit_and flags rflags_status_mask) rflags_reserved_bit1) rflags_interrupt_flag

-- RDI or RSI: the scratch data where the request asks for it and the seed is 0.
unfoldable pub effective_pointer : PlatformRunRequest → ChildReady → ℕ → ℕ
effective_pointer request ready reg =
    if request.seed_data_pointers && gpr_at request.seed reg == 0
    then ready.data_base
    else gpr_at request.seed reg

-- `result.seed`: what the run records as its start.
unfoldable pub recorded_seed : PlatformRunRequest → ChildReady → UserFpRegs → Registers
recorded_seed request ready fp_regs =
    let seed = request.seed in
    let result_seed = snapshot_fpu (seed_controls seed fp_regs) seed in
    record result_seed {
      gpr =
          set (set (set seed.gpr 7 ready.initial_rsp) 5 (effective_pointer request ready 5)) 4
            (effective_pointer request ready 4);
      rip = ready.code_base;
      rflags = child_rflags seed.rflags;
      xmm = seed.xmm;
      st = record_st 0 seed.fpu_tag_word_abridged seed.st result_seed.st;
      fpu_tag_word_abridged = u8 (tag_st 0 seed.fpu_tag_word_abridged seed.st fp_regs.ftw);
    }

-- The registers that are set; the rest of `user_regs_struct` stays as it was read.
unfoldable pub child_regs : PlatformRunRequest → ChildReady → UserRegs
child_regs request ready =
    let seed = request.seed in
    record {
      rax = gpr_at seed 0;
      rbx = gpr_at seed 1;
      rcx = gpr_at seed 2;
      rdx = gpr_at seed 3;
      rsi = effective_pointer request ready 4;
      rdi = effective_pointer request ready 5;
      rbp = gpr_at seed 6;
      rsp = ready.initial_rsp;
      r8 = gpr_at seed 8;
      r9 = gpr_at seed 9;
      r10 = gpr_at seed 10;
      r11 = gpr_at seed 11;
      r12 = gpr_at seed 12;
      r13 = gpr_at seed 13;
      r14 = gpr_at seed 14;
      r15 = gpr_at seed 15;
      rip = ready.code_base;
      eflags = child_rflags seed.rflags;
    }

-- Both reads succeeded.
unfoldable pub snapshot_both : Option UserRegs → Option UserFpRegs → Option Registers
snapshot_both (some regs) (some fp_regs) = some (snapshot regs fp_regs no_registers)
snapshot_both _ _ = none

module _ (kernel : Kernel) where
  unfoldable pub read_snapshot : (child : ℕ) → M (Option Registers)
  read_snapshot child = ask kernel.regs_reply (get_regs child) >>= λ regs.
      when (is_some regs) (ask kernel.fp_regs_reply (get_fp_regs child)) >>= λ fp_regs.
      pure (snapshot_both regs fp_regs)
