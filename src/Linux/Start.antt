-- ===== src/Linux/Start.antt =====
-- The start of a run in src/os.linux.cpp: the child's registers and the seed that is recorded.
use Prim.Native.Nat.{bit_and, bit_or}
use mathlib.Core.Path.{subst}
use bme.Base.{
  all_below, all_below-at, ℕ, zero, suc, ◌+◌, ◌*◌, ◌/◌, ◌%◌, ◌^◌, ◌<◌, Bool, true, false, List, [],
  ◌∷◌, ◌++◌, ◌==◌, if◌then◌else◌, map, take, drop, length, get_or, set, take-append, All, ◌≡◌, refl,
  ap, ◌∙◌, arith,
}
use bme.Base.Words.{not64, u8}
use bme.Base.Bits.{bit_and_fields, bit_and-zero}
use bme.Cpu.{has_bit}
use bme.Platform.{no_registers, PlatformRunRequest, rflags_trap_flag}
use bme.Linux.{UserFpRegs, ChildReady}
use bme.Linux.State.{
  snapshot_fpu, snapshot_gpr, snapshot, seed_controls, record_st, write_st, tag_st, child_fp_regs,
  child_rflags, recorded_seed, child_regs, effective_pointer,
}

-- `n` elements from `i` on.
gets : ℕ → ℕ → List ℕ → List ℕ
gets zero i xs = []
gets (suc n) i xs = get_or xs i 0 ∷ gets n (suc i) xs

gets-tail : (n i x : ℕ) (xs : List ℕ) → gets n (suc i) (x ∷ xs) ≡ gets n i xs
unfolding gets
gets-tail zero i x xs = refl
gets-tail (suc n) i x xs = ap (◌∷◌ (get_or xs i 0)) (gets-tail n (suc i) x xs)

gets-all : (n : ℕ) (xs : List ℕ) → length xs ≡ n → gets n 0 xs ≡ xs
unfolding gets
gets-all zero [] h = refl
gets-all zero (x ∷ xs) h = absurd (omega arith)
gets-all (suc n) [] h = absurd (omega arith)
gets-all (suc n) (x ∷ xs) h = ap (◌∷◌ x) (gets-tail n 0 x xs ∙ gets-all n xs (omega arith))

pub take-all : {A : Type 0} → (n : ℕ) (xs : List A) → length xs ≡ n → take n xs ≡ xs
take-all zero [] h = refl
take-all zero (x ∷ xs) h = absurd (omega arith)
take-all (suc n) [] h = refl
take-all (suc n) (x ∷ xs) h = ap (◌∷◌ x) (take-all n xs (omega arith))

take-slot :
    (test : Bool) (seed slot : List ℕ)
    → length seed ≡ 10
    → take 10 (if test then seed ++ drop 10 slot else slot) ≡ (if test then seed else take 10 slot)
take-slot true seed slot ten = take-append 10 seed (drop 10 slot) ten
take-slot false seed slot ten = refl

-- A snapshot of the slots that are written has the registers that are recorded.
pub snapshot-write_st :
    (n i tags : ℕ) (seeds slots : List (List ℕ))
    → All (λ seed. length seed ≡ 10) seeds
    → map (take 10) (take n (write_st i tags seeds slots))
      ≡ record_st i tags seeds (map (take 10) (take n slots))
unfolding write_st record_st
snapshot-write_st zero i tags [] slots tens = refl
snapshot-write_st zero i tags (seed ∷ seeds) slots tens = refl
snapshot-write_st (suc n) i tags [] [] tens = refl
snapshot-write_st (suc n) i tags [] (slot ∷ slots) tens = refl
snapshot-write_st (suc n) i tags (seed ∷ seeds) [] tens = refl
snapshot-write_st (suc n) i tags (seed ∷ seeds) (slot ∷ slots) tens = λ d.
    take-slot (has_bit tags i) seed slot tens.0 d
    ∷ snapshot-write_st n (suc i) tags seeds slots tens.1 d

trap_is_clear : ℕ → Bool
trap_is_clear flags = bit_and (child_rflags flags) (not64 rflags_trap_flag) == child_rflags flags

-- The flags of the low 12 bits, whose trap flag is clear.
all_clear : all_below trap_is_clear 4096 ≡ true
unfolding trap_is_clear child_rflags
all_clear = refl

trap_clear : (s : ℕ) → s < 4096 → bit_and (child_rflags s) (not64 rflags_trap_flag) ≡ child_rflags s
unfolding trap_is_clear
trap_clear s below =
    let test = all_below-at trap_is_clear 4096 s all_clear below in ground (arith, test)

pub low_flags : (flags : ℕ) → child_rflags flags ≡ child_rflags (flags % 4096)
unfolding child_rflags
low_flags flags =
    let split : flags ≡ flags / 4096 * 2 ^ 12 + flags % 4096 = omega arith in
    let low : flags % 4096 < 2 ^ 12 = omega arith in
    let fields = bit_and_fields 12 (flags / 4096) 0 (flags % 4096) 0xCD5 low (omega arith) in
    let masked : bit_and (flags / 4096 * 2 ^ 12 + flags % 4096) 0xCD5
        ≡ bit_and (flags % 4096) 0xCD5 =
      omega (arith, fields, bit_and-zero (flags / 4096)) in
    ap (λ low_part. bit_or (bit_or low_part 2) 0x200) (ap (λ f. bit_and f 0xCD5) split ∙ masked)

pub child_rflags-untrapped :
    (flags : ℕ) → bit_and (child_rflags flags) (not64 rflags_trap_flag) ≡ child_rflags flags
child_rflags-untrapped flags = rw (low_flags flags) (trap_clear (flags % 4096) (omega arith))

-- A snapshot of the registers that are set has the seed's, with those that the run replaces.
pub snapshot_gpr-child_regs :
    (request : PlatformRunRequest) (ready : ChildReady)
    → length request.seed.gpr ≡ 16
    → (snapshot_gpr (child_regs request ready) no_registers).gpr
      ≡ set
          (set (set request.seed.gpr 7 ready.initial_rsp) 5 (effective_pointer request ready 5))
          4
          (effective_pointer request ready 4)
unfolding snapshot_gpr child_regs gets
snapshot_gpr-child_regs request ready h =
    subst
      (λ gpr.
        (snapshot_gpr (child_regs request ready) no_registers).gpr
        ≡ set (set (set gpr 7 ready.initial_rsp) 5 (effective_pointer request ready 5)) 4
            (effective_pointer request ready 4))
      (gets-all 16 request.seed.gpr h) refl

-- Where the seed and the slots have their sizes, and the top field of the status word is 0, a
-- snapshot of the registers that the child is given is the seed that the run records.
pub snapshot-child_regs :
    (request : PlatformRunRequest) (ready : ChildReady) (fp_regs : UserFpRegs)
    → length request.seed.gpr ≡ 16
    → length request.seed.xmm ≡ 16
    → All (λ seed. length seed ≡ 10) request.seed.st
    → bit_and fp_regs.swd 0xC7FF ≡ fp_regs.swd
    → snapshot (child_regs request ready) (child_fp_regs request.seed fp_regs) no_registers
      ≡ recorded_seed request ready fp_regs
unfolding snapshot snapshot_fpu child_fp_regs recorded_seed seed_controls snapshot_gpr child_regs
snapshot-child_regs request ready fp_regs gprs xmms tens top =
    let gpr = snapshot_gpr-child_regs request ready gprs in
    let flags = child_rflags-untrapped request.seed.rflags in
    let xmm = take-all 16 request.seed.xmm xmms in
    let st =
      snapshot-write_st 8 0 request.seed.fpu_tag_word_abridged request.seed.st fp_regs.st_space
        tens in
    λ i. record {
      gpr = gpr i;
      rip = ready.code_base;
      rflags = flags i;
      xmm = xmm i;
      mxcsr = request.seed.mxcsr;
      st = st i;
      fpu_control_word = request.seed.fpu_control_word;
      fpu_status_word = top i;
      fpu_tag_word_abridged =
          u8 (tag_st 0 request.seed.fpu_tag_word_abridged request.seed.st fp_regs.ftw);
    }
