-- ===== src/Platform.antt =====
-- What the engines share, src/os.hpp and src/os.cpp: a run's request and result, its checks, and
-- the scratch memory.
use Prim.Native.Nat.{bit_and}
use bme.Base.{
  ℕ, ◌+◌, ◌-◌, Bool, true, false, ◌||◌, Option, none, some, List, [], leb, if◌then◌else◌, length,
  get_or, replicate,
}
use bme.Base.Words.{u64, not64}
use bme.Text.{Text, codes, is_empty}
use bme.Seed.Compose.{Registers, default_fpu_control_word}
use bme.Seed.{default_mxcsr}
use bme.Trace.{Outcome, idle, error, finished, FaultAccess, no_access}

abbrev pub scratch_stack_bytes : ℕ
scratch_stack_bytes = 0x10000

abbrev pub scratch_stack_headroom : ℕ
scratch_stack_headroom = 0x100

abbrev pub scratch_data_bytes : ℕ
scratch_data_bytes = 0x10000

abbrev pub scratch_data_reserve_base : ℕ
scratch_data_reserve_base = 0x1000_0000

-- `CF | PF | AF | ZF | SF | DF | OF`
abbrev pub rflags_status_mask : ℕ
rflags_status_mask = 0xCD5

abbrev pub rflags_trap_flag : ℕ
rflags_trap_flag = 0x100

abbrev pub rflags_interrupt_flag : ℕ
rflags_interrupt_flag = 0x200

abbrev pub rflags_reserved_bit1 : ℕ
rflags_reserved_bit1 = 2

abbrev pub mxcsr_fallback_mask : ℕ
mxcsr_fallback_mask = 0xFFBF

abbrev pub max_steps_limit : ℕ
max_steps_limit = 1_000_000

abbrev pub instrumentation_refusal : Text
instrumentation_refusal =
    codes
      "Running under an emulator or instrumentation layer. Native single-step tracing is unavailable."

-- A new `Registers`.
abbrev pub no_registers : Registers
no_registers = record {
  gpr = replicate 16 0;
  rip = 0;
  rflags = 0;
  xmm = replicate 16 (0, 0);
  mxcsr = default_mxcsr;
  st = replicate 8 (replicate 10 0);
  fpu_control_word = default_fpu_control_word;
  fpu_status_word = 0;
  fpu_tag_word_abridged = 0;
}

pub record PlatformStep : Type 0 where
  pub rip : ℕ
  pub registers : Registers
  pub is_fault : Bool

pub record PlatformRunRequest : Type 0 where
  pub code : List ℕ
  pub seed : Registers
  pub max_steps : ℕ
  pub stop_offset : Option ℕ
  pub seed_data_pointers : Bool

pub record PlatformRunResult : Type 0 where
  pub seed : Registers
  pub steps : List PlatformStep
  pub outcome : Outcome
  pub instrumentation_detected : Bool
  pub fault_name : Text
  pub error_text : Text
  pub stop_address : ℕ
  pub fault_memory_address : Option ℕ
  pub fault_access : FaultAccess
  pub stopped_at_target : Bool

-- A new result, with the seed of the request.
abbrev pub new_result : Registers → PlatformRunResult
new_result seed = record {
  seed = seed;
  steps = [];
  outcome = finished;
  instrumentation_detected = false;
  fault_name = [];
  error_text = [];
  stop_address = 0;
  fault_memory_address = none;
  fault_access = no_access;
  stopped_at_target = false;
}

-- `std::getenv`.
abbrev pub Environment : Type 0
Environment = Text → Option Text

unfoldable pub environment_present : Environment → Text → Bool
environment_present getenv name =
    if is_empty name then false else elim (getenv name) [ none ↦ false | some value ↦ true ]

unfoldable pub instrumentation_detected : Environment → Bool
instrumentation_detected getenv =
    environment_present getenv (codes "SDE_COMMAND_LINE")
    || environment_present getenv (codes "PIN_COMMAND_LINE")

-- The offset of a stop is in the code.
abbrev pub stop_in_code : Option ℕ → ℕ → Bool
stop_in_code none size = true
stop_in_code (some offset) size = if leb size offset then false else true

-- `detected`: what `instrumentation_detected` of the system says.
unfoldable pub prepare_platform_run :
    (detected : Bool) → PlatformRunRequest → Bool × PlatformRunResult
prepare_platform_run detected request =
    let result = new_result request.seed in
    if is_empty request.code
    then (false, record result { outcome = idle; error_text = codes "No code to run." })
    else if stop_in_code request.stop_offset (length request.code)
    then (if detected
        then (
          false,
          record result {
            outcome = error;
            instrumentation_detected = true;
            error_text = instrumentation_refusal;
          },
        )
        else (true, result))
    else (
      false,
      record result { outcome = error; error_text = codes "Stop offset is outside the input." },
    )

-- The page sizes of the system; `vm_page_size` and `vm_allocation_granularity`.
pub record PageSizes : Type 0 where
  pub page_size : ℕ
  pub granularity : ℕ

unfoldable pub scratch_reserve_base : PageSizes → ℕ
scratch_reserve_base sizes = bit_and scratch_data_reserve_base (not64 (sizes.granularity - 1))

unfoldable pub scratch_data_base : PageSizes → ℕ
scratch_data_base sizes = u64 (scratch_reserve_base sizes + sizes.page_size)

-- `registers[reg]` for a general-purpose register, read and written.
abbrev pub gpr_at : Registers → ℕ → ℕ
gpr_at registers reg = get_or registers.gpr reg 0
