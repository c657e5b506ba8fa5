-- ===== src/Windows.antt =====
-- The engine of src/os.windows.cpp: its state, and the vectored exception handler that records the
-- steps of the sandboxed thread.
pub mod Thread
pub mod Run
pub mod Handled
pub mod Traced
pub mod Start
pub mod Released
pub mod Ends
pub mod Placed
pub mod Whole
pub mod Recorded
pub mod Processes
use Prim.Native.Nat.{bit_and, bit_or}
use bme.Base.{
  ℕ, ◌+◌, Bool, true, false, ◌&&◌, ◌||◌, not, Option, none, some, List, [], ◌∷◌, ◌++◌, ltb, leb,
  ◌==◌, if◌then◌else◌, length, map, take, get_or,
}
use bme.Base.Words.{u64, not64}
use bme.Text.{Text, codes}
use bme.Seed.Compose.{Registers}
use bme.Trace.{
  Outcome, finished, faulted, stopped, aborted_cap, FaultAccess, no_access, read, write, execute,
  unknown,
}
use bme.Platform.{no_registers, rflags_trap_flag}
use bme.Linux.{UserRegs, UserFpRegs}
use bme.Linux.State.{snapshot_gpr}

-- `CONTEXT`: its registers, the FXSAVE area, which both systems lay out alike, and MXCSR beside it.
pub record Context : Type 0 where
  pub regs : UserRegs
  pub flt_save : UserFpRegs
  pub mx_csr : ℕ

pub record ExceptionRecord : Type 0 where
  pub exception_code : ℕ
  pub exception_address : ℕ
  pub parameters : List ℕ

pub record RawStep : Type 0 where
  pub rip : ℕ
  pub registers : Registers

pub record VehEngine : Type 0 where
  pub base : ℕ
  pub code_length : ℕ
  pub max_steps : ℕ
  pub target_at : ℕ
  pub has_target : Bool
  pub thread_id : ℕ
  pub previous_rip : ℕ
  pub saved_context : Context
  pub active : Bool
  pub raw_steps : List RawStep
  pub outcome : Outcome
  pub fault_code : ℕ
  pub fault_address : ℕ
  pub fault_memory_address : Option ℕ
  pub fault_access : FaultAccess
  pub fault_registers : Registers
  pub stopped_at_target : Bool

-- The exception codes of Windows.
abbrev pub exception_single_step : ℕ
exception_single_step = 0x8000_0004

abbrev pub exception_breakpoint : ℕ
exception_breakpoint = 0x8000_0003

abbrev pub exception_access_violation : ℕ
exception_access_violation = 0xC000_0005

abbrev pub exception_in_page_error : ℕ
exception_in_page_error = 0xC000_0006

-- The names in the order of the `switch`, by exception code.
abbrev exception_names : List (ℕ × Text)
exception_names =
    (0xC000_0005, codes "Access violation")
    ∷ (0xC000_001D, codes "Illegal instruction")
    ∷ (0xC000_0096, codes "Privileged instruction")
    ∷ (0xC000_0094, codes "Divide by zero")
    ∷ (0xC000_0095, codes "Integer overflow")
    ∷ (0xC000_00FD, codes "Stack overflow")
    ∷ (0x8000_0002, codes "Misaligned access")
    ∷ (0x8000_0003, codes "Breakpoint (int3)")
    ∷ (0xC000_0006, codes "In-page error")
    ∷ (0x8000_0001, codes "Guard page violation")
    ∷ (0xC000_008C, codes "Array bounds exceeded")
    ∷ (0xC000_008E, codes "FP divide by zero")
    ∷ (0xC000_0090, codes "FP invalid operation")
    ∷ (0xC000_0091, codes "FP overflow")
    ∷ (0xC000_0093, codes "FP underflow")
    ∷ (0xC000_008F, codes "FP inexact result")
    ∷ (0xC000_008D, codes "FP denormal operand")
    ∷ (0xC000_0092, codes "FP stack check")
    ∷ (0xC000_0025, codes "Noncontinuable exception")
    ∷ (0xC000_0026, codes "Invalid disposition")
    ∷ []

abbrev name_in : List (ℕ × Text) → ℕ → Text
name_in [] code = codes "Exception"
name_in ((named, name) ∷ names) code =
    let rest = name_in names code in if code == named then name else rest

unfoldable pub exception_name : ℕ → Text
exception_name code = name_in exception_names code

-- `Engine::snapshot_fpu`
unfoldable pub context_fpu : Context → Registers → Registers
context_fpu context target = record target {
  xmm = take 16 context.flt_save.xmm_space;
  st = map (take 10) (take 8 context.flt_save.st_space);
  mxcsr = context.mx_csr;
  fpu_control_word = context.flt_save.cwd;
  fpu_status_word = context.flt_save.swd;
  fpu_tag_word_abridged = context.flt_save.ftw;
}

-- `Engine::snapshot` of a new `Registers`.
unfoldable pub context_snapshot : Context → Registers
context_snapshot context = context_fpu context (snapshot_gpr context.regs no_registers)

unfoldable pub trap : Context → Context
trap context = record context {
  regs = record context.regs { eflags = bit_or context.regs.eflags rflags_trap_flag };
}

unfoldable pub add_raw_step : VehEngine → Context → VehEngine
add_raw_step engine context = record engine {
  raw_steps =
      engine.raw_steps
      ++ record { rip = engine.previous_rip; registers = context_snapshot context } ∷ [];
}

-- A single step: it is recorded, and it is the last one or the next is trapped.
unfoldable pub veh_single_step : VehEngine → Context → Context × VehEngine
veh_single_step engine context =
    let next_rip = context.regs.rip in
    let engine' = add_raw_step engine context in
    if engine.has_target && next_rip == engine.target_at
    then (
      engine.saved_context,
      record engine' { outcome = stopped; fault_address = next_rip; stopped_at_target = true },
    )
    else if ltb next_rip engine.base || leb (u64 (engine.base + engine.code_length)) next_rip
    then (engine.saved_context, record engine' { outcome = finished })
    else if leb engine.max_steps (length engine'.raw_steps)
    then (engine.saved_context, record engine' { outcome = aborted_cap })
    else (trap context, record engine' { previous_rip = next_rip })

unfoldable pub veh_breakpoint : VehEngine → Context × VehEngine
veh_breakpoint engine =
    (engine.saved_context, record engine { outcome = stopped; fault_address = engine.previous_rip })

unfoldable pub exception_access : ℕ → FaultAccess
exception_access information =
    if information == 0
    then read
    else if information == 1
    then write
    else if information == 8
    then execute
    else unknown

-- What an exception says of the memory it was at: parameters 0 and 1 of an access to memory.
unfoldable pub veh_memory : ExceptionRecord → VehEngine → VehEngine
veh_memory exception engine =
    if (exception.exception_code == exception_access_violation
        || exception.exception_code == exception_in_page_error)
      && leb 2 (length exception.parameters)
    then record engine {
      fault_memory_address = some (get_or exception.parameters 1 0);
      fault_access = exception_access (get_or exception.parameters 0 0);
    }
    else engine

unfoldable pub veh_fault : ExceptionRecord → VehEngine → Context → Context × VehEngine
veh_fault exception engine context =
    let engine' = veh_memory exception (record engine {
      outcome = faulted;
      fault_code = exception.exception_code;
      fault_address = exception.exception_address;
    }) in
    (engine.saved_context, record engine' { fault_registers = context_snapshot context })

unfoldable pub veh_handle : ExceptionRecord → VehEngine → Context → Context × VehEngine
veh_handle exception engine context =
    if exception.exception_code == exception_single_step
    then veh_single_step engine context
    else if exception.exception_code == exception_breakpoint
    then veh_breakpoint engine
    else veh_fault exception engine context

-- The disposition of an exception: the search for a handler goes on, or the thread does.
pub data Disposition : Type 0 where
  continue_search : Disposition
  continue_execution : Disposition

-- The handler, in a thread, with the engine that there may be.
unfoldable pub bme_veh :
    (current_thread : ℕ)
    → ExceptionRecord
    → Context
    → Option VehEngine
    → Disposition × Context × Option VehEngine
bme_veh current_thread exception context none = (continue_search, context, none)
bme_veh current_thread exception context (some engine) =
    let handled = veh_handle exception engine context in
    if not engine.active || not (current_thread == engine.thread_id)
    then (continue_search, context, some engine)
    else (continue_execution, handled.0, some handled.1)
