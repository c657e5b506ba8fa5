-- ===== src/Linux.antt =====
-- The ptrace engine of src/os.linux.cpp: what the parent process calls and how the kernel answers.
-- A system call is answered from all the calls so far, so that a kernel is any behaviour at all;
-- a step of the engine takes and extends that log, and is `none` only while it waits on.
pub mod Holds
pub mod State
pub mod Start
pub mod Steps
pub mod Traced
pub mod Exits
pub mod Refined
pub mod Run
pub mod Ends
pub mod Whole
pub mod Closed
pub mod Bytes
pub mod Worker
pub mod Layout
use bme.Base.{
  ℕ, zero, suc, ◌+◌, ◌-◌, Bool, true, false, ◌&&◌, ◌||◌, Option, none, some, List, [], ◌∷◌, ◌++◌,
  ltb, leb, ◌==◌, if◌then◌else◌, length, drop,
}
pub use bme.Calls.{pure, and_then, ◌>>=◌, ◌>>◌, is_some, when}
use bme.Calls.{Calling}
use bme.Text.{Text, codes}
use bme.Cpu.{has_bit}
use bme.Trace.{FaultAccess, read, write, execute, unknown}

-- `user_regs_struct`, without the segment registers and `orig_rax`, which the engine passes on.
pub record UserRegs : Type 0 where
  pub rax : ℕ
  pub rbx : ℕ
  pub rcx : ℕ
  pub rdx : ℕ
  pub rsi : ℕ
  pub rdi : ℕ
  pub rbp : ℕ
  pub rsp : ℕ
  pub r8 : ℕ
  pub r9 : ℕ
  pub r10 : ℕ
  pub r11 : ℕ
  pub r12 : ℕ
  pub r13 : ℕ
  pub r14 : ℕ
  pub r15 : ℕ
  pub rip : ℕ
  pub eflags : ℕ

-- `user_fpregs_struct`: eight slots of 16 bytes, and 16 pairs of 64-bit words.
pub record UserFpRegs : Type 0 where
  pub cwd : ℕ
  pub swd : ℕ
  pub ftw : ℕ
  pub mxcsr : ℕ
  pub mxcr_mask : ℕ
  pub st_space : List (List ℕ)
  pub xmm_space : List (ℕ × ℕ)

pub data Call : Type 0 where
  pipe : Call
  fork : Call
  close : ℕ → Call
  read_pipe : ℕ → Call
  waitpid : ℕ → Call
  kill : ℕ → Call
  set_options : ℕ → Call
  get_regs : ℕ → Call
  get_fp_regs : ℕ → Call
  set_regs : ℕ → UserRegs → Call
  set_fp_regs : ℕ → UserFpRegs → Call
  single_step : ℕ → Call
  get_siginfo : ℕ → Call
  cont : ℕ → ℕ → Call
  poll : ℕ → Call

-- The calls, the last one first.
abbrev pub Log : Type 0
Log = List Call

-- `WIFSTOPPED` with `WSTOPSIG`, or any other status.
pub data Status : Type 0 where
  stopped_by : ℕ → Status
  ended : Status

pub data WaitReply : Type 0 where
  waited : Status → WaitReply
  interrupted : WaitReply
  wait_failed : WaitReply

pub record SigInfo : Type 0 where
  pub si_code : ℕ
  pub si_addr : ℕ

pub data ChildError : Type 0 where
  no_error : ChildError
  trace : ChildError
  allocation : ChildError
  commit : ChildError
  protect : ChildError
  flush : ChildError
  signal_setup : ChildError

pub record ChildReady : Type 0 where
  pub code_base : ℕ
  pub initial_rsp : ℕ
  pub data_base : ℕ
  pub error : ChildError

pub record FaultReport : Type 0 where
  pub address : ℕ
  pub error_code : ℕ
  pub trap_number : ℕ

-- The answers, each to the log that ends with its call. `read_ready` is what `read_all` leaves of
-- the worker's first report, and `read_report` what one `read` of the fault report gives.
pub record Kernel : Type 0 where
  pub pipe_reply : Log → Option (ℕ × ℕ)
  pub fork_reply : Log → Option ℕ
  pub read_ready : Log → Option ChildReady
  pub read_report : Log → Option FaultReport
  pub wait_reply : Log → WaitReply
  pub succeeds : Log → Bool
  pub regs_reply : Log → Option UserRegs
  pub fp_regs_reply : Log → Option UserFpRegs
  pub siginfo_reply : Log → Option SigInfo

-- The signals and codes of Linux.
abbrev pub sigill : ℕ
sigill = 4

abbrev pub sigtrap : ℕ
sigtrap = 5

abbrev pub sigbus : ℕ
sigbus = 7

abbrev pub sigfpe : ℕ
sigfpe = 8

abbrev pub sigkill : ℕ
sigkill = 9

abbrev pub sigsegv : ℕ
sigsegv = 11

abbrev pub sigstop : ℕ
sigstop = 19

abbrev pub trap_brkpt : ℕ
trap_brkpt = 1

abbrev pub trap_trace : ℕ
trap_trace = 2

abbrev pub si_kernel : ℕ
si_kernel = 0x80

abbrev pub M : Type 0 → Type 0
M = Calling Log

-- A call with an answer of a type.
abbrev pub ask : {A : Type 0} → (Log → A) → Call → M A
ask reply call log = some (reply (call ∷ log), call ∷ log)

-- A call whose answer the engine does not look at.
abbrev pub tell : Call → M (Unit {0})
tell call log = some (tt, call ∷ log)

-- How a program's memory is decoded by Zydis: the parts that the engine reads.
pub data Mnemonic : Type 0 where
  int3 : Mnemonic
  int : Mnemonic
  other_mnemonic : Mnemonic

pub record ZydisInstruction : Type 0 where
  pub mnemonic : Mnemonic
  pub operand_count_visible : ℕ
  pub first_immediate : Option ℕ

pub record Zydis : Type 0 where
  pub decoder_init : Bool
  pub decode_full : List ℕ → Option ZydisInstruction

abbrev is_three : Option ℕ → Bool
is_three none = false
is_three (some value) = value == 3

unfoldable pub is_breakpoint_instruction : ZydisInstruction → Bool
is_breakpoint_instruction i = elim i.mnemonic [
  | int3 ↦ true
  | int ↦ i.operand_count_visible == 1 && is_three i.first_immediate
  | other_mnemonic ↦ false
]

unfoldable pub is_software_breakpoint : Zydis → List ℕ → (code_base address : ℕ) → Bool
is_software_breakpoint zydis code code_base address =
    let offset = address - code_base in
    if ltb address code_base || leb (length code) offset
    then false
    else if zydis.decoder_init
    then elim (zydis.decode_full (drop offset code)) [
      | none ↦ false
      | some instruction ↦ is_breakpoint_instruction instruction
    ]
    else false

-- `(error_code & flag) != 0` for the flags of a page fault, bits 1 and 4.
unfoldable pub classify_fault_access : FaultReport → ℕ → FaultAccess
classify_fault_access report expected_address =
    if report.address == expected_address && report.trap_number == 14
    then (if has_bit report.error_code 4
        then execute
        else if has_bit report.error_code 1
        then write
        else read)
    else unknown

unfoldable pub fault_name : ℕ → Text
fault_name signal =
    if signal == sigill
    then codes "Illegal instruction"
    else if signal == sigfpe
    then codes "Floating-point exception"
    else if signal == sigsegv
    then codes "Access violation"
    else if signal == sigbus
    then codes "Bus error"
    else if signal == sigtrap
    then codes "Trap signal"
    else codes "Signal"

unfoldable pub child_error_name : ChildError → Text
child_error_name trace = codes "ptrace worker setup failed."
child_error_name allocation = codes "Memory allocation failed."
child_error_name commit = codes "Memory commit failed."
child_error_name protect = codes "Memory protection failed."
child_error_name flush = codes "Instruction-cache flush failed."
child_error_name signal_setup = codes "Fault-report handler setup failed."
child_error_name no_error = codes "Unknown worker setup failure."

module _ (kernel : Kernel) where
  -- `patience` bounds how often in a row a wait is interrupted.
  unfoldable pub wait_for_child : (patience child : ℕ) → M (Option Status)
  wait_for_child zero child log = none
  wait_for_child (suc patience) child log = elim (kernel.wait_reply (waitpid child ∷ log)) [
    | waited status ↦ some (some status, waitpid child ∷ log)
    | interrupted ↦ wait_for_child patience child (waitpid child ∷ log)
    | wait_failed ↦ some (none, waitpid child ∷ log)
  ]

  unfoldable pub terminate_child : (patience child : ℕ) → M (Unit {0})
  terminate_child patience child =
      if child == 0 then pure tt else tell (kill child) >> wait_for_child patience child >> pure tt

  unfoldable pub collect_fault_report : (child descriptor signal : ℕ) → M (Option FaultReport)
  collect_fault_report child descriptor signal =
      ask kernel.succeeds (cont child signal) >>= λ continued. when continued (
        ask kernel.succeeds (poll descriptor) >>= λ polled.
        when polled (ask kernel.read_report (read_pipe descriptor)))
