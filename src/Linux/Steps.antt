-- ===== src/Linux/Steps.antt =====
-- The single-step loop of `run_platform_steps` in src/os.linux.cpp.
use bme.Base.{
  ℕ, zero, suc, ◌+◌, Bool, true, false, ◌&&◌, ◌||◌, not, Option, none, some, [], ◌∷◌, ◌++◌, ltb,
  leb, ◌==◌, if◌then◌else◌, length, min,
}
use bme.Base.Words.{u64}
use bme.Text.{Text, codes}
use bme.Seed.Compose.{Registers}
use bme.Trace.{error, finished, faulted, stopped, aborted_cap, FaultAccess, unknown}
use bme.Platform.{PlatformStep, PlatformRunRequest, PlatformRunResult, max_steps_limit}
use bme.Linux.{
  ended, Status, stopped_by, SigInfo, ChildReady, FaultReport, Kernel, Zydis, M, pure, ask, tell,
  ◌>>=◌, ◌>>◌, close, single_step, get_siginfo, sigtrap, sigsegv, sigbus, trap_brkpt, trap_trace,
  si_kernel, is_software_breakpoint, classify_fault_access, fault_name, wait_for_child,
  terminate_child, collect_fault_report,
}
use bme.Linux.State.{read_snapshot}

-- What one round of the loop does: it returns a result, or goes on at an address.
pub data Round : Type 0 where
  returned : PlatformRunResult → Round
  going : ℕ → PlatformRunResult → Round

abbrev pub after_round : (ℕ → PlatformRunResult → M PlatformRunResult) → Round → M PlatformRunResult
after_round loop (returned result) = pure result
after_round loop (going rip result) = loop rip result

unfoldable pub step_cap : PlatformRunRequest → ℕ
step_cap request = min (if request.max_steps == 0 then 1 else request.max_steps) max_steps_limit

unfoldable pub run_code_end : PlatformRunRequest → ChildReady → ℕ
run_code_end request ready = u64 (ready.code_base + length request.code)

abbrev target_of : Option ℕ → ℕ → Option ℕ
target_of none base = none
target_of (some offset) base = some (u64 (base + offset))

-- The target address, where there is one.
unfoldable pub target_address : PlatformRunRequest → ChildReady → Option ℕ
target_address request ready = target_of request.stop_offset ready.code_base

abbrev pub at_target : Option ℕ → ℕ → Bool
at_target none rip = false
at_target (some target) rip = rip == target

unfoldable pub breakpoint_signal : ℕ → SigInfo → Bool
breakpoint_signal signal info =
    signal == sigtrap && (info.si_code == trap_brkpt || info.si_code == si_kernel)

-- A single-step trap, or a breakpoint-class stop after the instruction moved on.
unfoldable pub completed_trap : ℕ → SigInfo → (previous_rip rip : ℕ) → Bool
completed_trap signal info previous_rip rip =
    signal == sigtrap && info.si_code == trap_trace
    || breakpoint_signal signal info && not (rip == previous_rip)

abbrev pub completed_step : ℕ → Registers → PlatformStep
completed_step rip snapshot = record { rip = rip; registers = snapshot; is_fault = false }

abbrev pub faulted_step : Registers → PlatformStep
faulted_step snapshot = record { rip = snapshot.rip; registers = snapshot; is_fault = true }

abbrev pub add_step : PlatformRunResult → PlatformStep → PlatformRunResult
add_step result step = record result { steps = result.steps ++ step ∷ [] }

abbrev pub failed_result : PlatformRunResult → Text → PlatformRunResult
failed_result result text = record result { outcome = error; error_text = text }

-- The result of a fault, before its report.
unfoldable pub fault_result : PlatformRunResult → ℕ → Registers → PlatformRunResult
fault_result result signal snapshot = record (add_step result (faulted_step snapshot)) {
  outcome = faulted;
  fault_name = fault_name signal;
  stop_address = snapshot.rip;
}

abbrev access_of : Option FaultReport → ℕ → FaultAccess
access_of none address = unknown
access_of (some report) address = classify_fault_access report address

-- The result with the memory that the fault was at, and its access.
unfoldable pub memory_fault : PlatformRunResult → SigInfo → Option FaultReport → PlatformRunResult
memory_fault result info report = record result {
  fault_memory_address = some info.si_addr;
  fault_access = access_of report info.si_addr;
}

module _ (kernel : Kernel) (patience child descriptor : ℕ) where
  unfoldable pub finish : {A : Type 0} → A → M A
  finish a = terminate_child kernel patience child >> tell (close descriptor) >> pure a

module _ (kernel : Kernel) (zydis : Zydis) (patience child descriptor : ℕ)
    (request : PlatformRunRequest) (ready : ChildReady) where
  unfoldable pub fail : PlatformRunResult → Text → M Round
  fail result text = finish kernel patience child descriptor (returned (failed_result result text))

  -- A completed step, and whether it is the last one.
  unfoldable pub complete_step : (previous_rip : ℕ) → PlatformRunResult → Registers → M Round
  complete_step previous_rip result snapshot =
      let result' = add_step result (completed_step previous_rip snapshot) in
      if at_target (target_address request ready) snapshot.rip
      then finish kernel patience child descriptor (
          returned (record result' {
            outcome = stopped;
            stop_address = snapshot.rip;
            stopped_at_target = true;
          }))
      else if ltb snapshot.rip ready.code_base || leb (run_code_end request ready) snapshot.rip
      then finish kernel patience child descriptor
          (returned (record result' { outcome = finished }))
      else if leb (step_cap request) (length result'.steps)
      then finish kernel patience child descriptor
          (returned (record result' { outcome = aborted_cap }))
      else pure (going snapshot.rip result')

  unfoldable pub fault_step : ℕ → SigInfo → PlatformRunResult → Registers → M Round
  fault_step signal info result snapshot =
      let result' = fault_result result signal snapshot in
      if signal == sigsegv || signal == sigbus
      then (collect_fault_report kernel child descriptor signal >>= λ report.
          finish kernel patience child descriptor (returned (memory_fault result' info report)))
      else finish kernel patience child descriptor (returned result')

  unfoldable pub after_snapshot :
      (previous_rip : ℕ) → PlatformRunResult → ℕ → SigInfo → Option Registers → M Round
  after_snapshot previous_rip result signal info none =
      fail result (codes "ptrace register read failed.")
  after_snapshot previous_rip result signal info (some snapshot) =
      if breakpoint_signal signal info
        && is_software_breakpoint zydis request.code ready.code_base previous_rip
      then finish kernel patience child descriptor
          (returned (record result { outcome = stopped; stop_address = previous_rip }))
      else if signal == sigtrap && completed_trap signal info previous_rip snapshot.rip
      then complete_step previous_rip result snapshot
      else fault_step signal info result snapshot

  unfoldable pub after_siginfo :
      (previous_rip : ℕ) → PlatformRunResult → ℕ → Option SigInfo → M Round
  after_siginfo previous_rip result signal none = fail result (codes "ptrace signal info failed.")
  after_siginfo previous_rip result signal (some info) = read_snapshot kernel child >>= λ snapshot.
      after_snapshot previous_rip result signal info snapshot

  unfoldable pub after_wait : (previous_rip : ℕ) → PlatformRunResult → Option Status → M Round
  after_wait previous_rip result none = fail result (codes "ptrace worker wait failed.")
  after_wait previous_rip result (some ended) = finish kernel patience child descriptor (
      returned (record (failed_result result (codes "ptrace worker exited unexpectedly.")) {
        stop_address = previous_rip;
      }))
  after_wait previous_rip result (some (stopped_by signal)) =
      ask kernel.siginfo_reply (get_siginfo child) >>= λ info.
      after_siginfo previous_rip result signal info

  unfoldable pub step_round : (previous_rip : ℕ) → PlatformRunResult → M Round
  step_round previous_rip result = ask kernel.succeeds (single_step child) >>= λ stepped.
      if stepped
      then (wait_for_child kernel patience child >>= λ status.
          after_wait previous_rip result status)
      else fail result (codes "ptrace single-step failed.")

  -- `fuel` bounds the rounds.
  unfoldable pub step_loop : (fuel previous_rip : ℕ) → PlatformRunResult → M PlatformRunResult
  step_loop zero previous_rip result log = none
  step_loop (suc fuel) previous_rip result log =
      (step_round previous_rip result >>= after_round (step_loop fuel)) log
