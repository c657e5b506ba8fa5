-- ===== src/Linux/Run.antt =====
-- `run_platform_steps` of src/os.linux.cpp, in the parent: a worker is started, given the seed's
-- registers and stepped. Here the worker is what it reports; its own code is in Linux/Worker.
use bme.Base.{ℕ, zero, suc, Bool, true, false, Option, none, some, ◌==◌, if◌then◌else◌}
use bme.Text.{Text, codes}
use bme.Trace.{stopped}
use bme.Platform.{
  PlatformRunRequest, PlatformRunResult, Environment, prepare_platform_run,
  instrumentation_detected,
}
use bme.Linux.{
  pipe, fork, close, read_pipe, set_options, get_regs, get_fp_regs, set_regs, set_fp_regs,
  stopped_by, ended, no_error, Status, UserRegs, UserFpRegs, ChildReady, ChildError, Kernel, Zydis,
  M, pure, ask, tell, ◌>>=◌, ◌>>◌, when, is_some, sigstop, child_error_name, wait_for_child,
}
use bme.Linux.State.{mxcsr_unsupported, child_fp_regs, child_regs, recorded_seed}
use bme.Linux.Steps.{failed_result, finish, step_cap, step_loop}

-- `PTRACE_SETREGS` and, where it succeeds, `PTRACE_SETFPREGS`.
unfoldable pub set_both : Kernel → (child : ℕ) → UserRegs → UserFpRegs → M Bool
set_both kernel child regs fp_regs = ask kernel.succeeds (set_regs child regs) >>= λ done.
    if done then ask kernel.succeeds (set_fp_regs child fp_regs) else pure false

unfoldable pub is_setup_error : ChildError → Bool
is_setup_error no_error = false
is_setup_error _ = true

-- `WIFSTOPPED(status) && WSTOPSIG(status) == SIGSTOP`
unfoldable pub is_sigstop : Status → Bool
is_sigstop (stopped_by signal) = signal == sigstop
is_sigstop ended = false

abbrev pub stops_at_start : Option ℕ → Bool
stops_at_start none = false
stops_at_start (some offset) = offset == 0

module _ (kernel : Kernel) (zydis : Zydis) (patience child descriptor : ℕ)
    (request : PlatformRunRequest) where
  unfoldable pub fail_run : PlatformRunResult → Text → M PlatformRunResult
  fail_run result text = finish kernel patience child descriptor (failed_result result text)

  -- With the child's registers set: the stop at the first instruction, or the loop.
  unfoldable pub run_worker : ChildReady → PlatformRunResult → M PlatformRunResult
  run_worker ready result =
      if stops_at_start request.stop_offset
      then finish kernel patience child descriptor (record result {
        outcome = stopped;
        stop_address = ready.code_base;
        stopped_at_target = true;
      })
      else step_loop kernel zydis patience child descriptor request ready (step_cap request)
          ready.code_base result

  unfoldable pub seed_worker :
      ChildReady → PlatformRunResult → Option UserRegs → Option UserFpRegs → M PlatformRunResult
  seed_worker ready result (some regs) (some fp_regs) =
      if mxcsr_unsupported request.seed fp_regs
      then fail_run result (codes "MXCSR seed contains bits unsupported by this CPU.")
      else (let result' = record result { seed = recorded_seed request ready fp_regs } in
          set_both kernel child (child_regs request ready) (child_fp_regs request.seed fp_regs)
          >>= λ done.
              if done
              then run_worker ready result'
              else fail_run result' (codes "ptrace register set failed."))
  seed_worker ready result _ _ = fail_run result (codes "ptrace register read failed.")

  unfoldable pub stopped_worker : ChildReady → PlatformRunResult → M PlatformRunResult
  stopped_worker ready result = ask kernel.succeeds (set_options child) >>= λ done.
      if done
      then (ask kernel.regs_reply (get_regs child) >>= λ regs.
          when (is_some regs) (ask kernel.fp_regs_reply (get_fp_regs child)) >>= λ fp_regs.
          seed_worker ready result regs fp_regs)
      else fail_run result (codes "ptrace options failed.")

  unfoldable pub waited_worker :
      ChildReady → PlatformRunResult → Option Status → M PlatformRunResult
  waited_worker ready result none = fail_run result (codes "ptrace worker wait failed.")
  waited_worker ready result (some status) =
      if is_setup_error ready.error
      then tell (close descriptor) >> pure (failed_result result (child_error_name ready.error))
      else if is_sigstop status
      then stopped_worker ready result
      else fail_run result (codes "ptrace worker did not stop.")

  unfoldable pub ready_worker : PlatformRunResult → Option ChildReady → M PlatformRunResult
  ready_worker result none = fail_run result (codes "ptrace worker startup failed.")
  ready_worker result (some ready) =
      wait_for_child kernel patience child >>= λ status. waited_worker ready result status

module _ (kernel : Kernel) (getenv : Environment) (zydis : Zydis) (patience : ℕ)
    (request : PlatformRunRequest) where
  -- After `fork`: the child, process 0, never returns from here.
  unfoldable pub forked : (reader writer : ℕ) → PlatformRunResult → Option ℕ → M PlatformRunResult
  forked reader writer result none =
      tell (close reader)
      >> tell (close writer)
      >> pure (failed_result result (codes "ptrace worker fork failed."))
  forked reader writer result (some zero) = λ log. none
  forked reader writer result (some (suc pid)) =
      tell (close writer) >> ask kernel.read_ready (read_pipe reader) >>= λ ready.
      ready_worker kernel zydis patience (suc pid) reader request result ready

  unfoldable pub piped : PlatformRunResult → Option (ℕ × ℕ) → M PlatformRunResult
  piped result none = pure (failed_result result (codes "ptrace worker pipe failed."))
  piped result (some (reader, writer)) =
      ask kernel.fork_reply fork >>= λ child. forked reader writer result child

  unfoldable pub run_platform_steps : M PlatformRunResult
  run_platform_steps =
      let (prepared, result) = prepare_platform_run (instrumentation_detected getenv) request in
      if prepared then (ask kernel.pipe_reply pipe >>= λ ends. piped result ends) else pure result
