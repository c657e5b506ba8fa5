-- ===== src/Examples/Runs.antt =====
-- Runs of the engine's model on a small kernel, and the theorems on runs at concrete inputs.
use bme.Base.{
  ◌^◌, ℕ, zero, suc, Bool, true, false, ◌⊎◌, Option, none, some, List, [], ◌∷◌, ◌≡◌, refl, sym, ap,
  All-replicate, ◌==◌, if◌then◌else◌, map, length, replicate, arith,
}
use bme.Text.{Text, codes}
use bme.Platform.{
  prepare_platform_run, instrumentation_detected, environment_present, scratch_data_base,
  scratch_reserve_base,
}
use bme.Linux.{wait_for_child, terminate_child, child_error_name, is_software_breakpoint}
use bme.Linux.Run.{
  run_platform_steps, piped, forked, ready_worker, waited_worker, is_setup_error, is_sigstop,
  stopped_worker, seed_worker, set_both, run_worker, fail_run,
}
use bme.Linux.State.{
  mxcsr_unsupported, mxcsr_mask, child_fp_regs, child_regs, child_rflags, effective_pointer,
  read_snapshot, record_st, recorded_seed, seed_controls, snapshot, snapshot_both, snapshot_fpu,
  snapshot_gpr, tag_st, write_st,
}
use bme.Linux.Steps.{
  after_siginfo, after_snapshot, after_wait, breakpoint_signal, run_code_end, complete_step,
  completed_trap, finish, step_cap, step_loop, step_round, target_address,
}
use bme.Engine.{
  run_engine, platform_request, describe_outcome, effective_max_steps, engine_trace, executed_count,
  new_trace, next_rip, step_event,
}
use bme.Hex.{hex_chars, hex_digit}
use bme.Trace.{Trace, zydis, intel}
use bme.Platform.{no_registers, PlatformRunRequest, PageSizes, Environment}
use bme.Linux.{
  UserRegs, UserFpRegs, waitpid, single_step, Log, stopped_by, WaitReply, waited, interrupted,
  no_error, ChildReady, Kernel, Zydis, sigstop, sigtrap,
}
use bme.Linux.Holds.{Returns}
use bme.Linux.Start.{snapshot-child_regs}
use bme.Linux.Whole.{RunEnds, IsPatient, run_platform_steps-Returns}
use bme.Linux.Worker.{WorkerKernel, round_up, child_main}
use bme.Linux.Layout.{Reports, child_main-Reports}
use bme.Linux.Bytes.{
  got, read_interrupted, took, write_interrupted, done, read_all, write_all, read_all-write_all,
}
use bme.Cpu.{CpuQuerySource, query_cpu_fingerprint}
use bme.Cpu.Summary.{format_cpu_summary}
use bme.Linux.Closed.{Leaves, run_platform_steps-Leaves}
use bme.Engine.{EngineRequest}
use bme.Engine.Address.{Fmt}
use bme.Engine.Owed.{IsRecorded}
use bme.Engine.Recorded.{run_engine-IsRecorded}

-- `inc rax; nop`, at 0x1000.
abbrev pub two_instructions : List ℕ
two_instructions = 0x48 ∷ 0xFF ∷ 0xC0 ∷ 0x90 ∷ []

abbrev steps_in : Log → ℕ
steps_in [] = 0
steps_in (single_step child ∷ log) = suc (steps_in log)
steps_in (_ ∷ log) = steps_in log

abbrev rip_after : ℕ → ℕ
rip_after zero = 0x1000
rip_after (suc zero) = 0x1003
rip_after _ = 0x1004

abbrev regs_after : ℕ → UserRegs
regs_after n = record {
  rax = n;
  rbx = 0;
  rcx = 0;
  rdx = 0;
  rsi = 0;
  rdi = 0;
  rbp = 0;
  rsp = 0x8000;
  r8 = 0;
  r9 = 0;
  r10 = 0;
  r11 = 0;
  r12 = 0;
  r13 = 0;
  r14 = 0;
  r15 = 0;
  rip = rip_after n;
  eflags = 0x302;
}

abbrev pub new_fp_regs : UserFpRegs
new_fp_regs = record {
  cwd = 0x37F;
  swd = 0;
  ftw = 0;
  mxcsr = 0x1F80;
  mxcr_mask = 0xFFFF;
  st_space = replicate 8 (replicate 16 0);
  xmm_space = replicate 16 (0, 0);
}

abbrev pub small_ready : ChildReady
small_ready = record {
  code_base = 0x1000;
  initial_rsp = 0x8000;
  data_base = 0x9000;
  error = no_error;
}

-- Every other wait is interrupted.
abbrev small_wait : Log → WaitReply
small_wait (waitpid child ∷ waitpid _ ∷ log) =
    waited (stopped_by (if steps_in log == 0 then sigstop else sigtrap))
small_wait _ = interrupted

abbrev pub small_kernel : Kernel
small_kernel = record {
  pipe_reply = λ log. some (3, 4);
  fork_reply = λ log. some 7;
  read_ready = λ log. some small_ready;
  read_report = λ log. none;
  wait_reply = small_wait;
  succeeds = λ log. true;
  regs_reply = λ log. some (regs_after (steps_in log));
  fp_regs_reply = λ log. some new_fp_regs;
  siginfo_reply = λ log. some (record { si_code = 2; si_addr = 0 });
}

abbrev pub no_environment : Environment
no_environment name = none

abbrev pub no_zydis : Zydis
no_zydis = record { decoder_init = false; decode_full = λ bytes. none }

abbrev pub small_request : PlatformRunRequest
small_request = record {
  code = two_instructions;
  seed = no_registers;
  max_steps = 10;
  stop_offset = none;
  seed_data_pointers = true;
}

abbrev same_ends : Option (ℕ × ℕ) → Bool
same_ends none = true
same_ends (some (reader, writer)) = writer == reader

abbrev is_interrupted : WaitReply → Bool
is_interrupted interrupted = true
is_interrupted _ = false

abbrev process_of : Option ℕ → ℕ
process_of none = 0
process_of (some child) = child

pub small_kernel-IsPatient : IsPatient small_kernel 2
small_kernel-IsPatient = record {
  distinct = λ reader writer e. ap same_ends (sym e);
  parent = λ e. let seven : 7 ≡ 0 = ap process_of e in omega arith;
  answers = λ child log e e'. let never : false ≡ true = ap is_interrupted e' in ground arith;
}

abbrev pub small_fmt : Fmt
small_fmt = record { number = λ n. codes "#"; hex = λ width value. hex_chars 4 value }

abbrev pub small_pages : PageSizes
small_pages = record { page_size = 4096; granularity = 4096 }

abbrev pub small_engine_request : EngineRequest
small_engine_request = record {
  code = two_instructions;
  seed = no_registers;
  max_steps = 10;
  backend = zydis;
  syntax = intel;
  seed_data_pointers = true;
  stop_offset = none;
}

abbrev small_run : EngineRequest → Option (Trace × Log)
small_run request =
    run_engine small_fmt small_pages small_kernel no_environment no_zydis 2 request []

abbrev summary : Option (Trace × Log) → List ℕ × Text × Text
summary none = ([], [], [])
summary (some (trace, log)) =
    (map (λ event. event.rip) trace.execution_events, trace.message, trace.stop_reason)

-- The run to the end, the stop at a target, and the cap of one step.
outcomes :
    map
      (λ request. summary (small_run request))
      (small_engine_request
        ∷ record small_engine_request { stop_offset = some 3 }
        ∷ record small_engine_request { max_steps = 0 }
        ∷ [])
    ≡ (0x1000 ∷ 0x1003 ∷ [], codes "Finished - # executed.", codes "Reached end of input")
      ∷ (
        0x1000 ∷ [],
        codes "Stopped at selected row (0x1003) - # executed.",
        codes "Stopped here - selected row",
      )
      ∷ (0x1000 ∷ [], codes "Hit step cap (# executed).", codes "Not reached - Step cap reached")
      ∷ []
unfolding prepare_platform_run instrumentation_detected environment_present scratch_data_base
    scratch_reserve_base wait_for_child terminate_child child_error_name is_software_breakpoint
    run_platform_steps piped forked ready_worker waited_worker is_setup_error is_sigstop
    stopped_worker seed_worker set_both run_worker fail_run mxcsr_unsupported mxcsr_mask
    child_fp_regs child_regs child_rflags effective_pointer read_snapshot record_st recorded_seed
    seed_controls snapshot snapshot_both snapshot_fpu snapshot_gpr tag_st write_st after_siginfo
    after_snapshot after_wait breakpoint_signal run_code_end complete_step completed_trap finish
    step_cap step_loop step_round target_address run_engine platform_request describe_outcome
    effective_max_steps engine_trace executed_count new_trace next_rip step_event hex_chars
    hex_digit
outcomes = refl

run_platform_steps-Returns_example :
    Returns
      (RunEnds small_kernel no_environment no_zydis small_request)
      (run_platform_steps small_kernel no_environment no_zydis 2 small_request [])
run_platform_steps-Returns_example =
    run_platform_steps-Returns small_kernel no_environment no_zydis 2 small_request
      small_kernel-IsPatient

run_platform_steps-Leaves_example :
    Returns
      (λ result log. (log ≡ []) ⊎ Leaves (some (3, 4)) (some 7) log)
      (run_platform_steps small_kernel no_environment no_zydis 2 small_request [])
run_platform_steps-Leaves_example =
    run_platform_steps-Leaves small_kernel no_environment no_zydis 2 small_request
      small_kernel-IsPatient

run_engine-IsRecorded_example :
    Returns (λ trace log. IsRecorded trace) (small_run small_engine_request)
run_engine-IsRecorded_example =
    run_engine-IsRecorded small_fmt small_pages small_kernel no_environment no_zydis 2
      small_engine_request small_kernel-IsPatient

snapshot-child_regs_example :
    snapshot
      (child_regs small_request small_ready)
      (child_fp_regs no_registers new_fp_regs)
      no_registers
    ≡ recorded_seed small_request small_ready new_fp_regs
snapshot-child_regs_example =
    snapshot-child_regs small_request small_ready new_fp_regs refl refl
      (All-replicate (λ seed. length {A = ℕ} seed ≡ 10) 8 (replicate 10 0) refl) refl

-- A worker of four areas, with pages of 4096 bytes.
abbrev small_worker : WorkerKernel
small_worker = record {
  traceme = true;
  buffer = λ size. some 0x5000;
  stack = λ size. some 0x10_0000;
  data_area = λ base size. some base;
  signal_stack = λ size. some 0x20_0000;
  commits = λ start size. true;
  protects = λ start size. true;
  handles = true;
}

child_main-Reports_example :
    Reports small_worker
      (2 ^ 12)
      8192
      0x1000_0000
      two_instructions
      (child_main small_worker (2 ^ 12) 8192 0x1000_0000 two_instructions)
unfolding round_up
child_main-Reports_example =
    child_main-Reports small_worker 12 8192 0x1000_0000 two_instructions (omega arith) (omega arith)
      (omega arith) (omega arith) (omega arith) (omega arith)

-- Three bytes, written in two parts and read in two others.
read_all-write_all_example :
    read_all (got (1 ∷ []) ∷ read_interrupted ∷ got (2 ∷ 3 ∷ []) ∷ []) [] 3 ≡ done (1 ∷ 2 ∷ 3 ∷ [])
unfolding write_all
read_all-write_all_example =
    read_all-write_all (took 2 ∷ write_interrupted ∷ took 1 ∷ [])
      (got (1 ∷ []) ∷ read_interrupted ∷ got (2 ∷ 3 ∷ []) ∷ []) (1 ∷ 2 ∷ 3 ∷ []) (1 ∷ 2 ∷ 3 ∷ [])
      refl (omega arith, (tt, (omega arith, tt))) refl

-- A processor that reads 0 everywhere.
abbrev pub silent_source : CpuQuerySource
silent_source = record {
  cpuid = λ leaf subleaf. record { eax = 0; ebx = 0; ecx = 0; edx = 0 };
  xgetbv = λ index. 0;
}

-- The summary of a processor that says all of its identity.
summary_of_all :
    format_cpu_summary small_fmt (record (query_cpu_fingerprint silent_source) {
      vendor = codes "AuthenticAMD";
      brand = codes "Ryzen";
      family = some 25;
      model = some 33;
      stepping = some 2;
      xcr0 = some 7;
    })
    ≡ codes "Ryzen (AuthenticAMD family 0x0019 model 0x0021 stepping 0x0002, XCR0 0x0007)"
unfolding format_cpu_summary hex_chars hex_digit
summary_of_all = refl
