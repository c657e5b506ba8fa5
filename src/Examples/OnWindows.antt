-- ===== src/Examples/OnWindows.antt =====
-- A run of the Windows engine's model on a small system, and the theorems on it.
use bme.Base.{
  ltb, false, true, suc, if-cases, ℕ, ◌+◌, true, false, Option, none, some, List, [], ◌∷◌, ◌==◌,
  ◌≡◌, refl, if◌then◌else◌, map, take, replicate, length, All-replicate, arith, ap,
}
use mathlib.Core.Path.{subst}
use bme.Text.{codes, ascii_case_insensitive_equal, lowercase}
use bme.Trace.{Outcome, finished, error}
use bme.Calls.{Returns}
use bme.Platform.{PlatformRunResult, prepare_platform_run, scratch_reserve_base}
use bme.Windows.{
  Context, VehEngine, exception_single_step, bme_veh, veh_handle, veh_single_step, add_raw_step,
  trap, context_snapshot, context_fpu,
}
use bme.Windows.Thread.{
  virtual_free, close_handle, remove_handler, Raised, WinCall, WinSystem, World, run_thread,
}
use bme.Windows.Run.{
  no_context, reserved_areas, place_areas, commit_areas, committed_areas, start_engine,
  created_thread, identified_thread, context_thread, prepared_thread, handled_thread,
  resumed_thread, executed_thread, execute_thread, collect, release_all, release_regions, free_area,
  engine_result, engine_steps, placed_seed, seed_context_controls, seeded_flt_save, fail_thread,
  placed, recorded_context, new_engine, seeded_context, run_windows_steps,
}
use bme.Windows.Handled.{IsAnswered, bme_veh-IsAnswered}
use bme.Windows.Start.{context_snapshot-seeded_context}
use bme.Windows.Traced.{IsSandboxed}
use bme.Windows.Ends.{IsSandboxing}
use bme.Windows.Whole.{WinEnds, new_world, run_windows_steps-Returns}
use bme.Windows.Recorded.{IsTold, engine_trace-IsTold}
use bme.Linux.State.{
  child_regs, child_rflags, effective_pointer, record_st, snapshot_gpr, tag_st, write_st,
  mxcsr_unsupported, mxcsr_mask,
}
use bme.Linux.Worker.{round_up, place_code, place_rsp}
use bme.Linux.Steps.{step_cap}
use bme.Engine.{platform_request, engine_trace}
use bme.Windows.Processes.{
  process_query_initial_bytes, process_query_max_bytes, too_small, listed_processes, QueryReply,
  query_processes, ProcessBuffer, find_process, record_fits, goes_on_at, image_path,
  executable_name, is_one_of, parent_process_is, next_query_size,
}
use bme.Windows.Processes.Walk.{Found, find_process-Found}
use bme.Windows.Processes.Query.{IsQueried, query_processes-IsQueried}
use bme.Examples.Runs.{small_fmt, small_pages, small_engine_request, small_request, small_ready}

-- Each instruction is two bytes long. A thread at address 0 is in its own code, and ends.
abbrev next_step : Context → Raised
next_step context = record {
  exception = record {
    exception_code = exception_single_step;
    exception_address = context.regs.rip + 2;
    parameters = [];
  };
  context = record context { regs = record context.regs { rip = context.regs.rip + 2 } };
}

abbrev small_raises : List Context → Option Raised
small_raises [] = none
small_raises (context ∷ resumed) = if context.regs.rip == 0 then none else some (next_step context)

abbrev small_system : WinSystem
small_system = record {
  address_reply = λ log. some 0x10_0000;
  allows = λ log. true;
  thread_reply = λ log. some 8;
  thread_id_reply = λ log. 9;
  context_reply = λ log. some no_context;
  handler_reply = λ log. some 10;
  raises = small_raises;
}

abbrev InPlace : Option Raised → Type 0
InPlace none = Unit {0}
InPlace (some raised) = raised.exception.exception_address ≡ raised.context.regs.rip

small_raises-InPlace : (resumed : List Context) → InPlace (small_raises resumed)
small_raises-InPlace [] = tt
small_raises-InPlace (context ∷ resumed) =
    if-cases InPlace (context.regs.rip == 0) _ _ (λ _. tt) (λ _. refl)

abbrev context_of : Option Context → Context
context_of none = no_context
context_of (some context) = context

in_place :
    (answer : Option Raised) (raised : Raised)
    → InPlace answer
    → answer ≡ some raised
    → raised.exception.exception_address ≡ raised.context.regs.rip
in_place answer raised placed_there same = subst InPlace same placed_there

no_context-IsSandboxed : IsSandboxed small_raises no_context
no_context-IsSandboxed = record {
  raised_in_place = λ resumed raised raises.
      in_place (small_raises resumed) raised (small_raises-InPlace resumed) raises;
  returns_quietly = λ resumed. refl;
}

small_system-IsSandboxing : IsSandboxing small_system
small_system-IsSandboxing log context found =
    subst (IsSandboxed small_raises) (ap context_of found) no_context-IsSandboxed

abbrev steps_of : Option (PlatformRunResult × World) → List ℕ × Outcome × List WinCall
steps_of none = ([], error, [])
steps_of (some (result, world)) =
    (map (λ step. step.rip) result.steps, result.outcome, take 5 world.calls)

run_windows_steps-Returns_example :
    Returns
      (WinEnds small_request small_pages small_system)
      (run_windows_steps small_system false small_pages small_request new_world)
run_windows_steps-Returns_example =
    run_windows_steps-Returns small_request small_pages small_system small_system-IsSandboxing false

engine_trace-IsTold_example :
    Returns
      (λ result world. IsTold (engine_trace small_fmt small_pages small_engine_request result))
      (run_windows_steps small_system false small_pages
        (platform_request small_engine_request)
        new_world)
engine_trace-IsTold_example =
    engine_trace-IsTold small_fmt small_pages small_system small_engine_request false
      small_system-IsSandboxing

context_snapshot-seeded_context_example :
    context_snapshot (seeded_context small_request small_ready no_context)
    ≡ recorded_context small_request small_ready no_context
context_snapshot-seeded_context_example =
    context_snapshot-seeded_context small_request small_ready no_context refl refl
      (All-replicate (λ seed. length {A = ℕ} seed ≡ 10) 8 (replicate 10 0) refl)

abbrev running_engine : VehEngine
running_engine = record (new_engine small_request small_ready) { thread_id = 9; active = true }

bme_veh-IsAnswered_example : IsAnswered 9 running_engine (next_step no_context).context (
    bme_veh 9 (next_step no_context).exception (next_step no_context).context (some running_engine))
unfolding new_engine step_cap
bme_veh-IsAnswered_example =
    bme_veh-IsAnswered 9 (next_step no_context).exception (next_step no_context).context
      running_engine
      (record { on = refl; open_ended = refl; not_stopped = refl; room = omega arith }) refl

-- The whole run: two instructions of two bytes at the end of their page, and its last calls.
two_steps : steps_of (run_windows_steps small_system false small_pages small_request new_world) ≡ (
  0x10_0FFC ∷ 0x10_0FFE ∷ [],
  finished,
  virtual_free 0x10_0000
      ∷ virtual_free 0x10_0000
      ∷ virtual_free 0x10_0000
      ∷ close_handle 8
      ∷ remove_handler 10
      ∷ [],
)
unfolding reserved_areas place_areas commit_areas committed_areas start_engine created_thread
    identified_thread context_thread prepared_thread handled_thread resumed_thread executed_thread
    execute_thread collect release_all release_regions free_area engine_result engine_steps
    placed_seed seed_context_controls seeded_flt_save fail_thread placed recorded_context new_engine
    seeded_context run_windows_steps child_regs child_rflags effective_pointer record_st
    snapshot_gpr tag_st write_st mxcsr_unsupported mxcsr_mask bme_veh veh_handle veh_single_step
    add_raw_step trap context_snapshot context_fpu run_thread step_cap prepare_platform_run
    scratch_reserve_base round_up place_code place_rsp
two_steps = refl

-- Two records: process 5, the child of 3, and process 3 with its image behind them.
abbrev two_processes : ProcessBuffer
two_processes = record {
  buffer_begin = 0x1000;
  buffer_size = 240;
  next_entry_offset = λ offset. if offset == 0 then 100 else 0;
  unique_process_id = λ offset. if offset == 0 then 5 else 3;
  parent_process_id = λ offset. if offset == 0 then 3 else 1;
  image_length = λ offset. 30;
  image_buffer = λ offset. 0x1000 + 200;
  wide_text = λ address count. codes "C:\\sde\\SDE.exe";
}

walks :
    map (λ name. parent_process_is two_processes 5 (codes name ∷ [])) ("sde.exe" ∷ "pin.exe" ∷ [])
    ≡ true ∷ false ∷ []
unfolding parent_process_is find_process record_fits goes_on_at image_path executable_name is_one_of
    ascii_case_insensitive_equal lowercase
walks = refl

find_process-Found_example : Found two_processes 3 0 (find_process two_processes 3 241 0)
find_process-Found_example = find_process-Found two_processes 3

abbrev small_query : ℕ → QueryReply
small_query size = if ltb size 100_000 then too_small 100_000 else listed_processes 90_000

queried : query_processes small_query 3 process_query_initial_bytes ≡ some (some 90_000)
unfolding query_processes next_query_size
queried = refl

query_processes-IsQueried_example :
    IsQueried
      (query_processes small_query (suc process_query_max_bytes) process_query_initial_bytes)
query_processes-IsQueried_example = query_processes-IsQueried small_query
