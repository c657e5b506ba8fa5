-- ===== src/Engine.antt =====
-- `run_engine` of src/bme_core.cpp: the trace of a run, and its messages.
pub mod Address
pub mod Events
pub mod Below
pub mod Owed
pub mod Recorded
use bme.Base.{
  ℕ, suc, ◌+◌, Bool, true, false, Option, none, some, List, [], ◌∷◌, ◌++◌, ◌==◌, if◌then◌else◌, map,
  length, min,
}
use bme.Base.Words.{u64}
use bme.Text.{Text, codes, is_empty, text_eq}
use bme.Seed.Compose.{Registers}
use bme.Trace.{
  Outcome, error, finished, faulted, stopped, aborted_cap, idle, FaultAccess, no_access, read,
  write, execute, unknown, DisasmSyntax, DisasmBackend, ExecutionEventKind, completed,
  event_faulted, ExecutionEvent, Trace,
}
use bme.Platform.{
  no_registers, PlatformStep, PlatformRunRequest, PlatformRunResult, PageSizes, Environment,
  max_steps_limit,
}
use bme.Linux.{Kernel, Zydis, M, pure, ◌>>=◌}
use bme.Linux.Run.{run_platform_steps}
use bme.Engine.Address.{Fmt, format_hex64_string, format_address_value}

-- What a caller asks of the engine.
pub record EngineRequest : Type 0 where
  pub code : List ℕ
  pub seed : Registers
  pub max_steps : ℕ
  pub backend : DisasmBackend
  pub syntax : DisasmSyntax
  pub seed_data_pointers : Bool
  pub stop_offset : Option ℕ

unfoldable pub effective_max_steps : ℕ → ℕ
effective_max_steps max_steps = min (if max_steps == 0 then 1 else max_steps) max_steps_limit

-- The trace before the run.
unfoldable pub new_trace : EngineRequest → Trace
new_trace request = record {
  code = request.code;
  requested_seed = request.seed;
  requested_backend = request.backend;
  requested_syntax = request.syntax;
  effective_max_steps = effective_max_steps request.max_steps;
  seed_data_pointers = request.seed_data_pointers;
  seed = no_registers;
  execution_events = [];
  outcome = idle;
  message = [];
  instrumentation_detected = false;
  stop_reason = [];
  stop_address = 0;
  fault_memory_address = none;
  fault_access = no_access;
}

unfoldable pub platform_request : EngineRequest → PlatformRunRequest
platform_request request = record {
  code = request.code;
  seed = request.seed;
  max_steps = effective_max_steps request.max_steps;
  stop_offset = request.stop_offset;
  seed_data_pointers = request.seed_data_pointers;
}

unfoldable pub step_event : PlatformStep → ExecutionEvent
step_event step = record {
  rip = step.rip;
  registers = step.registers;
  kind = if step.is_fault then event_faulted else completed;
}

abbrev pub is_completed : ExecutionEventKind → Bool
is_completed completed = true
is_completed event_faulted = false

-- How many of the events completed.
unfoldable pub executed_count : List ExecutionEvent → ℕ
executed_count [] = 0
executed_count (event ∷ events) =
    let rest = executed_count events in if is_completed event.kind then suc rest else rest

unfoldable pub fault_access_action : FaultAccess → Text
fault_access_action read = codes "reading"
fault_access_action write = codes "writing"
fault_access_action execute = codes "executing"
fault_access_action _ = codes "accessing"

-- Where the execution went on after the events.
unfoldable pub next_rip : ℕ → List ExecutionEvent → ℕ
next_rip start [] = start
next_rip start (event ∷ events) = next_rip event.registers.rip events

-- The trace with what the run says before its events.
abbrev pub result_trace : EngineRequest → PlatformRunResult → Trace
result_trace request result = record (new_trace request) {
  seed = result.seed;
  outcome = result.outcome;
  instrumentation_detected = result.instrumentation_detected;
  fault_memory_address = result.fault_memory_address;
  fault_access = result.fault_access;
}

module _ (fmt : Fmt) (sizes : PageSizes) where
  abbrev memory_detail : Trace → FaultAccess → Option ℕ → Text
  memory_detail trace how none = []
  memory_detail trace how (some address) =
      let absolute = format_hex64_string fmt address in
      let normalized = format_address_value fmt sizes trace address true in
      let memory =
        if text_eq normalized absolute
        then absolute
        else absolute ++ codes " (" ++ normalized ++ codes ")" in
      codes " while " ++ fault_access_action how ++ codes " " ++ memory

  -- The `switch` on the outcome: the message, the reason and the address of the stop.
  unfoldable pub describe_outcome : PlatformRunResult → Trace → Trace
  describe_outcome result trace =
      let executed = fmt.number (executed_count trace.execution_events) in
      elim trace.outcome [
        | stopped ↦
            if result.stopped_at_target
            then record trace {
              message =
                  codes "Stopped at selected row (0x"
                  ++ fmt.hex 0 result.stop_address
                  ++ codes ") - "
                  ++ executed
                  ++ codes " executed.";
              stop_reason = codes "Stopped here - selected row";
              stop_address = result.stop_address;
            }
            else record trace {
              message =
                  codes "Stopped at int3 (0x"
                  ++ fmt.hex 0 result.stop_address
                  ++ codes ") - "
                  ++ executed
                  ++ codes " executed.";
              stop_reason = codes "Stopped here - int3 breakpoint";
              stop_address = result.stop_address;
            }
        | faulted ↦ record trace {
          message =
              result.fault_name
              ++ codes " at 0x"
              ++ fmt.hex 0 result.stop_address
              ++ memory_detail trace result.fault_access result.fault_memory_address
              ++ codes " ("
              ++ executed
              ++ codes " executed).";
          stop_reason = codes "Faulted here - " ++ result.fault_name;
          stop_address = result.stop_address;
        }
        | aborted_cap ↦ record trace {
          message =
              codes "Hit step cap (" ++ fmt.number trace.effective_max_steps ++ codes " executed).";
          stop_reason = codes "Not reached - Step cap reached";
        }
        | _ ↦ record trace {
          message = codes "Finished - " ++ executed ++ codes " executed.";
          stop_reason =
              if next_rip trace.seed.rip trace.execution_events
                == u64 (trace.seed.rip + length trace.code)
              then codes "Reached end of input"
              else codes "Execution left input range";
        }
      ]

  -- The trace of a request, once the platform's engine has returned.
  unfoldable pub engine_trace : EngineRequest → PlatformRunResult → Trace
  engine_trace request result =
      let trace = result_trace request result in
      if result.instrumentation_detected
      then record trace { message = result.error_text ++ codes " No trace was recorded." }
      else if is_empty result.error_text
      then describe_outcome result (record trace { execution_events = map step_event result.steps })
      else record trace { message = result.error_text }

module _ (fmt : Fmt) (sizes : PageSizes) (kernel : Kernel) (getenv : Environment) (zydis : Zydis)
    (patience : ℕ) where
  -- `run_engine` with the engine of Linux.
  unfoldable pub run_engine : EngineRequest → M Trace
  run_engine request =
      run_platform_steps kernel getenv zydis patience (platform_request request) >>= λ result.
      pure (engine_trace fmt sizes request result)
