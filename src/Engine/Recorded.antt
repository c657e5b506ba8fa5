-- ===== src/Engine/Recorded.antt =====
-- The events and the outcome of a trace of `run_engine`, src/bme_core.cpp.
use bme.Base.{ℕ, Option, [], ◌∷◌, refl, sym, arith}
use bme.Platform.{PlatformRunResult, PageSizes, Environment}
use bme.Linux.{pipe, fork, close, read_pipe, ChildReady, Kernel, Zydis, Log}
use bme.Linux.Holds.{Returns, returns, Returns-and_then}
use bme.Linux.Steps.{step_cap, run_code_end}
use bme.Linux.Run.{run_platform_steps}
use bme.Linux.Ends.{WorkerEnds, worker_refused, start_failed, stopped_first, stepped}
use bme.Linux.Whole.{
  RunEnds, refused, no_pipe, no_fork, with_worker, IsPatient, run_platform_steps-Returns,
}
use bme.Engine.{EngineRequest, platform_request, executed_count, next_rip, engine_trace, run_engine}
use bme.Engine.Address.{Fmt}
use bme.Engine.Owed.{
  IsRecorded, IsOwed, engine_trace-IsRecorded, empty-IsOwed, error-IsRefused, silent-told,
  step_cap-platform_request, stepped-IsOwed,
}

module _ (fmt : Fmt) (sizes : PageSizes) where
  WorkerEnds-IsOwed :
      (request : EngineRequest) (answer : Option ChildReady) (reader writer child : ℕ)
      (zydis : Zydis) (result : PlatformRunResult) (log : Log)
      → WorkerEnds zydis (platform_request request) answer reader writer child result log
      → IsOwed request result
  unfolding platform_request run_code_end executed_count next_rip
  WorkerEnds-IsOwed request answer reader writer child zydis _ _
        (worker_refused result log failing no_steps _) =
      empty-IsOwed request result no_steps (error-IsRefused result.outcome failing)
  WorkerEnds-IsOwed request answer reader writer child zydis _ _
        (start_failed result log failing no_steps _) =
      empty-IsOwed request result no_steps (error-IsRefused result.outcome failing)
  WorkerEnds-IsOwed request answer reader writer child zydis _ _
        (stopped_first _ result log _ _ at stops no_steps start silent _) =
      record {
        owed_execution = rw no_steps tt;
        owed_bound = rw no_steps (omega arith);
        owed_says = rw (stops, no_steps) (refl, sym start);
        told = silent-told result silent;
      }
  WorkerEnds-IsOwed request answer reader writer child zydis _ _
        (stepped ready result log _ start silent follows _) =
      stepped-IsOwed request result (step_cap (platform_request request)) ready.code_base
        (step_cap-platform_request request) start silent follows

  RunEnds-IsOwed :
      (request : EngineRequest) (kernel : Kernel) (getenv : Environment) (zydis : Zydis)
      (result : PlatformRunResult) (log : Log)
      → RunEnds kernel getenv zydis (platform_request request) result log
      → IsOwed request result
  RunEnds-IsOwed request kernel getenv zydis _ _ (refused result no_steps refuses _) =
      empty-IsOwed request result no_steps refuses
  RunEnds-IsOwed request kernel getenv zydis _ _ (no_pipe result _ failing no_steps) =
      empty-IsOwed request result no_steps (error-IsRefused result.outcome failing)
  RunEnds-IsOwed request kernel getenv zydis _ _
        (no_fork reader writer result _ _ failing no_steps) =
      empty-IsOwed request result no_steps (error-IsRefused result.outcome failing)
  RunEnds-IsOwed request kernel getenv zydis _ _
        (with_worker reader writer child result log _ _ ends) =
      WorkerEnds-IsOwed request
        (kernel.read_ready (read_pipe reader ∷ close writer ∷ fork ∷ pipe ∷ [])) reader writer child
        zydis result log ends

  -- On a patient kernel, the engine returns a trace whose events are an execution from the address of
  -- its seed: each completed event starts where the one before it went on, and only the last may be
  -- a fault. There are no more of them than the cap. A trace that hit the cap has as many completed
  -- events as the cap, one that finished goes on outside the code, one that stopped goes on at its
  -- stop, and one that faulted has one event, its last, that did not complete.
  pub run_engine-IsRecorded :
      (kernel : Kernel) (getenv : Environment) (zydis : Zydis) (patience : ℕ)
      (request : EngineRequest)
      → IsPatient kernel patience
      → Returns
          (λ trace log. IsRecorded trace)
          (run_engine fmt sizes kernel getenv zydis patience request [])
  unfolding run_engine
  run_engine-IsRecorded kernel getenv zydis patience request patient =
      Returns-and_then
        (run_platform_steps kernel getenv zydis patience (platform_request request) []) _
        (λ result log ends. returns (engine_trace fmt sizes request result) log (
          engine_trace-IsRecorded fmt sizes request result
            (RunEnds-IsOwed request kernel getenv zydis result log ends)))
        (run_platform_steps-Returns kernel getenv zydis patience (platform_request request) patient)
