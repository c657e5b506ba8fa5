-- ===== src/Engine/Below.antt =====
-- Where the code of a trace of `run_engine`, src/bme_core.cpp, ends.
use bme.Base.{
  if-both, map, ℕ, ◌+◌, ◌^◌, ◌<◌, Option, some, [], ◌∷◌, length, ◌≡◌, ◌⊎◌, inl, inr, refl, arith,
}
use bme.Text.{is_empty}
use bme.Trace.{Outcome, error, finished, faulted, stopped, aborted_cap, idle, Trace}
use bme.Platform.{PlatformRunRequest, PlatformRunResult, PageSizes, Environment}
use bme.Linux.{pipe, fork, close, read_pipe, ChildReady, Kernel, Zydis, Log}
use bme.Linux.Holds.{Returns, returns, Returns-and_then}
use bme.Linux.Run.{run_platform_steps}
use bme.Linux.Ends.{WorkerEnds, worker_refused, start_failed, stopped_first, stepped}
use bme.Linux.Whole.{
  RunEnds, IsRefused, refused, no_pipe, no_fork, with_worker, IsPatient, run_platform_steps-Returns,
}
use bme.Engine.{
  EngineRequest, new_trace, result_trace, platform_request, step_event, describe_outcome,
  engine_trace, run_engine,
}
use bme.Engine.Address.{Fmt}

-- The worker's reports place code of a size below `2 ^ 64`.
abbrev pub IsPlacing : Kernel → (size : ℕ) → Type 0
IsPlacing kernel size =
    (log : Log) (ready : ChildReady)
    → kernel.read_ready log ≡ some ready
    → ready.code_base + size < 2 ^ 64

-- The run ended in an error, or code of the size ends below `2 ^ 64`.
abbrev pub IsBelow : Outcome → (start size : ℕ) → Type 0
IsBelow outcome start size = (outcome ≡ error) ⊎ (start + size < 2 ^ 64)

refused_error : (outcome : Outcome) → IsRefused outcome → (outcome ≡ idle → ⊥) → outcome ≡ error
refused_error error refuses other = refl
refused_error idle refuses other = absurd (other refl)
refused_error finished refuses other = absurd refuses
refused_error faulted refuses other = absurd refuses
refused_error stopped refuses other = absurd refuses
refused_error aborted_cap refuses other = absurd refuses

WorkerEnds-IsBelow :
    (zydis : Zydis) (request : PlatformRunRequest) (answer : Option ChildReady)
    (reader writer child : ℕ) (result : PlatformRunResult) (log : Log)
    → ((ready : ChildReady) → answer ≡ some ready → ready.code_base + length request.code < 2 ^ 64)
    → WorkerEnds zydis request answer reader writer child result log
    → IsBelow result.outcome result.seed.rip (length request.code)
WorkerEnds-IsBelow zydis request answer reader writer child _ _ places
      (worker_refused result log failing _ _) =
    inl failing
WorkerEnds-IsBelow zydis request answer reader writer child _ _ places
      (start_failed result log failing _ _) =
    inl failing
WorkerEnds-IsBelow zydis request answer reader writer child _ _ places
      (stopped_first ready result log reads start _ _ _ _ _ _) =
    inr (omega (arith, places ready reads))
WorkerEnds-IsBelow zydis request answer reader writer child _ _ places
      (stepped ready result log reads start _ _ _) =
    inr (omega (arith, places ready reads))

RunEnds-IsBelow :
    (kernel : Kernel) (getenv : Environment) (zydis : Zydis) (request : PlatformRunRequest)
    (result : PlatformRunResult) (log : Log)
    → IsPlacing kernel (length request.code)
    → 0 < length request.code
    → RunEnds kernel getenv zydis request result log
    → IsBelow result.outcome result.seed.rip (length request.code)
RunEnds-IsBelow kernel getenv zydis request _ _ places some_code (refused result _ refuses idles) =
    inl (refused_error result.outcome refuses (λ e. ground (arith, idles e)))
RunEnds-IsBelow kernel getenv zydis request _ _ places some_code (no_pipe result _ failing _) =
    inl failing
RunEnds-IsBelow kernel getenv zydis request _ _ places some_code
      (no_fork _ _ result _ _ failing _) =
    inl failing
RunEnds-IsBelow kernel getenv zydis request _ _ places some_code
      (with_worker reader writer child result log _ _ ends) =
    WorkerEnds-IsBelow zydis request
      (kernel.read_ready (read_pipe reader ∷ close writer ∷ fork ∷ pipe ∷ [])) reader writer child
      result log (places (read_pipe reader ∷ close writer ∷ fork ∷ pipe ∷ [])) ends

module _ (fmt : Fmt) (sizes : PageSizes) where
  -- A trace with the outcome, the seed and the code of its run.
  abbrev Keeps : EngineRequest → PlatformRunResult → Trace → Type 0
  Keeps request result trace =
      (trace.outcome ≡ result.outcome) × (trace.seed ≡ result.seed) × (trace.code ≡ request.code)

  describe-Keeps :
      (request : EngineRequest) (result : PlatformRunResult) (outcome : Outcome) (trace : Trace)
      → trace.seed ≡ result.seed
      → trace.code ≡ request.code
      → outcome ≡ result.outcome
      → Keeps request result
          (describe_outcome fmt sizes result (record trace { outcome = outcome }))
  unfolding describe_outcome
  describe-Keeps request result stopped trace seed code e =
      if-both (Keeps request result) result.stopped_at_target _ _ (e, seed, code) (e, seed, code)
  describe-Keeps request result faulted trace seed code e = (e, seed, code)
  describe-Keeps request result aborted_cap trace seed code e = (e, seed, code)
  describe-Keeps request result finished trace seed code e = (e, seed, code)
  describe-Keeps request result error trace seed code e = (e, seed, code)
  describe-Keeps request result idle trace seed code e = (e, seed, code)

  engine_trace-Keeps :
      (request : EngineRequest) (result : PlatformRunResult)
      → Keeps request result (engine_trace fmt sizes request result)
  unfolding engine_trace new_trace
  engine_trace-Keeps request result =
      if-both (Keeps request result) result.instrumentation_detected _ _ (refl, refl, refl)
        (if-both (Keeps request result) (is_empty result.error_text) _ _
          (describe-Keeps request result result.outcome
            (record (result_trace request result) {
              execution_events = map step_event result.steps;
            })
            refl refl refl)
          (refl, refl, refl))

  -- The engine's trace of code that is not empty, where the worker's reports place it below `2 ^ 64`.
  pub run_engine-IsBelow :
      (kernel : Kernel) (getenv : Environment) (zydis : Zydis) (patience : ℕ)
      (request : EngineRequest)
      → IsPatient kernel patience
      → IsPlacing kernel (length request.code)
      → 0 < length request.code
      → Returns
          (λ trace log. IsBelow trace.outcome trace.seed.rip (length trace.code))
          (run_engine fmt sizes kernel getenv zydis patience request [])
  unfolding run_engine platform_request
  run_engine-IsBelow kernel getenv zydis patience request patient places some_code =
      Returns-and_then
        (run_platform_steps kernel getenv zydis patience (platform_request request) []) _
        (λ result log ends.
          let (outcome, seed, code) = engine_trace-Keeps request result in
          returns (engine_trace fmt sizes request result) log (
            rw (outcome, seed, code)
              (RunEnds-IsBelow kernel getenv zydis (platform_request request) result log places
                some_code ends)))
        (run_platform_steps-Returns kernel getenv zydis patience (platform_request request) patient)
