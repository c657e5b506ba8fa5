-- ===== src/Windows/Recorded.antt =====
-- The trace that `run_engine` of src/bme_core.cpp makes of a run of src/os.windows.cpp.
use mathlib.Core.Path.{subst}
use bme.Base.{
  some, if-cases, ℕ, suc, ◌+◌, ◌≤◌, ◌<◌, Bool, true, false, Option, List, [], ◌≡◌, ◌⊎◌, inl, inr,
  refl, sym, ap, ◌∙◌, map, length, arith,
}
use bme.Base.Words.{u64}
use bme.Calls.{Returns, Returns-map}
use bme.Text.{is_empty}
use bme.Trace.{Outcome, error, finished, Trace}
use bme.Platform.{PlatformStep, PlatformRunResult, PageSizes}
use bme.Linux.Ends.{IsSilent}
use bme.Linux.Steps.{step_cap}
use bme.Engine.{
  EngineRequest, effective_max_steps, new_trace, result_trace, platform_request, step_event,
  executed_count, next_rip, describe_outcome, engine_trace,
}
use bme.Engine.Address.{Fmt}
use bme.Engine.Events.{IsExecution}
use bme.Engine.Owed.{
  IsRecorded, IsOwed, length-map, engine_trace-IsRecorded, empty-IsOwed, error-IsRefused,
  silent-told, effective-positive, step_cap-platform_request, stepped-IsOwed,
}
use bme.Windows.{context_fpu}
use bme.Windows.Handled.{engine_target}
use bme.Windows.Traced.{Unended, gone, later}
use bme.Windows.Thread.{WinSystem, World}
use bme.Windows.Run.{Placed, new_engine, placed_seed, recorded_context, run_windows_steps}
use bme.Windows.Ends.{IsSandboxing, PlacedEnds, start_failed, stopped_first, ran}
use bme.Windows.Whole.{new_world, WinEnds, refused, unplaced, in_areas, run_windows_steps-Returns}

-- The trace of a thread that ended by itself: its events are an execution from its start, all of
-- them completed and no more than the cap, and it finished.
pub record IsCutShort (trace : Trace) : Type 0 where
  pub short_execution : IsExecution trace.seed.rip trace.execution_events
  pub short_bounded : length trace.execution_events ≤ trace.effective_max_steps
  pub all_executed : executed_count trace.execution_events ≡ length trace.execution_events
  pub short_finished : trace.outcome ≡ finished

-- The trace is as the specification of a run allows, or that of a thread that ended by itself.
abbrev pub IsTold : Trace → Type 0
IsTold trace = IsRecorded trace ⊎ IsCutShort trace

module _ {code_base code_end cap : ℕ} {target : Option ℕ} where
  Unended-IsExecution :
      {taken rip : ℕ} {steps : List PlatformStep}
      → Unended code_base code_end cap target taken rip steps
      → IsExecution rip (map step_event steps)
  unfolding step_event
  Unended-IsExecution (gone _ _) = tt
  Unended-IsExecution (later _ _ _ _ _ _ _ rest) = (refl, Unended-IsExecution rest)

  Unended-length :
      {taken rip : ℕ} {steps : List PlatformStep}
      → taken < cap
      → Unended code_base code_end cap target taken rip steps
      → taken + length steps ≤ cap
  Unended-length room (gone _ _) = omega arith
  Unended-length room (later _ _ _ _ _ _ room' rest) = omega (arith, Unended-length room' rest)

  Unended-executed_count :
      {taken rip : ℕ} {steps : List PlatformStep}
      → Unended code_base code_end cap target taken rip steps
      → executed_count (map step_event steps) ≡ length (map step_event steps)
  unfolding step_event executed_count
  Unended-executed_count (gone _ _) = refl
  Unended-executed_count (later _ _ _ _ _ _ _ rest) = ap suc (Unended-executed_count rest)

module _ (fmt : Fmt) (sizes : PageSizes) where
  describe-IsCutShort :
      (outcome : Outcome) (result : PlatformRunResult) (trace : Trace)
      → outcome ≡ finished
      → IsExecution trace.seed.rip trace.execution_events
      → length trace.execution_events ≤ trace.effective_max_steps
      → executed_count trace.execution_events ≡ length trace.execution_events
      → IsCutShort (describe_outcome fmt sizes result (record trace { outcome = outcome }))
  unfolding describe_outcome
  describe-IsCutShort outcome result trace ended runs bound counted =
      subst
        (λ outcome.
          IsCutShort (describe_outcome fmt sizes result (record trace { outcome = outcome })))
        (sym ended)
        (record {
          short_execution = runs;
          short_bounded = bound;
          all_executed = counted;
          short_finished = refl;
        })

  Unended-IsCutShort :
      (request : EngineRequest) (result : PlatformRunResult) {base code_end : ℕ} {target : Option ℕ}
      → result.seed.rip ≡ base
      → result.outcome ≡ finished
      → result.error_text ≡ []
      → result.instrumentation_detected ≡ false
      → Unended base code_end (effective_max_steps request.max_steps) target 0 base result.steps
      → IsCutShort (engine_trace fmt sizes request result)
  unfolding engine_trace new_trace
  Unended-IsCutShort request result start ended silent undetected unended =
      let none_said : is_empty result.error_text ≡ true = ap is_empty silent in
      let bound = Unended-length (effective-positive request.max_steps) unended in
      if-cases IsCutShort result.instrumentation_detected _ _ (λ e. absurd (ground arith))
        (λ _.
          if-cases IsCutShort (is_empty result.error_text) _ _
            (λ _.
              describe-IsCutShort result.outcome result
                (record (result_trace request result) {
                  execution_events = map step_event result.steps;
                })
                ended
                (subst (λ rip. IsExecution rip (map step_event result.steps)) (sym start)
                  (Unended-IsExecution unended))
                (rw (length-map step_event result.steps) (omega (arith, bound)))
                (Unended-executed_count unended))
            (λ e. absurd (ground arith)))

  finished-silent :
      (result : PlatformRunResult)
      → IsSilent result
      → result.outcome ≡ finished
      → (result.error_text ≡ []) × (result.instrumentation_detected ≡ false)
  finished-silent result (inl failing) ended =
      let clash : error ≡ finished = sym failing ∙ ended in absurd (ground arith)
  finished-silent result (inr silent) ended = silent

  owed-IsTold :
      (request : EngineRequest) (result : PlatformRunResult)
      → IsOwed request result
      → IsTold (engine_trace fmt sizes request result)
  owed-IsTold request result owed = inl (engine_trace-IsRecorded fmt sizes request result owed)

  module _ (system : WinSystem) (request : EngineRequest) where
    PlacedEnds-IsTold :
        (ready : Placed) (buffer stack data_at : Option ℕ) (result : PlatformRunResult)
        (world : World)
        → PlacedEnds system (platform_request request) ready buffer stack data_at result world
        → IsTold (engine_trace fmt sizes request result)
    unfolding platform_request executed_count next_rip new_engine recorded_context placed_seed
        context_fpu
    PlacedEnds-IsTold ready buffer stack data_at _ _
          (start_failed result world failing no_steps _) =
        owed-IsTold request result
          (empty-IsOwed request result no_steps (error-IsRefused result.outcome failing))
    PlacedEnds-IsTold ready buffer stack data_at _ _
          (stopped_first context result world at stops no_steps stop seeded silent _) =
        let start : result.seed.rip ≡ ready.code_base = ap (λ seed. seed.rip) seeded in
        owed-IsTold request result (record {
          owed_execution = rw no_steps tt;
          owed_bound = rw no_steps (omega arith);
          owed_says = rw (stops, no_steps) (refl, start ∙ sym stop);
          told = silent-told result silent;
        })
    PlacedEnds-IsTold ready buffer stack data_at _ _
          (ran context result world seeded silent ending _) =
        let start : result.seed.rip ≡ ready.code_base = ap (λ seed. seed.rip) seeded in
        let cap = step_cap-platform_request request in
        elim ending [
          | inl follows ↦ owed-IsTold request result (
              stepped-IsOwed request result (step_cap (platform_request request)) ready.code_base
                cap start silent follows)
          | inr unended ↦ inr (
              let (text, undetected) = finished-silent result silent unended.0 in
              Unended-IsCutShort request result start unended.0 text undetected (
                subst
                  (λ n.
                    Unended ready.code_base (u64 (ready.code_base + length request.code)) n
                      (engine_target (new_engine (platform_request request) ready)) 0
                      ready.code_base result.steps)
                  cap unended.2))
        ]

    WinEnds-IsTold :
        (result : PlatformRunResult) (world : World)
        → WinEnds (platform_request request) sizes system result world
        → IsTold (engine_trace fmt sizes request result)
    WinEnds-IsTold _ _ (refused result no_steps refuses) =
        owed-IsTold request result (empty-IsOwed request result no_steps refuses)
    WinEnds-IsTold _ _ (unplaced result world failing no_steps _) =
        owed-IsTold request result
          (empty-IsOwed request result no_steps (error-IsRefused result.outcome failing))
    WinEnds-IsTold _ _ (in_areas buffer stack data_at result world _ _ _ ends) =
        PlacedEnds-IsTold _ (some buffer) (some stack) (some data_at) result world ends

    -- On a system whose thread is sandboxed, the engine returns a trace whose events are an execution
    -- from the address of its seed with no more of them than the cap. Its outcome says what they are,
    -- or it finished with every event completed because the thread ended by itself.
    pub engine_trace-IsTold :
        (detected : Bool)
        → IsSandboxing system
        → Returns
            (λ result world. IsTold (engine_trace fmt sizes request result))
            (run_windows_steps system detected sizes (platform_request request) new_world)
    engine_trace-IsTold detected sandboxing =
        Returns-map _ (λ result world ends. WinEnds-IsTold result world ends)
          (run_windows_steps-Returns (platform_request request) sizes system sandboxing detected)
