-- ===== src/Engine/Owed.antt =====
-- What an engine owes to `run_engine` of src/bme_core.cpp, and the trace that is made of it.
use mathlib.Core.Path.{subst}
use bme.Base.{
  if-cases, if-both, ℕ, suc, ◌+◌, ◌≤◌, ◌<◌, Bool, true, false, Option, List, [], ◌∷◌, ◌≡◌, ◌⊎◌, inl,
  inr, refl, sym, ap, map, length, arith,
}
use bme.Base.Words.{u64}
use bme.Text.{is_empty}
use bme.Trace.{Outcome, error, finished, faulted, stopped, aborted_cap, idle, Trace}
use bme.Platform.{PlatformRunResult, PageSizes}
use bme.Linux.Steps.{step_cap}
use bme.Linux.Traced.{Traced}
use bme.Linux.Ends.{IsSilent}
use bme.Linux.Whole.{IsRefused}
use bme.Engine.{
  EngineRequest, effective_max_steps, new_trace, result_trace, platform_request, step_event,
  executed_count, next_rip, describe_outcome, engine_trace,
}
use bme.Engine.Address.{Fmt}
use bme.Engine.Events.{
  IsExecution, Says, Says-counts, Traced-IsExecution, Traced-length, Traced-Says,
}

-- The events of a trace are an execution from its start, no more than the cap, and its outcome says
-- what they are.
pub record IsRecorded (trace : Trace) : Type 0 where
  pub execution : IsExecution trace.seed.rip trace.execution_events
  pub bounded : length trace.execution_events ≤ trace.effective_max_steps
  pub says :
      Says trace.outcome trace.seed.rip
        (u64 (trace.seed.rip + length trace.code))
        trace.effective_max_steps
        (executed_count trace.execution_events)
        (length trace.execution_events)
        (next_rip trace.seed.rip trace.execution_events)
        trace.stop_address

-- What an engine owes to a request.
pub record IsOwed (request : EngineRequest) (result : PlatformRunResult) : Type 0 where
  pub owed_execution : IsExecution result.seed.rip (map step_event result.steps)
  pub owed_bound : length result.steps ≤ effective_max_steps request.max_steps
  pub owed_says :
      Says result.outcome result.seed.rip
        (u64 (result.seed.rip + length request.code))
        (effective_max_steps request.max_steps)
        (executed_count (map step_event result.steps))
        (length result.steps)
        (next_rip result.seed.rip (map step_event result.steps))
        result.stop_address
  pub told :
      IsRefused result.outcome
      ⊎ ((result.error_text ≡ []) × (result.instrumentation_detected ≡ false))

pub length-map : {A B : Type 0} (f : A → B) (xs : List A) → length (map f xs) ≡ length xs
length-map f [] = refl
length-map f (x ∷ xs) = ap suc (length-map f xs)

told-IsRefused :
    (result : PlatformRunResult)
    → IsRefused result.outcome
      ⊎ ((result.error_text ≡ []) × (result.instrumentation_detected ≡ false))
    → (result.instrumentation_detected ≡ true) ⊎ (is_empty result.error_text ≡ false)
    → IsRefused result.outcome
told-IsRefused result (inl h) told = h
told-IsRefused result (inr silent) (inl e) = ground (arith, silent.1)
told-IsRefused result (inr silent) (inr e) =
    let empty : is_empty result.error_text ≡ true = ap is_empty silent.0 in ground arith

Says-refused :
    (outcome : Outcome) (code_base end cap executed total next stop : ℕ)
    → IsRefused outcome
    → Says outcome code_base end cap executed total next stop
Says-refused error _ _ _ _ _ _ _ h = tt
Says-refused idle _ _ _ _ _ _ _ h = tt
Says-refused finished _ _ _ _ _ _ _ h = absurd h
Says-refused faulted _ _ _ _ _ _ _ h = absurd h
Says-refused aborted_cap _ _ _ _ _ _ _ h = absurd h
Says-refused stopped _ _ _ _ _ _ _ h = absurd h

module _ (fmt : Fmt) (sizes : PageSizes) where
  describe-IsRecorded :
      (outcome : Outcome) (result : PlatformRunResult) (trace : Trace)
      → IsExecution trace.seed.rip trace.execution_events
      → length trace.execution_events ≤ trace.effective_max_steps
      → Says outcome trace.seed.rip
          (u64 (trace.seed.rip + length trace.code))
          trace.effective_max_steps
          (executed_count trace.execution_events)
          (length trace.execution_events)
          (next_rip trace.seed.rip trace.execution_events)
          result.stop_address
      → IsRecorded (describe_outcome fmt sizes result (record trace { outcome = outcome }))
  unfolding describe_outcome
  describe-IsRecorded stopped result trace runs bound says =
      if-both IsRecorded result.stopped_at_target _ _
        (record { execution = runs; bounded = bound; says = says })
        (record { execution = runs; bounded = bound; says = says })
  describe-IsRecorded faulted result trace runs bound says = record {
    execution = runs;
    bounded = bound;
    says = says;
  }
  describe-IsRecorded aborted_cap result trace runs bound says = record {
    execution = runs;
    bounded = bound;
    says = says;
  }
  describe-IsRecorded finished result trace runs bound says = record {
    execution = runs;
    bounded = bound;
    says = says;
  }
  describe-IsRecorded error result trace runs bound says = record {
    execution = runs;
    bounded = bound;
    says = tt;
  }
  describe-IsRecorded idle result trace runs bound says = record {
    execution = runs;
    bounded = bound;
    says = tt;
  }

  pub engine_trace-IsRecorded :
      (request : EngineRequest) (result : PlatformRunResult)
      → IsOwed request result
      → IsRecorded (engine_trace fmt sizes request result)
  unfolding engine_trace new_trace
  engine_trace-IsRecorded request result owed =
      let no_events : IsRefused result.outcome
          → (executed total next stop : ℕ)
          → Says result.outcome result.seed.rip (u64 (result.seed.rip + length request.code))
              (effective_max_steps request.max_steps) executed total next stop =
        λ h executed total next stop.
          Says-refused result.outcome _ _ _ executed total next stop h in
      if-cases IsRecorded result.instrumentation_detected _ _
        (λ e. record {
          execution = tt;
          bounded = omega arith;
          says = no_events (told-IsRefused result owed.told (inl e)) _ _ _ _;
        })
        (λ _.
          if-cases IsRecorded (is_empty result.error_text) _ _
            (λ _.
              describe-IsRecorded result.outcome result
                (record (result_trace request result) {
                  execution_events = map step_event result.steps;
                })
                owed.owed_execution (rw (length-map step_event result.steps) owed.owed_bound)
                (rw (length-map step_event result.steps) owed.owed_says))
            (λ e. record {
              execution = tt;
              bounded = omega arith;
              says = no_events (told-IsRefused result owed.told (inr e)) _ _ _ _;
            }))

pub empty-IsOwed :
    (request : EngineRequest) (result : PlatformRunResult)
    → result.steps ≡ []
    → IsRefused result.outcome
    → IsOwed request result
empty-IsOwed request result no_steps refuses = record {
  owed_execution = rw no_steps tt;
  owed_bound = rw no_steps (omega arith);
  owed_says = Says-refused result.outcome _ _ _ _ _ _ _ refuses;
  told = inl refuses;
}

pub error-IsRefused : (outcome : Outcome) → outcome ≡ error → IsRefused outcome
error-IsRefused outcome e = subst IsRefused (sym e) tt

pub silent-told :
    (result : PlatformRunResult)
    → IsSilent result
    → IsRefused result.outcome
      ⊎ ((result.error_text ≡ []) × (result.instrumentation_detected ≡ false))
silent-told result (inl e) = inl (error-IsRefused result.outcome e)
silent-told result (inr silent) = inr silent

pub step_cap-platform_request :
    (request : EngineRequest)
    → step_cap (platform_request request) ≡ effective_max_steps request.max_steps
unfolding step_cap platform_request effective_max_steps
step_cap-platform_request request = ground arith

pub effective-positive : (max_steps : ℕ) → 0 < effective_max_steps max_steps
unfolding effective_max_steps
effective-positive max_steps = ground arith

pub stepped-IsOwed :
    (request : EngineRequest) (result : PlatformRunResult) (cap base : ℕ) {target : Option ℕ}
    {is_breakpoint : ℕ → Bool}
    → cap ≡ effective_max_steps request.max_steps
    → result.seed.rip ≡ base
    → IsSilent result
    → Traced base
        (u64 (base + length request.code))
        cap
        target
        is_breakpoint
        0
        base
        result.steps
        result.outcome
        result.stop_address
        result.stopped_at_target
    → IsOwed request result
stepped-IsOwed request result cap base same_cap start silent follows =
    let room : 0 < cap = omega (arith, effective-positive request.max_steps) in
    let bound = Traced-length room follows in
    let events = map step_event result.steps in
    let says : Says result.outcome base (u64 (base + length request.code)) cap
        (executed_count events) (length result.steps) (next_rip base events) result.stop_address =
      Says-counts _ _ _ _ _ result.outcome (omega arith) (omega arith) (Traced-Says room follows) in
    record {
      owed_execution =
          subst (λ rip. IsExecution rip (map step_event result.steps)) (sym start)
            (Traced-IsExecution follows);
      owed_bound = omega (arith, bound);
      owed_says = rw (sym same_cap, start) says;
      told = silent-told result silent;
    }
