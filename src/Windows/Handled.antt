-- ===== src/Windows/Handled.antt =====
-- What one call of the handler of src/os.windows.cpp does to the engine and the thread's context.
use bme.Base.{
  if-cases, if-both, ℕ, suc, ◌+◌, ◌<◌, Bool, true, false, ◌&&◌, ◌||◌, not, Option, none, some, List,
  [], ◌∷◌, ◌++◌, ltb, leb, ◌==◌, if◌then◌else◌, map, length, length-append, ◌≡◌, refl, ◌∙◌, arith,
}
use mathlib.Core.List.{append-nil, map-append}
use mathlib.Core.Path.{sym, subst}
use bme.Base.Words.{u64}
use bme.Trace.{Outcome, finished, faulted}
use bme.Platform.{PlatformStep}
use bme.Linux.State.{snapshot_gpr}
use bme.Linux.Steps.{at_target, completed_step}
use bme.Linux.Traced.{Traced, breakpoint, fault, reached, left_code, capped}
use bme.Windows.{
  Context, ExceptionRecord, VehEngine, RawStep, exception_single_step, exception_breakpoint,
  exception_access_violation, exception_in_page_error, Disposition, continue_search, context_fpu,
  context_snapshot, trap, add_raw_step, veh_single_step, veh_breakpoint, veh_memory, veh_fault,
  veh_handle, continue_execution, bme_veh,
}
use bme.Windows.Run.{raw_step_of, engine_steps}

-- The target address of the engine, where it has one.
unfoldable pub engine_target : VehEngine → Option ℕ
engine_target engine = if engine.has_target then some engine.target_at else none

-- The steps and the ending that the specification of a run allows from where the engine stands; any
-- address may have a breakpoint.
abbrev pub EngineTraced :
    VehEngine → (taken rip : ℕ) → List PlatformStep → Outcome → ℕ → Bool → Type 0
EngineTraced engine =
    Traced engine.base (u64 (engine.base + engine.code_length)) engine.max_steps
      (engine_target engine) (λ _. true)

-- An engine that is recording a run.
pub record IsRunning (engine : VehEngine) : Type 0 where
  pub on : engine.active ≡ true
  pub open_ended : engine.outcome ≡ finished
  pub not_stopped : engine.stopped_at_target ≡ false
  pub room : length engine.raw_steps < engine.max_steps

-- The engine after a step that the run goes on from.
abbrev pub next_engine : VehEngine → Context → VehEngine
next_engine engine context = record (add_raw_step engine context) {
  previous_rip = context.regs.rip;
}

-- What an exception leads to: the thread goes on trapped with one step more, or it has its own
-- context back and the run is over as the specification allows.
pub data IsHandled (engine : VehEngine) (context : Context) : Context × VehEngine → Type 0 where
  goes_on :
      at_target (engine_target engine) context.regs.rip ≡ false
      → (ltb context.regs.rip engine.base
          || leb (u64 (engine.base + engine.code_length)) context.regs.rip)
        ≡ false
      → suc (length engine.raw_steps) < engine.max_steps
      → IsHandled engine context (trap context, next_engine engine context)
  ends :
      (engine' : VehEngine) (fresh : List PlatformStep)
      → engine_steps engine' ≡ map raw_step_of engine.raw_steps ++ fresh
      → EngineTraced engine
          (length engine.raw_steps)
          engine.previous_rip
          fresh
          engine'.outcome
          engine'.fault_address
          engine'.stopped_at_target
      → IsHandled engine context (engine.saved_context, engine')

at_engine_target :
    (engine : VehEngine) (rip : ℕ)
    → (engine.has_target && rip == engine.target_at) ≡ at_target (engine_target engine) rip
unfolding engine_target
at_engine_target engine rip = ground arith

module _ (exception : ExceptionRecord) (engine : VehEngine) (context : Context)
    (running : IsRunning engine) where
  -- A run that does not stop at its target has not stopped there before.
  still :
      (taken rip stop : ℕ) (fresh : List PlatformStep) (outcome : Outcome)
      → EngineTraced engine taken rip fresh outcome stop false
      → EngineTraced engine taken rip fresh outcome stop engine.stopped_at_target
  still taken rip stop fresh outcome follows =
      subst (λ stopped. EngineTraced engine taken rip fresh outcome stop stopped)
        (sym running.not_stopped) follows

  veh_single_step-IsHandled : IsHandled engine context (veh_single_step engine context)
  unfolding veh_single_step add_raw_step engine_steps context_snapshot context_fpu snapshot_gpr
  veh_single_step-IsHandled =
      let snapshot = context_snapshot context in
      let raws = engine.raw_steps in
      let step = completed_step engine.previous_rip snapshot in
      let raw : RawStep = record { rip = engine.previous_rip; registers = snapshot } in
      let recorded : map raw_step_of (raws ++ raw ∷ []) ++ [] ≡ map raw_step_of raws ++ step ∷ [] =
        append-nil _ ∙ map-append raw_step_of raws (raw ∷ []) in
      let counted : length (raws ++ raw ∷ []) ≡ suc (length raws) =
        omega (arith, length-append raws (raw ∷ [])) in
      let target = at_engine_target engine context.regs.rip in
      if-cases (IsHandled engine context)
        (engine.has_target && context.regs.rip == engine.target_at) _ _
        (λ at.
          ends _ (step ∷ []) recorded
            (reached (length raws) engine.previous_rip snapshot (sym target ∙ at)))
        (λ not_at.
          if-cases (IsHandled engine context)
            (ltb context.regs.rip engine.base
              || leb (u64 (engine.base + engine.code_length)) context.regs.rip)
            _ _
            (λ outside. ends _ (step ∷ []) recorded (
              still _ _ _ _ _ (
                left_code (length raws) engine.previous_rip engine.fault_address snapshot
                  (sym target ∙ not_at) outside)))
            (λ inside.
              if-cases (IsHandled engine context) (leb engine.max_steps (length (raws ++ raw ∷ [])))
                _ _
                (λ full. ends _ (step ∷ []) recorded (
                  still _ _ _ _ _ (
                    capped (length raws) engine.previous_rip engine.fault_address snapshot
                      (sym target ∙ not_at) inside (ground arith))))
                (λ more. goes_on (sym target ∙ not_at) inside (ground arith))))

  veh_breakpoint-IsHandled : IsHandled engine context (veh_breakpoint engine)
  unfolding veh_breakpoint engine_steps
  veh_breakpoint-IsHandled =
      ends _ [] refl
        (still _ _ _ _ _ (breakpoint (length engine.raw_steps) engine.previous_rip refl))

  veh_fault-IsHandled :
      exception.exception_address ≡ context.regs.rip
      → IsHandled engine context (veh_fault exception engine context)
  unfolding veh_fault veh_memory engine_steps context_snapshot context_fpu snapshot_gpr
  veh_fault-IsHandled at_rip =
      let snapshot = context_snapshot context in
      let faults_at : ℕ → Type 0 = λ rip.
        EngineTraced engine (length engine.raw_steps) engine.previous_rip
          (record { rip = rip; registers = snapshot; is_fault = true } ∷ []) faulted rip
          engine.stopped_at_target in
      let follows : faults_at exception.exception_address =
        subst faults_at (sym at_rip)
          (still _ _ _ _ _ (fault (length engine.raw_steps) engine.previous_rip snapshot)) in
      if-both
        (λ engine'.
          IsHandled engine context
            (engine.saved_context, record engine' { fault_registers = snapshot }))
        ((exception.exception_code == exception_access_violation
            || exception.exception_code == exception_in_page_error)
          && leb 2 (length exception.parameters))
        _ _ (ends _ _ refl follows) (ends _ _ refl follows)

  -- An exception that is raised where its context is leads the run on, or to an end that the
  -- specification allows.
  pub veh_handle-IsHandled :
      exception.exception_address ≡ context.regs.rip
      → IsHandled engine context (veh_handle exception engine context)
  unfolding veh_handle
  veh_handle-IsHandled at_rip =
      if-both (IsHandled engine context) (exception.exception_code == exception_single_step) _ _
        veh_single_step-IsHandled
        (if-both (IsHandled engine context) (exception.exception_code == exception_breakpoint) _ _
          veh_breakpoint-IsHandled (veh_fault-IsHandled at_rip))

-- The handler takes an exception of the thread of an engine that is on.
pub bme_veh-on :
    (exception : ExceptionRecord) (context : Context) (engine : VehEngine)
    → engine.active ≡ true
    → bme_veh engine.thread_id exception context (some engine) ≡ (
      continue_execution,
      (veh_handle exception engine context).0,
      some (veh_handle exception engine context).1,
    )
unfolding bme_veh
bme_veh-on exception context engine on = ground arith

-- What the handler answers in a thread: it passes the exception on with nothing changed, or it takes
-- the exception of its own thread.
pub data IsAnswered (thread : ℕ) (engine : VehEngine) (context : Context)
    : Disposition × Context × Option VehEngine → Type 0 where
  passed_on :
      (thread == engine.thread_id) ≡ false
      → IsAnswered thread engine context (continue_search, context, some engine)
  taken :
      (handled : Context × VehEngine)
      → (thread == engine.thread_id) ≡ true
      → IsHandled engine context handled
      → IsAnswered thread engine context (continue_execution, handled.0, some handled.1)

-- While a run is recorded, the handler passes an exception of another thread on and changes nothing.
-- It takes one of the sandboxed thread that is raised where its context is: the thread goes on
-- trapped in the code, with one step more than before and fewer than the cap, or it has the context
-- back that was saved, and the step or the stop that ends the run is one that the specification
-- `Traced` allows.
pub bme_veh-IsAnswered :
    (thread : ℕ) (exception : ExceptionRecord) (context : Context) (engine : VehEngine)
    → IsRunning engine
    → exception.exception_address ≡ context.regs.rip
    → IsAnswered thread engine context (bme_veh thread exception context (some engine))
unfolding bme_veh
bme_veh-IsAnswered thread exception context engine running at_rip =
    if-cases (IsAnswered thread engine context)
      (not engine.active || not (thread == engine.thread_id)) _ _
      (λ away. passed_on (ground (arith, running.on)))
      (λ here.
        taken (veh_handle exception engine context) (ground (arith, here))
          (veh_handle-IsHandled exception engine context running at_rip))
