-- ===== src/Windows/Ends.antt =====
-- How a run of src/os.windows.cpp may end, once its areas are reserved.
use mathlib.Core.Path.{subst}
use bme.Base.{
  ℕ, suc, Bool, true, false, Option, none, some, [], ◌∷◌, ◌++◌, length, map, ◌≡◌, inr, refl, sym,
  arith,
}
use bme.Calls.{Returns, returns, Returns-and_then, Returns-if}
use bme.Text.{Text}
use bme.Trace.{error, stopped}
use bme.Platform.{PlatformRunRequest, PlatformRunResult}
use bme.Linux.Steps.{failed_result, step_cap}
use bme.Linux.Run.{stops_at_start}
use bme.Linux.Ends.{IsFresh, IsSilent, step_cap-positive}
use bme.Windows.{Context, VehEngine}
use bme.Windows.Thread.{wait_for_thread, remove_handler, close_handle, WinLog, WinSystem, World}
use bme.Windows.Handled.{engine_target}
use bme.Windows.Traced.{EngineEnds, IsSandboxed, Recorded, recorded, run_thread-Recorded}
use bme.Windows.Run.{
  raw_step_of, Placed, new_engine, recorded_context, seeded_context, engine_steps, engine_result,
  release_all, fail_thread, collect, after_run, execute_thread, executed_thread, resumed_thread,
}
use bme.Windows.Released.{
  Holding, free_calls, drop_thread, drop_handler, IsGivenBack, end_thread-Returns,
  release_regions-Returns,
}

-- A system whose thread is sandboxed, whatever context it is found in.
abbrev pub IsSandboxing : WinSystem → Type 0
IsSandboxing system =
    (log : WinLog) (context : Context)
    → system.context_reply log ≡ some context
    → IsSandboxed system.raises context

-- How a run ends that was placed in its areas.
pub data PlacedEnds (system : WinSystem) (request : PlatformRunRequest) (ready : Placed)
    (buffer stack data_at : Option ℕ) : PlatformRunResult → World → Type 0 where
  start_failed :
      (result : PlatformRunResult) (world : World)
      → result.outcome ≡ error
      → result.steps ≡ []
      → IsGivenBack system buffer stack data_at world
      → PlacedEnds system request ready buffer stack data_at result world
  stopped_first :
      (context : Context) (result : PlatformRunResult) (world : World)
      → stops_at_start request.stop_offset ≡ true
      → result.outcome ≡ stopped
      → result.steps ≡ []
      → result.stop_address ≡ ready.code_base
      → result.seed ≡ recorded_context request ready context
      → IsSilent result
      → IsGivenBack system buffer stack data_at world
      → PlacedEnds system request ready buffer stack data_at result world
  ran :
      (context : Context) (result : PlatformRunResult) (world : World)
      → result.seed ≡ recorded_context request ready context
      → IsSilent result
      → EngineEnds
          (new_engine request ready)
          0
          ready.code_base
          result.steps
          result.outcome
          result.stop_address
          result.stopped_at_target
      → IsGivenBack system buffer stack data_at world
      → PlacedEnds system request ready buffer stack data_at result world

abbrev pub world_at : WinLog → VehEngine → World
world_at log engine = record { calls = log; g_engine = some engine }

-- The engine of a request with what the system tells of its thread, on or off.
abbrev pub thread_engine : PlatformRunRequest → Placed → (id : ℕ) → Context → Bool → VehEngine
thread_engine request ready id context active = record (new_engine request ready) {
  thread_id = id;
  saved_context = context;
  active = active;
}

module _ (system : WinSystem) (request : PlatformRunRequest) (ready : Placed)
    (buffer stack data_at : ℕ) where
  abbrev Ends : PlatformRunResult → World → Type 0
  Ends = PlacedEnds system request ready (some buffer) (some stack) (some data_at)

  -- The result is that of a thread that is over, with all given back.
  pub given_back :
      (log : WinLog) (later : World)
      → Holding system none none log
      → later.calls ≡ free_calls system (some buffer) (some stack) (some data_at) ++ log
      → IsGivenBack system
          (some buffer)
          (some stack)
          (some data_at)
          (record later { g_engine = none })
  given_back log later held calls = record {
    before = log;
    freed_last = calls;
    nothing_held = held;
    no_engine = refl;
  }

  pub fail_thread-Returns :
      (thread : ℕ) (result : PlatformRunResult) (text : Text) (log : WinLog)
      (engine : Option VehEngine)
      → result.steps ≡ []
      → Holding system (some thread) none log
      → Returns Ends (
          fail_thread system request ready buffer stack data_at thread result text
            (record { calls = log; g_engine = engine }))
  unfolding fail_thread release_all
  fail_thread-Returns thread result text log engine no_steps held =
      Returns-and_then _ _
        (λ _ world ended.
          Returns-and_then _ _
            (λ _ later freed. returns _ _ (
              start_failed (failed_result result text) _ refl no_steps
                (given_back world.calls later ended freed.0)))
            (release_regions-Returns system (some buffer) (some stack) (some data_at) world))
        (end_thread-Returns system thread log engine held)

  -- The run of the thread, from an engine that has recorded nothing.
  after_run-Returns :
      (log : WinLog) (engine : VehEngine) (run : Option (Option VehEngine))
      → engine.raw_steps ≡ []
      → Recorded engine run
      → Returns
          (λ _ world.
            (engine' : VehEngine) × (world ≡ world_at log engine')
            × EngineEnds engine 0 engine.previous_rip
                (engine_steps engine')
                engine'.outcome
                engine'.fault_address
                engine'.stopped_at_target)
          (after_run (world_at log engine) run)
  after_run-Returns log engine _ none_yet (recorded engine' fresh steps ending) =
      let begun : (engine_steps engine' ≡ fresh)
          × EngineEnds engine 0 engine.previous_rip fresh engine'.outcome engine'.fault_address
              engine'.stopped_at_target =
        subst
          (λ raws.
            (engine_steps engine' ≡ map raw_step_of raws ++ fresh)
            × EngineEnds engine (length raws) engine.previous_rip fresh engine'.outcome
                engine'.fault_address engine'.stopped_at_target)
          none_yet (steps, ending) in
      returns _ _ (
        engine',
        refl,
        subst
            (λ steps.
              EngineEnds engine 0 engine.previous_rip steps engine'.outcome engine'.fault_address
                engine'.stopped_at_target)
            (sym begun.0) begun.1,
      )

  module _ (id : ℕ) (context : Context) (result : PlatformRunResult)
      (sandboxed : IsSandboxed system.raises context)
      (seeded : result.seed ≡ recorded_context request ready context) (new : IsFresh result) where
    abbrev Ran : VehEngine → Type 0
    Ran engine =
        EngineEnds (new_engine request ready) 0 ready.code_base (engine_steps engine) engine.outcome
          engine.fault_address engine.stopped_at_target

    execute_thread-Returns :
        (log : WinLog)
        → Returns
            (λ _ world. (engine : VehEngine) × (world ≡ world_at log engine) × Ran engine)
            (execute_thread system request ready buffer stack data_at
              (seeded_context request ready context)
              (world_at log (thread_engine request ready id context true)))
    unfolding execute_thread new_engine engine_target
    execute_thread-Returns log =
        let engine = thread_engine request ready id context true in
        after_run-Returns log engine _ refl (
          run_thread-Recorded system.raises (suc (step_cap request))
            (seeded_context request ready context ∷ []) engine sandboxed
            (record {
              on = refl;
              open_ended = refl;
              not_stopped = refl;
              room = step_cap-positive request;
            })
            (omega arith))

    collect-Returns :
        (log : WinLog) (engine : VehEngine)
        → Ran engine
        → Holding system none none log
        → Returns Ends
            (collect system request ready buffer stack data_at result (world_at log engine))
    unfolding collect release_all engine_result
    collect-Returns log engine follows held =
        Returns-and_then _ _
          (λ _ later freed. returns _ _ (
            ran context (engine_result result engine) _ seeded (inr (new.2, new.3)) follows
              (given_back log later held freed.0)))
          (release_regions-Returns system (some buffer) (some stack) (some data_at)
            (world_at log engine))

    pub resumed_thread-Returns :
        (thread handler : ℕ) (log : WinLog)
        → Holding system (some thread) (some handler) log
        → Returns Ends (
            resumed_thread system request ready buffer stack data_at thread handler
              (seeded_context request ready context)
              result
              (world_at log (thread_engine request ready id context true)))
    unfolding resumed_thread executed_thread engine_steps
    resumed_thread-Returns thread handler log held =
        Returns-and_then _ _
          (λ _ world run.
            let (engine, same, follows) = run in
            let l = wait_for_thread thread ∷ log in
            let l' = remove_handler handler ∷ l in
            let off = record engine { active = false } in
            let held' : Holding system (some thread) none l' =
              drop_handler system (some thread) handler l held in
            subst
              (λ world. Returns Ends (
                executed_thread system request ready buffer stack data_at thread handler result
                  world))
              (sym same)
              (Returns-if _ _ (world_at l' off) (system.allows l)
                (λ _.
                  collect-Returns (close_handle thread ∷ l') off follows
                    (drop_thread system thread none l' held'))
                (λ _. fail_thread-Returns thread result _ l' (some off) new.0 held')))
          (execute_thread-Returns log)
