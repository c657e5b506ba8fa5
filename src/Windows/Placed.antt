-- ===== src/Windows/Placed.antt =====
-- How a run of src/os.windows.cpp may end, from the start of its engine on.
use bme.Base.{ℕ, true, false, Option, none, some, ◌∷◌, ◌==◌, ◌≡◌, inr, refl}
use bme.Calls.{Returns, returns, Returns-and_then, Returns-if}
use bme.Platform.{PlatformRunRequest, PlatformRunResult}
use bme.Linux.State.{mxcsr_unsupported}
use bme.Linux.Steps.{failed_result}
use bme.Linux.Run.{stops_at_start}
use bme.Linux.Ends.{IsFresh}
use bme.Windows.{Context, VehEngine}
use bme.Windows.Thread.{
  create_thread, get_thread_id, get_thread_context, set_thread_context, resume_thread, add_handler,
  remove_handler, WinLog, WinSystem, World,
}
use bme.Windows.Run.{
  Placed, new_engine, recorded_context, seeded_context, fail_areas, release_all, handled_thread,
  prepared_thread, context_thread, identified_thread, created_thread, start_engine,
}
use bme.Windows.Released.{Holding, drop_handler, end_thread-Returns, release_regions-Returns}
use bme.Windows.Ends.{
  IsSandboxing, PlacedEnds, start_failed, stopped_first, world_at, thread_engine, given_back,
  fail_thread-Returns, resumed_thread-Returns,
}

module _ (system : WinSystem) (request : PlatformRunRequest) (ready : Placed)
    (buffer stack data_at : ℕ) (sandboxing : IsSandboxing system) where
  abbrev Ends : PlatformRunResult → World → Type 0
  Ends = PlacedEnds system request ready (some buffer) (some stack) (some data_at)

  module _ (thread id : ℕ) (context : Context) (told : WinLog)
      (found : system.context_reply told ≡ some context) (result : PlatformRunResult)
      (seeded : result.seed ≡ recorded_context request ready context) (new : IsFresh result) where
    abbrev idle_at : WinLog → World
    idle_at log = world_at log (thread_engine request ready id context false)

    handled_thread-Returns :
        (handler : Option ℕ) (log : WinLog)
        → Holding system (some thread) handler log
        → Returns Ends (
            handled_thread system request ready buffer stack data_at thread
              (seeded_context request ready context)
              result
              handler
              (idle_at log))
    unfolding handled_thread
    handled_thread-Returns none log held =
        fail_thread-Returns system request ready buffer stack data_at thread result _ log _ new.0
          held
    handled_thread-Returns (some handler) log held =
        let l = resume_thread thread ∷ log in
        Returns-if _ _ (world_at l (thread_engine request ready id context true)) (system.allows l)
          (λ _.
            resumed_thread-Returns system request ready buffer stack data_at id context result
              (sandboxing told context found) seeded new thread handler l held)
          (λ _.
            fail_thread-Returns system request ready buffer stack data_at thread result _
              (remove_handler handler ∷ l) _ new.0
              (drop_handler system (some thread) handler l held))

    prepared_thread-Returns :
        (log : WinLog)
        → Holding system (some thread) none log
        → Returns Ends (
            prepared_thread system request ready buffer stack data_at thread
              (seeded_context request ready context)
              result
              (idle_at log))
    unfolding prepared_thread release_all
    prepared_thread-Returns log held =
        Returns-if _ _ (idle_at log) (stops_at_start request.stop_offset)
          (λ at.
            Returns-and_then _ _
              (λ _ world ended.
                Returns-and_then _ _
                  (λ _ later freed. returns _ _ (
                    stopped_first context _ _ at refl new.0 refl seeded (inr (new.2, new.3)) (
                      given_back system request ready buffer stack data_at world.calls later ended
                        freed.0)))
                  (release_regions-Returns system (some buffer) (some stack) (some data_at) world))
              (end_thread-Returns system thread log _ held))
          (λ _.
            handled_thread-Returns (system.handler_reply (add_handler ∷ log)) (add_handler ∷ log)
              (held.0, held.1, refl))

  module _ (thread : ℕ) (result : PlatformRunResult) (new : IsFresh result) where
    context_thread-Returns :
        (id : ℕ) (context : Option Context) (log : WinLog)
        → system.context_reply log ≡ context
        → Holding system (some thread) none log
        → Returns Ends (
            context_thread system request ready buffer stack data_at thread result context
              (world_at log (record (new_engine request ready) { thread_id = id })))
    unfolding context_thread new_engine
    context_thread-Returns id none log found held =
        fail_thread-Returns system request ready buffer stack data_at thread result _ log _ new.0
          held
    context_thread-Returns id (some context) log found held =
        let result' = record result { seed = recorded_context request ready context } in
        let world = world_at log (thread_engine request ready id context false) in
        let l = set_thread_context thread (seeded_context request ready context) ∷ log in
        Returns-if _ _ world (mxcsr_unsupported request.seed context.flt_save)
          (λ _.
            fail_thread-Returns system request ready buffer stack data_at thread result _ log _
              new.0 held)
          (λ _.
            Returns-if _ _ (world_at l (thread_engine request ready id context false))
              (system.allows l)
              (λ _. prepared_thread-Returns thread id context log found result' refl new l held)
              (λ _.
                fail_thread-Returns system request ready buffer stack data_at thread result' _ l _
                  new.0 held))

    identified_thread-Returns :
        (id : ℕ) (log : WinLog)
        → Holding system (some thread) none log
        → Returns Ends (
            identified_thread system request ready buffer stack data_at thread result id
              (world_at log (new_engine request ready)))
    unfolding identified_thread
    identified_thread-Returns id log held =
        let l = get_thread_context thread ∷ log in
        Returns-if _ _ (world_at log (record (new_engine request ready) { thread_id = id }))
          (id == 0)
          (λ _.
            fail_thread-Returns system request ready buffer stack data_at thread result _ log _
              new.0 held)
          (λ _. context_thread-Returns id (system.context_reply l) l refl held)

  created_thread-Returns :
      (thread : Option ℕ) (result : PlatformRunResult) (log : WinLog)
      → IsFresh result
      → Holding system thread none log
      → Returns Ends (
          created_thread system request ready buffer stack data_at result thread
            (world_at log (new_engine request ready)))
  unfolding created_thread fail_areas
  created_thread-Returns none result log new held =
      Returns-and_then _ _
        (λ _ later freed. returns _ _ (
          start_failed (failed_result result _) _ refl new.0 (record {
            before = log;
            freed_last = freed.0;
            nothing_held = held;
            no_engine = freed.1;
          })))
        (release_regions-Returns system (some buffer) (some stack) (some data_at) _)
  created_thread-Returns (some thread) result log new held =
      identified_thread-Returns thread result new
        (system.thread_id_reply (get_thread_id thread ∷ log)) (get_thread_id thread ∷ log) held

  pub start_engine-Returns :
      (result : PlatformRunResult) (log : WinLog) (engine : Option VehEngine)
      → IsFresh result
      → Holding system none none log
      → Returns Ends (
          start_engine system request ready buffer stack data_at result
            (record { calls = log; g_engine = engine }))
  unfolding start_engine
  start_engine-Returns result log engine new held =
      created_thread-Returns (system.thread_reply (create_thread ∷ log)) _ (create_thread ∷ log) new
        (held.0, refl, held.2)
