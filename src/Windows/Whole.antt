-- ===== src/Windows/Whole.antt =====
-- How a whole run of src/os.windows.cpp may end.
use mathlib.Core.Path.{subst, sym}
use bme.Base.{ℕ, ◌+◌, ◌*◌, Bool, Option, none, some, [], ◌∷◌, length, ◌≡◌, refl}
use bme.Calls.{Returns, returns, Returns-map, Returns-and_then, Returns-if}
use bme.Text.{Text}
use bme.Trace.{error}
use bme.Platform.{
  PlatformRunRequest, PlatformRunResult, PageSizes, prepare_platform_run, scratch_reserve_base,
  scratch_stack_bytes, scratch_data_bytes,
}
use bme.Linux.Steps.{failed_result}
use bme.Linux.Worker.{round_up}
use bme.Linux.Ends.{IsFresh}
use bme.Linux.Whole.{IsRefused, prepared_lem, prepared-IsFresh, prepared-IsRefused}
use bme.Windows.Thread.{
  virtual_reserve, virtual_reserve_at, virtual_commit, virtual_protect, flush_instruction_cache,
  WinLog, WinSystem, World,
}
use bme.Windows.Run.{
  placed, fail_areas, commit_areas, committed_areas, place_areas, reserved_areas, run_windows_steps,
}
use bme.Windows.Released.{Holding, IsGivenBack, release_regions-Returns}
use bme.Windows.Placed.{start_engine-Returns}
use bme.Windows.Ends.{IsSandboxing, PlacedEnds}

-- The world before the first call.
abbrev pub new_world : World
new_world = record { calls = []; g_engine = none }

abbrev off_at : WinLog → World
off_at log = record { calls = log; g_engine = none }

-- The calls that reserve the areas, up to each of them.
module _ (request : PlatformRunRequest) (sizes : PageSizes) where
  abbrev pub buffer_log : WinLog
  buffer_log =
      virtual_reserve (round_up sizes.page_size (length request.code) + sizes.page_size) ∷ []

  abbrev pub stack_log : WinLog
  stack_log = virtual_reserve (scratch_stack_bytes + sizes.page_size * 2) ∷ buffer_log

  abbrev pub data_log : WinLog
  data_log =
      virtual_reserve_at (scratch_reserve_base sizes) (scratch_data_bytes + sizes.page_size * 2)
      ∷ stack_log

  -- How a run may end: the request was refused without a call, it failed before the engine was
  -- started, or the code was placed in the three areas.
  pub data WinEnds (system : WinSystem) : PlatformRunResult → World → Type 0 where
    refused :
        (result : PlatformRunResult)
        → result.steps ≡ []
        → IsRefused result.outcome
        → WinEnds system result new_world
    unplaced :
        (result : PlatformRunResult) (world : World)
        → result.outcome ≡ error
        → result.steps ≡ []
        → IsGivenBack system
            (system.address_reply buffer_log)
            (system.address_reply stack_log)
            (system.address_reply data_log)
            world
        → WinEnds system result world
    in_areas :
        (buffer stack data_at : ℕ) (result : PlatformRunResult) (world : World)
        → system.address_reply buffer_log ≡ some buffer
        → system.address_reply stack_log ≡ some stack
        → system.address_reply data_log ≡ some data_at
        → PlacedEnds system request
            (placed request.code sizes.page_size buffer stack data_at)
            (some buffer)
            (some stack)
            (some data_at)
            result
            world
        → WinEnds system result world

  module _ (system : WinSystem) (sandboxing : IsSandboxing system) where
    fail_areas-Returns :
        (buffer stack data_at : Option ℕ) (result : PlatformRunResult) (text : Text) (log : WinLog)
        → system.address_reply buffer_log ≡ buffer
        → system.address_reply stack_log ≡ stack
        → system.address_reply data_log ≡ data_at
        → result.steps ≡ []
        → Holding system none none log
        → Returns (WinEnds system) (fail_areas buffer stack data_at result text (off_at log))
    unfolding fail_areas
    fail_areas-Returns buffer stack data_at result text log b s d no_steps held =
        Returns-and_then _ _
          (λ _ later freed. returns _ _ (
            unplaced (failed_result result text) later refl no_steps (record {
              before = log;
              freed_last = rw (b, s, d) freed.0;
              nothing_held = held;
              no_engine = freed.1;
            })))
          (release_regions-Returns system buffer stack data_at (off_at log))

    commit_areas-Returns :
        (page_size code_region buffer stack data_at : ℕ) (log : WinLog)
        → Holding system none none log
        → Returns
            (λ _ world. (l : WinLog) × (world ≡ off_at l) × Holding system none none l)
            (commit_areas system page_size code_region buffer stack data_at (off_at log))
    unfolding commit_areas
    commit_areas-Returns page_size code_region buffer stack data_at log held =
        let l = virtual_commit buffer code_region ∷ log in
        let l' = virtual_commit (stack + page_size) scratch_stack_bytes ∷ l in
        Returns-if _ _ (off_at l) (system.allows l)
          (λ _.
            Returns-if _ _ (off_at l') (system.allows l') (λ _. returns _ _ (_, refl, held))
              (λ _. returns _ _ (l', refl, held)))
          (λ _. returns _ _ (l, refl, held))

    module _ (result : PlatformRunResult) (new : IsFresh result) where
      place_areas-Returns :
          (buffer stack data_at : ℕ) (log : WinLog)
          → system.address_reply buffer_log ≡ some buffer
          → system.address_reply stack_log ≡ some stack
          → system.address_reply data_log ≡ some data_at
          → Holding system none none log
          → Returns (WinEnds system) (
              place_areas system request sizes.page_size
                (round_up sizes.page_size (length request.code))
                buffer
                stack
                data_at
                result
                (off_at log))
      unfolding place_areas committed_areas
      place_areas-Returns buffer stack data_at log b s d held =
          let code_region = round_up sizes.page_size (length request.code) in
          let ready = placed request.code sizes.page_size buffer stack data_at in
          let fail : (text : Text) (l : WinLog)
              → Holding system none none l
              → Returns (WinEnds system)
                  (fail_areas (some buffer) (some stack) (some data_at) result text (off_at l)) =
            λ text l held. fail_areas-Returns _ _ _ result text l b s d new.0 held in
          Returns-and_then _ _
            (λ committed world done.
              let (l, same, held') = done in
              let l' = virtual_protect buffer code_region ∷ l in
              let l'' = flush_instruction_cache ready.code_base (length request.code) ∷ l' in
              subst
                (λ world. Returns (WinEnds system) (
                  committed_areas system request sizes.page_size code_region buffer stack data_at
                    result committed world))
                (sym same)
                (Returns-if _ _ (off_at l) committed
                  (λ _.
                    Returns-if _ _ (off_at l') (system.allows l')
                      (λ _.
                        Returns-if _ _ (off_at l'') (system.allows l'')
                          (λ _.
                            Returns-map _
                              (λ ending later ends.
                                in_areas buffer stack data_at ending later b s d ends)
                              (start_engine-Returns system request ready buffer stack data_at
                                sandboxing result l'' none new held'))
                          (λ _. fail _ l'' held'))
                      (λ _. fail _ l' held'))
                  (λ _. fail _ l held')))
            (commit_areas-Returns sizes.page_size code_region buffer stack data_at log held)

      reserved_areas-Returns :
          (buffer stack data_at : Option ℕ)
          → system.address_reply buffer_log ≡ buffer
          → system.address_reply stack_log ≡ stack
          → system.address_reply data_log ≡ data_at
          → Returns (WinEnds system) (
              reserved_areas system request sizes.page_size
                (round_up sizes.page_size (length request.code))
                result
                buffer
                stack
                data_at
                (off_at data_log))
      unfolding reserved_areas
      reserved_areas-Returns (some buffer) (some stack) (some data_at) b s d =
          place_areas-Returns buffer stack data_at data_log b s d (refl, refl, refl)
      reserved_areas-Returns none none none b s d =
          fail_areas-Returns none none none result _ data_log b s d new.0 (refl, refl, refl)
      reserved_areas-Returns none none (some z) b s d =
          fail_areas-Returns none none (some z) result _ data_log b s d new.0 (refl, refl, refl)
      reserved_areas-Returns none (some y) none b s d =
          fail_areas-Returns none (some y) none result _ data_log b s d new.0 (refl, refl, refl)
      reserved_areas-Returns none (some y) (some z) b s d =
          fail_areas-Returns none (some y) (some z) result _ data_log b s d new.0 (refl, refl, refl)
      reserved_areas-Returns (some x) none none b s d =
          fail_areas-Returns (some x) none none result _ data_log b s d new.0 (refl, refl, refl)
      reserved_areas-Returns (some x) none (some z) b s d =
          fail_areas-Returns (some x) none (some z) result _ data_log b s d new.0 (refl, refl, refl)
      reserved_areas-Returns (some x) (some y) none b s d =
          fail_areas-Returns (some x) (some y) none result _ data_log b s d new.0 (refl, refl, refl)

    -- On a system whose thread is sandboxed, every run from a world without calls returns, as one of
    -- these: the request was refused, without a call or a step; or it ended in an error without a
    -- step; or it was stopped at its first instruction because that is the target; or the steps,
    -- outcome and stop are as the specification `Traced` allows, or those of a thread that ended by
    -- itself in the code. A run that made calls has freed at its very end exactly the areas that it
    -- was given, each once, after the thread's handle was closed and the handler removed, and has no
    -- engine any more. A run that started records the seed that its thread was given.
    pub run_windows_steps-Returns :
        (detected : Bool)
        → Returns (WinEnds system) (run_windows_steps system detected sizes request new_world)
    unfolding run_windows_steps
    run_windows_steps-Returns detected =
        let prepared = prepare_platform_run detected request in
        let known = prepared_lem detected request in
        Returns-if _ _ new_world prepared.0
          (λ runs.
            reserved_areas-Returns prepared.1 (prepared-IsFresh request prepared known runs)
              (system.address_reply buffer_log) (system.address_reply stack_log)
              (system.address_reply data_log) refl refl refl)
          (λ refuses.
            let (no_steps, refused_outcome, _) =
              prepared-IsRefused request prepared known refuses in
            returns prepared.1 new_world (refused prepared.1 no_steps refused_outcome))
