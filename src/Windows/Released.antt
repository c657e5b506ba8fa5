-- ===== src/Windows/Released.antt =====
-- What a run of src/os.windows.cpp holds of the system while it goes on, and gives back at its end.
use bme.Base.{
  ℕ, suc, Option, none, some, [], ◌∷◌, ◌++◌, ◌==◌, if◌then◌else◌, ◌≡◌, refl, ap, ◌∙◌, arith,
}
use bme.Calls.{Returns, returns, Returns-and_then, Returns-if}
use bme.Windows.{VehEngine}
use bme.Windows.Thread.{
  virtual_free, create_thread, terminate_thread, close_handle, add_handler, remove_handler, WinLog,
  WinSystem, World,
}
use bme.Windows.Run.{free_area, release_regions, end_thread}

-- How often the log frees an area.
abbrev pub frees_in : WinLog → ℕ
frees_in [] = 0
frees_in (virtual_free address ∷ log) = suc (frees_in log)
frees_in (_ ∷ log) = frees_in log

abbrev dropped : ℕ → Option ℕ → Option ℕ
dropped handle none = none
dropped handle (some held) = if handle == held then none else some held

module _ (system : WinSystem) where
  -- The thread handle that is open after a log.
  abbrev pub open_thread : WinLog → Option ℕ
  open_thread [] = none
  open_thread (create_thread ∷ log) = system.thread_reply (create_thread ∷ log)
  open_thread (close_handle thread ∷ log) = dropped thread (open_thread log)
  open_thread (_ ∷ log) = open_thread log

  -- The handler that is installed after a log.
  abbrev pub open_handler : WinLog → Option ℕ
  open_handler [] = none
  open_handler (add_handler ∷ log) = system.handler_reply (add_handler ∷ log)
  open_handler (remove_handler handler ∷ log) = dropped handler (open_handler log)
  open_handler (_ ∷ log) = open_handler log

  -- No area is freed yet, and a thread's handle and a handler are held.
  abbrev pub Holding : (thread handler : Option ℕ) → WinLog → Type 0
  Holding thread handler log =
      (frees_in log ≡ 0) × (open_thread log ≡ thread) × (open_handler log ≡ handler)

  pub drop_thread :
      (thread : ℕ) (handler : Option ℕ) (log : WinLog)
      → Holding (some thread) handler log
      → Holding none handler (close_handle thread ∷ log)
  drop_thread thread handler log held = (held.0, ap (dropped thread) held.1 ∙ ground arith, held.2)

  pub drop_handler :
      (thread : Option ℕ) (handler : ℕ) (log : WinLog)
      → Holding thread (some handler) log
      → Holding thread none (remove_handler handler ∷ log)
  drop_handler thread handler log held =
      (held.0, held.1, ap (dropped handler) held.2 ∙ ground arith)

  abbrev pub free_call : Option ℕ → WinLog
  free_call none = []
  free_call (some address) = virtual_free address ∷ []

  abbrev pub free_calls : (buffer stack data_at : Option ℕ) → WinLog
  free_calls buffer stack data_at = free_call data_at ++ free_call stack ++ free_call buffer

  -- The last calls free the areas that there are, each of them once and no area before; the handle
  -- of the thread was closed and the handler removed before, and there is no engine any more.
  pub record IsGivenBack (buffer stack data_at : Option ℕ) (world : World) : Type 0 where
    pub before : WinLog
    pub freed_last : world.calls ≡ free_calls buffer stack data_at ++ before
    pub nothing_held : Holding none none before
    pub no_engine : world.g_engine ≡ none

  pub end_thread-Returns :
      (thread : ℕ) (log : WinLog) (engine : Option VehEngine)
      → Holding (some thread) none log
      → Returns
          (λ _ world. Holding none none world.calls)
          (end_thread system thread (record { calls = log; g_engine = engine }))
  unfolding end_thread
  end_thread-Returns thread log engine held =
      let l = terminate_thread thread ∷ log in
      Returns-and_then {P = λ _ world. Holding (some thread) none world.calls} _ _
        (λ _ world held. returns _ _ (drop_thread thread none world.calls held))
        (Returns-if _ _ _ (system.allows l) (λ _. returns _ _ held) (λ _. returns _ _ held))

  pub release_regions-Returns :
      (buffer stack data_at : Option ℕ) (world : World)
      → Returns
          (λ _ later.
            (later.calls ≡ free_calls buffer stack data_at ++ world.calls)
            × (later.g_engine ≡ world.g_engine))
          (release_regions buffer stack data_at world)
  unfolding release_regions free_area
  release_regions-Returns none none none world = returns _ _ (refl, refl)
  release_regions-Returns none none (some c) world = returns _ _ (refl, refl)
  release_regions-Returns none (some b) none world = returns _ _ (refl, refl)
  release_regions-Returns none (some b) (some c) world = returns _ _ (refl, refl)
  release_regions-Returns (some a) none none world = returns _ _ (refl, refl)
  release_regions-Returns (some a) none (some c) world = returns _ _ (refl, refl)
  release_regions-Returns (some a) (some b) none world = returns _ _ (refl, refl)
  release_regions-Returns (some a) (some b) (some c) world = returns _ _ (refl, refl)
