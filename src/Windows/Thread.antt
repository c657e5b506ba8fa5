-- ===== src/Windows/Thread.antt =====
-- The system that src/os.windows.cpp calls, and the sandboxed thread that it runs: the calls so far,
-- with the engine that the handler finds. The system answers each call from all the calls so far.
use bme.Base.{ℕ, zero, suc, Bool, Option, none, some, List, ◌∷◌}
use bme.Calls.{Calling}
use bme.Windows.{
  Context, ExceptionRecord, VehEngine, continue_search, continue_execution, Disposition, bme_veh,
}

pub data WinCall : Type 0 where
  virtual_reserve : (size : ℕ) → WinCall
  virtual_reserve_at : (address size : ℕ) → WinCall
  virtual_commit : (address size : ℕ) → WinCall
  virtual_protect : (address size : ℕ) → WinCall
  virtual_free : (address : ℕ) → WinCall
  flush_instruction_cache : (address size : ℕ) → WinCall
  create_thread : WinCall
  get_thread_id : (thread : ℕ) → WinCall
  get_thread_context : (thread : ℕ) → WinCall
  set_thread_context : (thread : ℕ) → Context → WinCall
  resume_thread : (thread : ℕ) → WinCall
  wait_for_thread : (thread : ℕ) → WinCall
  terminate_thread : (thread : ℕ) → WinCall
  close_handle : (thread : ℕ) → WinCall
  add_handler : WinCall
  remove_handler : (handler : ℕ) → WinCall

-- The calls, the last one first.
abbrev pub WinLog : Type 0
WinLog = List WinCall

-- An exception of the sandboxed thread, with the context it was raised in.
pub record Raised : Type 0 where
  pub exception : ExceptionRecord
  pub context : Context

-- The answers, each to the log that ends with its call; and the thread, which raises an exception
-- or ends after the contexts it was let go on with, the last one first.
pub record WinSystem : Type 0 where
  pub address_reply : WinLog → Option ℕ
  pub allows : WinLog → Bool
  pub thread_reply : WinLog → Option ℕ
  pub thread_id_reply : WinLog → ℕ
  pub context_reply : WinLog → Option Context
  pub handler_reply : WinLog → Option ℕ
  pub raises : List Context → Option Raised

pub record World : Type 0 where
  pub calls : WinLog
  pub g_engine : Option VehEngine

abbrev pub W : Type 0 → Type 0
W A = Calling World A

abbrev pub called : WinCall → World → World
called call world = record world { calls = call ∷ world.calls }

-- A call with an answer of a type.
abbrev pub win_ask : {A : Type 0} → (WinLog → A) → WinCall → W A
win_ask reply call world = some (reply (call ∷ world.calls), called call world)

-- A call whose answer is not looked at.
abbrev pub win_tell : WinCall → W (Unit {0})
win_tell call world = some (tt, called call world)

abbrev pub set_engine : Option VehEngine → W (Unit {0})
set_engine engine world = some (tt, record world { g_engine = engine })

-- `g_engine->…`, which needs an engine.
abbrev pub with_engine : {A : Type 0} → (VehEngine → W A) → W A
with_engine next world = elim world.g_engine [ none ↦ none | some engine ↦ next engine world ]

-- The thread after the handler's answer; an exception that no handler takes ends the process.
abbrev pub after_veh :
    (Context → Option VehEngine → Option (Option VehEngine))
    → Disposition × Context × Option VehEngine
    → Option (Option VehEngine)
after_veh next (continue_search, context, engine) = none
after_veh next (continue_execution, context, engine) = next context engine

-- The thread raises an exception, or it has ended.
abbrev pub thread_round :
    (Context → Option VehEngine → Option (Option VehEngine))
    → (thread_id : ℕ) → Option VehEngine
    → Option Raised
    → Option (Option VehEngine)
thread_round next thread_id engine none = some engine
thread_round next thread_id engine (some raised) =
    after_veh next (bme_veh thread_id raised.exception raised.context engine)

-- The thread goes on as the handler says, until it ends. `fuel` bounds its exceptions.
unfoldable pub run_thread :
    (List Context → Option Raised)
    → (thread_id fuel : ℕ) → List Context
    → Option VehEngine
    → Option (Option VehEngine)
run_thread raises thread_id zero resumed engine = none
run_thread raises thread_id (suc fuel) resumed engine =
    thread_round (λ context. run_thread raises thread_id fuel (context ∷ resumed)) thread_id engine
      (raises resumed)
