-- ===== src/Windows/Traced.antt =====
-- The sandboxed thread of src/os.windows.cpp, exception by exception, against the specification of a
-- run.
use mathlib.Core.List.{append_assoc, map-append}
use mathlib.Core.Path.{subst}
use bme.Base.{
  ℕ, zero, suc, ◌+◌, ◌<◌, Bool, true, false, ◌||◌, Option, none, some, Option-cases, List, [], ◌∷◌,
  ◌++◌, ltb, leb, if◌then◌else◌, map, length, length-append, ◌≡◌, ◌⊎◌, inl, inr, ap, ◌∙◌, arith,
}
use bme.Base.Words.{u64}
use bme.Seed.Compose.{Registers}
use bme.Trace.{Outcome, finished}
use bme.Platform.{PlatformStep}
use bme.Linux.State.{snapshot_gpr}
use bme.Linux.Steps.{at_target, completed_step}
use bme.Linux.Traced.{more}
use bme.Windows.{Context, VehEngine, context_fpu, context_snapshot, trap, add_raw_step, veh_handle}
use bme.Windows.Thread.{Raised, after_veh, thread_round, run_thread}
use bme.Windows.Run.{raw_step_of, fault_step_of, is_faulted, engine_steps}
use bme.Windows.Handled.{
  engine_target, EngineTraced, IsRunning, next_engine, IsHandled, goes_on, ends,
  veh_handle-IsHandled, bme_veh-on,
}

-- The steps of a thread that ended by itself in the code, before the engine ended its run.
pub data Unended (code_base code_end cap : ℕ) (target : Option ℕ)
    : (taken rip : ℕ) → List PlatformStep → Type 0 where
  gone : (taken rip : ℕ) → Unended code_base code_end cap target taken rip []
  later :
      (taken rip : ℕ) (snapshot : Registers) (steps : List PlatformStep)
      → at_target target snapshot.rip ≡ false
      → (ltb snapshot.rip code_base || leb code_end snapshot.rip) ≡ false
      → suc taken < cap
      → Unended code_base code_end cap target (suc taken) snapshot.rip steps
      → Unended code_base code_end cap target taken rip (completed_step rip snapshot ∷ steps)

-- How the run of a thread may end: as the specification allows, or by itself.
abbrev pub EngineEnds :
    VehEngine → (taken rip : ℕ) → List PlatformStep → Outcome → ℕ → Bool → Type 0
EngineEnds engine taken rip steps outcome stop stopped_at_target =
    EngineTraced engine taken rip steps outcome stop stopped_at_target
    ⊎ ((outcome ≡ finished)
        × (stopped_at_target ≡ false)
        × Unended engine.base (u64 (engine.base + engine.code_length)) engine.max_steps
            (engine_target engine) taken rip steps)

-- A thread whose exceptions are raised where their context is, and which ends without another one
-- once it has its own context back.
pub record IsSandboxed (raises : List Context → Option Raised) (saved : Context) : Type 0 where
  pub raised_in_place :
      (resumed : List Context) (raised : Raised)
      → raises resumed ≡ some raised
      → raised.exception.exception_address ≡ raised.context.regs.rip
  pub returns_quietly : (resumed : List Context) → raises (saved ∷ resumed) ≡ none

-- The thread ended, with an engine whose run ended as it may from where `engine` stood.
pub data Recorded (engine : VehEngine) : Option (Option VehEngine) → Type 0 where
  recorded :
      (engine' : VehEngine) (fresh : List PlatformStep)
      → engine_steps engine' ≡ map raw_step_of engine.raw_steps ++ fresh
      → EngineEnds engine
          (length engine.raw_steps)
          engine.previous_rip
          fresh
          engine'.outcome
          engine'.fault_address
          engine'.stopped_at_target
      → Recorded engine (some (some engine'))

counted_steps :
    (engine : VehEngine) (context : Context)
    → length (next_engine engine context).raw_steps ≡ suc (length engine.raw_steps)
unfolding add_raw_step
counted_steps engine context = omega (
  arith,
  length-append engine.raw_steps
      (record { rip = engine.previous_rip; registers = context_snapshot context } ∷ []),
)

-- What is recorded from the next step on is recorded from this one on, with it before.
next-Recorded :
    (engine : VehEngine) (context : Context) (run : Option (Option VehEngine))
    → at_target (engine_target engine) context.regs.rip ≡ false
    → (ltb context.regs.rip engine.base
        || leb (u64 (engine.base + engine.code_length)) context.regs.rip)
      ≡ false
    → suc (length engine.raw_steps) < engine.max_steps
    → Recorded (next_engine engine context) run
    → Recorded engine run
unfolding add_raw_step engine_target context_snapshot context_fpu snapshot_gpr
next-Recorded engine context _ not_at inside room (recorded engine' fresh steps ending) =
    let raws = engine.raw_steps in
    let snapshot = context_snapshot context in
    let step = completed_step engine.previous_rip snapshot in
    let same : engine_steps engine' ≡ map raw_step_of raws ++ step ∷ fresh =
      steps
      ∙ ap (λ before. before ++ fresh)
          (map-append raw_step_of raws
            (record { rip = engine.previous_rip; registers = snapshot } ∷ []))
      ∙ append_assoc (map raw_step_of raws) (step ∷ []) fresh in
    recorded engine' (step ∷ fresh) same (elim ending [
      | inl follows ↦ inl (
          more (length raws) engine.previous_rip engine'.fault_address snapshot fresh
            engine'.outcome engine'.stopped_at_target not_at inside room
            (subst
              (λ n.
                EngineTraced engine n snapshot.rip fresh engine'.outcome engine'.fault_address
                  engine'.stopped_at_target)
              (counted_steps engine context) follows))
      | inr unended ↦ inr (
        unended.0,
        unended.1,
        later (length raws) engine.previous_rip snapshot fresh not_at inside room (
            subst
              (λ n.
                Unended engine.base (u64 (engine.base + engine.code_length)) engine.max_steps
                  (engine_target engine) n snapshot.rip fresh)
              (counted_steps engine context) unended.2),
      )
    ])

next-IsRunning :
    (engine : VehEngine) (context : Context)
    → IsRunning engine
    → suc (length engine.raw_steps) < engine.max_steps
    → IsRunning (next_engine engine context)
unfolding add_raw_step
next-IsRunning engine context running room = record {
  on = running.on;
  open_ended = running.open_ended;
  not_stopped = running.not_stopped;
  room = omega (arith, counted_steps engine context);
}

module _ (raises : List Context → Option Raised) where
  -- A thread that has its own context back ends with what the engine has recorded.
  run_thread-quiet :
      (thread_id fuel : ℕ) (resumed : List Context) (engine : Option VehEngine)
      → 0 < fuel
      → raises resumed ≡ none
      → run_thread raises thread_id fuel resumed engine ≡ some engine
  unfolding run_thread
  run_thread-quiet thread_id zero resumed engine fuel quiet = absurd (omega arith)
  run_thread-quiet thread_id (suc fuel) resumed engine positive quiet =
      ap (thread_round _ thread_id engine) quiet

  -- One exception of the thread of an engine that is on.
  run_thread-raised :
      (fuel : ℕ) (resumed : List Context) (engine : VehEngine) (raised : Raised)
      → engine.active ≡ true
      → raises resumed ≡ some raised
      → run_thread raises engine.thread_id (suc fuel) resumed (some engine)
        ≡ run_thread raises engine.thread_id fuel
            ((veh_handle raised.exception engine raised.context).0 ∷ resumed)
            (some (veh_handle raised.exception engine raised.context).1)
  unfolding run_thread
  run_thread-raised fuel resumed engine raised on raise =
      let next : Context → Option VehEngine → Option (Option VehEngine) =
        λ context. run_thread raises engine.thread_id fuel (context ∷ resumed) in
      ap (thread_round next engine.thread_id (some engine)) raise
      ∙ ap (after_veh next) (bme_veh-on raised.exception raised.context engine on)

  handled-Recorded :
      (fuel : ℕ) (resumed : List Context) (engine : VehEngine) (context : Context)
      (handled : Context × VehEngine)
      → IsSandboxed raises engine.saved_context
      → 0 < fuel
      → (suc (length engine.raw_steps) < engine.max_steps
          → Recorded (next_engine engine context) (
              run_thread raises engine.thread_id fuel
                (trap context ∷ resumed)
                (some (next_engine engine context))))
      → IsHandled engine context handled
      → Recorded engine
          (run_thread raises engine.thread_id fuel (handled.0 ∷ resumed) (some handled.1))
  handled-Recorded fuel resumed engine context _ sandboxed positive next
        (goes_on not_at inside room) =
      next-Recorded engine context _ not_at inside room (next room)
  handled-Recorded fuel resumed engine context _ sandboxed positive next
        (ends engine' fresh steps follows) =
      rw
        (run_thread-quiet engine.thread_id fuel (engine.saved_context ∷ resumed) (some engine')
          positive (sandboxed.returns_quietly resumed))
        (recorded engine' fresh steps (inl follows))

  pub run_thread-Recorded :
      (fuel : ℕ) (resumed : List Context) (engine : VehEngine)
      → IsSandboxed raises engine.saved_context
      → IsRunning engine
      → engine.max_steps < fuel + length engine.raw_steps
      → Recorded engine (run_thread raises engine.thread_id fuel resumed (some engine))
  unfolding run_thread engine_steps add_raw_step
  run_thread-Recorded zero resumed engine sandboxed running fuel =
      absurd (omega (arith, running.room))
  run_thread-Recorded (suc fuel) resumed engine sandboxed running enough =
      elim (Option-cases (raises resumed)) [
        | inl quiet ↦
            rw
              (run_thread-quiet engine.thread_id (suc fuel) resumed (some engine) (omega arith)
                quiet)
              (recorded engine []
                (ap
                  (λ outcome.
                    map raw_step_of engine.raw_steps
                    ++ (if is_faulted outcome then fault_step_of engine ∷ [] else []))
                  running.open_ended)
                (inr (running.open_ended, running.not_stopped, gone _ _)))
        | inr (raised, raise) ↦ rw (run_thread-raised fuel resumed engine raised running.on raise) (
            handled-Recorded fuel resumed engine raised.context
              (veh_handle raised.exception engine raised.context) sandboxed
              (omega (arith, running.room))
              (λ room.
                run_thread-Recorded fuel (trap raised.context ∷ resumed)
                  (next_engine engine raised.context) sandboxed
                  (next-IsRunning engine raised.context running room)
                  (omega (arith, enough, counted_steps engine raised.context)))
              (veh_handle-IsHandled raised.exception engine raised.context running
                (sandboxed.raised_in_place resumed raised raise)))
      ]
