-- ===== src/Linux/Ends.antt =====
-- How the part of a run of src/os.linux.cpp that has a worker may end.
use mathlib.Core.Path.{subst}
use bme.Base.{
  ℕ, ◌<◌, Bool, true, false, Option, none, some, List, [], ◌∷◌, ◌++◌, ◌==◌, length, ◌≡◌, ◌⊎◌, inl,
  inr, refl, sym, ap, ◌∙◌, arith,
}
use bme.Text.{Text}
use bme.Seed.Compose.{Registers}
use bme.Trace.{Outcome, error, stopped}
use bme.Platform.{PlatformStep, PlatformRunRequest, PlatformRunResult}
use bme.Linux.{
  close, waitpid, set_options, get_regs, get_fp_regs, set_regs, set_fp_regs, Log, Status, UserRegs,
  UserFpRegs, ChildReady, Kernel, Zydis, ask, when, is_some, is_software_breakpoint, wait_for_child,
  child_error_name,
}
use bme.Linux.Holds.{
  Returns, returns, Returns-map, Returns-and_then, Returns-if, Returns-when, Held, Released,
  Answers, Waited-last, wait_for_child-Returns,
}
use bme.Linux.State.{mxcsr_unsupported, child_fp_regs, child_regs, recorded_seed}
use bme.Linux.Steps.{failed_result, finish, step_cap, run_code_end, target_address, step_loop}
use bme.Linux.Traced.{Traced}
use bme.Linux.Exits.{finish-Returns}
use bme.Linux.Refined.{Keeps, step_loop-Returns}
use bme.Linux.Run.{
  set_both, is_setup_error, is_sigstop, stops_at_start, fail_run, run_worker, seed_worker,
  stopped_worker, waited_worker, ready_worker,
}

-- A result that nothing is recorded in.
abbrev pub IsFresh : PlatformRunResult → Type 0
IsFresh result =
    (result.steps ≡ [])
    × (result.stopped_at_target ≡ false)
    × (result.error_text ≡ [])
    × (result.instrumentation_detected ≡ false)

-- The run ended in an error, or it tells of none.
abbrev pub IsSilent : PlatformRunResult → Type 0
IsSilent result =
    (result.outcome ≡ error)
    ⊎ ((result.error_text ≡ []) × (result.instrumentation_detected ≡ false))

Keeps-IsSilent :
    (result ending : PlatformRunResult) → IsFresh result → Keeps result ending → IsSilent ending
Keeps-IsSilent result ending fresh (inl e) = inl e
Keeps-IsSilent result ending fresh (inr kept) = inr (kept.0 ∙ fresh.2, kept.1 ∙ fresh.3)

-- How a run may end that has a worker, process `child`, whose report is read as `answer`.
pub data WorkerEnds (zydis : Zydis) (request : PlatformRunRequest) (answer : Option ChildReady)
    (reader writer child : ℕ) : PlatformRunResult → Log → Type 0 where
  -- The worker reported an error and has exited.
  worker_refused :
      (result : PlatformRunResult) (log : Log)
      → result.outcome ≡ error
      → result.steps ≡ []
      → Held reader writer log
      → WorkerEnds zydis request answer reader writer child result
          (close reader ∷ waitpid child ∷ log)
  start_failed :
      (result : PlatformRunResult) (log : Log)
      → result.outcome ≡ error
      → result.steps ≡ []
      → Released reader writer child log
      → WorkerEnds zydis request answer reader writer child result log
  stopped_first :
      (ready : ChildReady) (result : PlatformRunResult) (log : Log)
      → answer ≡ some ready
      → result.seed.rip ≡ ready.code_base
      → stops_at_start request.stop_offset ≡ true
      → result.outcome ≡ stopped
      → result.steps ≡ []
      → result.stop_address ≡ result.seed.rip
      → IsSilent result
      → Released reader writer child log
      → WorkerEnds zydis request answer reader writer child result log
  stepped :
      (ready : ChildReady) (result : PlatformRunResult) (log : Log)
      → answer ≡ some ready
      → result.seed.rip ≡ ready.code_base
      → IsSilent result
      → Traced ready.code_base
          (run_code_end request ready)
          (step_cap request)
          (target_address request ready)
          (is_software_breakpoint zydis request.code ready.code_base)
          0
          ready.code_base
          result.steps
          result.outcome
          result.stop_address
          result.stopped_at_target
      → Released reader writer child log
      → WorkerEnds zydis request answer reader writer child result log

-- The cap is 1 at least.
pub step_cap-positive : (request : PlatformRunRequest) → 0 < step_cap request
unfolding step_cap
step_cap-positive request = ground arith

seed_rip :
    {seed before : Registers} {base : ℕ} → seed ≡ before → before.rip ≡ base → seed.rip ≡ base
seed_rip same start = ap (λ seed. seed.rip) same ∙ start

module _ (kernel : Kernel) (zydis : Zydis) (patience child reader writer : ℕ)
    (request : PlatformRunRequest) (answer : Option ChildReady) (parent : (child == 0) ≡ false)
    (patient : (l : Log) → Answers kernel patience child l) where
  fail_run-Returns :
      (result : PlatformRunResult) (text : Text) (log : Log)
      → result.steps ≡ []
      → Held reader writer log
      → Returns
          (WorkerEnds zydis request answer reader writer child)
          (fail_run kernel zydis patience child reader request result text log)
  unfolding fail_run
  fail_run-Returns result text log no_steps held =
      let failing = failed_result result text in
      Returns-map (finish kernel patience child reader failing log)
        (λ r later h.
          subst (λ r. WorkerEnds zydis request answer reader writer child r later) (sym h.0)
            (start_failed failing later refl no_steps h.1))
        (finish-Returns kernel patience child reader writer failing log parent patient held)

  module _ (ready : ChildReady) (reads : answer ≡ some ready) (result : PlatformRunResult)
      (new : IsFresh result) where
    abbrev FollowsFrom : ℕ → List PlatformStep → Outcome → ℕ → Bool → Type 0
    FollowsFrom taken =
        Traced ready.code_base (run_code_end request ready) (step_cap request)
          (target_address request ready) (is_software_breakpoint zydis request.code ready.code_base)
          taken ready.code_base

    run_worker-Returns :
        (log : Log)
        → result.seed.rip ≡ ready.code_base
        → Held reader writer log
        → Returns
            (WorkerEnds zydis request answer reader writer child)
            (run_worker kernel zydis patience child reader request ready result log)
    unfolding run_worker
    run_worker-Returns log start held =
        let none_yet : length result.steps ≡ 0 = ap length new.0 in
        let stopping = record result {
          outcome = stopped;
          stop_address = ready.code_base;
          stopped_at_target = true;
        } in
        Returns-if _ _ log (stops_at_start request.stop_offset)
          (λ at.
            Returns-map (finish kernel patience child reader stopping log)
              (λ r later h.
                subst (λ r. WorkerEnds zydis request answer reader writer child r later) (sym h.0)
                  (stopped_first ready stopping later reads start at refl new.0 (sym start)
                    (inr (new.2, new.3)) h.1))
              (finish-Returns kernel patience child reader writer stopping log parent patient held))
          (λ _.
            Returns-map
              (step_loop kernel zydis patience child reader request ready (step_cap request)
                ready.code_base result log)
              (λ ending later h.
                let (released, fresh, steps, seed, keeps, reached_target, target, follows) = h in
                let begun : (ending.steps ≡ fresh)
                    × FollowsFrom 0 fresh ending.outcome ending.stop_address reached_target =
                  subst
                    (λ done.
                      (ending.steps ≡ done ++ fresh)
                      × FollowsFrom (length done) fresh ending.outcome ending.stop_address
                          reached_target)
                    new.0 (steps, follows) in
                let all_steps : FollowsFrom 0 ending.steps ending.outcome ending.stop_address
                    reached_target =
                  subst (λ s. FollowsFrom 0 s ending.outcome ending.stop_address reached_target)
                    (sym begun.0) begun.1 in
                stepped ready ending later reads (seed_rip seed start)
                  (Keeps-IsSilent result ending new keeps)
                  (subst (λ t. FollowsFrom 0 ending.steps ending.outcome ending.stop_address t)
                    (sym target) all_steps)
                  released)
              (step_loop-Returns kernel zydis patience child reader writer request ready parent
                patient (step_cap request) ready.code_base result log new.1 (omega arith)
                (omega (arith, step_cap-positive request)) held))

  set_both-Returns :
      (regs : UserRegs) (fp_regs : UserFpRegs) (log : Log)
      → Held reader writer log
      → Returns (λ _ later. Held reader writer later) (set_both kernel child regs fp_regs log)
  unfolding set_both
  set_both-Returns regs fp_regs log held =
      let l = set_regs child regs ∷ log in
      Returns-if _ _ l (kernel.succeeds l)
        (λ _.
          returns (kernel.succeeds (set_fp_regs child fp_regs ∷ l)) (set_fp_regs child fp_regs ∷ l)
            held)
        (λ _. returns false l held)

  module _ (ready : ChildReady) (reads : answer ≡ some ready) (result : PlatformRunResult)
      (new : IsFresh result) where
    seed_worker-Returns :
        (regs : Option UserRegs) (fp_regs : Option UserFpRegs) (log : Log)
        → Held reader writer log
        → Returns
            (WorkerEnds zydis request answer reader writer child)
            (seed_worker kernel zydis patience child reader request ready result regs fp_regs log)
    unfolding seed_worker recorded_seed
    seed_worker-Returns none fp_regs log held = fail_run-Returns result _ log new.0 held
    seed_worker-Returns (some regs) none log held = fail_run-Returns result _ log new.0 held
    seed_worker-Returns (some regs) (some fp_regs) log held =
        let result' = record result { seed = recorded_seed request ready fp_regs } in
        Returns-if _ _ log (mxcsr_unsupported request.seed fp_regs)
          (λ _. fail_run-Returns result _ log new.0 held)
          (λ _.
            Returns-and_then
              (set_both kernel child (child_regs request ready) (child_fp_regs request.seed fp_regs)
                log)
              _
              (λ done later held.
                Returns-if _ _ later done
                  (λ _. run_worker-Returns ready reads result' new later refl held)
                  (λ _. fail_run-Returns result' _ later new.0 held))
              (set_both-Returns (child_regs request ready) (child_fp_regs request.seed fp_regs) log
                held))

    stopped_worker-Returns :
        (log : Log)
        → Held reader writer log
        → Returns
            (WorkerEnds zydis request answer reader writer child)
            (stopped_worker kernel zydis patience child reader request ready result log)
    unfolding stopped_worker
    stopped_worker-Returns log held =
        let l = set_options child ∷ log in
        let l' = get_regs child ∷ l in
        Returns-if _ _ l (kernel.succeeds l)
          (λ _.
            Returns-and_then
              (when (is_some (kernel.regs_reply l')) (ask kernel.fp_regs_reply (get_fp_regs child))
                l')
              _
              (λ fp_regs later held. seed_worker-Returns (kernel.regs_reply l') fp_regs later held)
              (Returns-when (is_some (kernel.regs_reply l')) _ l' held (
                returns (kernel.fp_regs_reply (get_fp_regs child ∷ l')) (get_fp_regs child ∷ l')
                  held)))
          (λ _. fail_run-Returns result _ l new.0 held)

    -- The last call was a wait.
    waited_worker-Returns :
        (status : Option Status) (log : Log)
        → Held reader writer log
        → Returns (WorkerEnds zydis request answer reader writer child) (
            waited_worker kernel zydis patience child reader request ready result status
              (waitpid child ∷ log))
    unfolding waited_worker
    waited_worker-Returns none log held = fail_run-Returns result _ (waitpid child ∷ log) new.0 held
    waited_worker-Returns (some status) log held =
        Returns-if _ _ (waitpid child ∷ log) (is_setup_error ready.error)
          (λ _. returns _ _ (
            worker_refused (failed_result result (child_error_name ready.error)) log refl new.0
              held))
          (λ _.
            Returns-if _ _ (waitpid child ∷ log) (is_sigstop status)
              (λ _. stopped_worker-Returns (waitpid child ∷ log) held)
              (λ _. fail_run-Returns result _ (waitpid child ∷ log) new.0 held))

  pub ready_worker-Returns :
      (result : PlatformRunResult) (ready : Option ChildReady) (log : Log)
      → answer ≡ ready
      → IsFresh result
      → Held reader writer log
      → Returns
          (WorkerEnds zydis request answer reader writer child)
          (ready_worker kernel zydis patience child reader request result ready log)
  unfolding ready_worker
  ready_worker-Returns result none log _ new held = fail_run-Returns result _ log new.0 held
  ready_worker-Returns result (some ready) log reads new held =
      Returns-and_then (wait_for_child kernel patience child log) _
        (λ status later waits.
          let (l, last, held') =
            Waited-last child (Held reader writer) log later (λ l held. held) held waits in
          subst
            (λ later.
              Returns (WorkerEnds zydis request answer reader writer child) (
                waited_worker kernel zydis patience child reader request ready result status later))
            (sym last) (waited_worker-Returns ready reads result new status l held'))
        (wait_for_child-Returns kernel patience child log (patient log))
