-- ===== src/Linux/Refined.antt =====
-- The single-step loop of src/os.linux.cpp, round by round, against its specification.
use bme.Base.{
  ℕ, zero, suc, ◌+◌, ◌<◌, Bool, true, false, ◌&&◌, ◌||◌, Option, none, some, List, [], ◌∷◌, ◌++◌,
  ltb, leb, ◌==◌, length, length-append, ◌≡◌, ◌⊎◌, inl, inr, refl, sym, ◌∙◌, arith,
}
use mathlib.Core.Path.{subst}
use mathlib.Core.List.{append-nil, append_assoc}
use bme.Text.{Text}
use bme.Seed.Compose.{Registers}
use bme.Trace.{Outcome, error}
use bme.Platform.{PlatformStep, PlatformRunRequest, PlatformRunResult}
use bme.Linux.{
  ended, stopped_by, single_step, get_siginfo, Log, Status, SigInfo, ChildReady, FaultReport,
  Kernel, Zydis, sigtrap, sigsegv, sigbus, is_software_breakpoint, collect_fault_report,
  wait_for_child,
}
use bme.Linux.Holds.{
  Returns, returns, Returns-map, Returns-and_then, Returns-if, Held, Released, Answers, Held-Waited,
  wait_for_child-Returns,
}
use bme.Linux.State.{read_snapshot}
use bme.Linux.Steps.{
  Round, after_round, returned, going, step_cap, run_code_end, target_address, at_target,
  breakpoint_signal, completed_trap, completed_step, faulted_step, add_step, failed_result,
  fault_result, memory_fault, finish, fail, complete_step, fault_step, after_snapshot,
  after_siginfo, after_wait, step_round, step_loop,
}
use bme.Linux.Exits.{finish-Returns, collect-Returns, read_snapshot-Returns}
use bme.Linux.Traced.{Traced, failed, breakpoint, fault, reached, left_code, capped, more}

both-right : (a b : Bool) → (a && b) ≡ true → b ≡ true
both-right true b h = h
both-right false b h = ground arith

-- The run ended in an error, or what it says of errors is still what it was.
abbrev pub Keeps : PlatformRunResult → PlatformRunResult → Type 0
Keeps result ending =
    (ending.outcome ≡ error)
    ⊎ ((ending.error_text ≡ result.error_text)
        × (ending.instrumentation_detected ≡ result.instrumentation_detected))

module _ (kernel : Kernel) (zydis : Zydis) (patience child reader writer : ℕ)
    (request : PlatformRunRequest) (ready : ChildReady) where
  abbrev Follows : (taken rip : ℕ) → List PlatformStep → Outcome → ℕ → Bool → Type 0
  Follows =
      Traced ready.code_base (run_code_end request ready) (step_cap request)
        (target_address request ready) (is_software_breakpoint zydis request.code ready.code_base)

  -- A run that stands at `rip` with a result so far, and has ended.
  abbrev pub Ends : ℕ → PlatformRunResult → PlatformRunResult → Log → Type 0
  Ends rip result ending log =
      Released reader writer child log
      × (fresh : List PlatformStep) × (ending.steps ≡ result.steps ++ fresh)
      × (ending.seed ≡ result.seed)
      × Keeps result ending
      × (reached_target : Bool) × (ending.stopped_at_target ≡ reached_target)
      × Follows (length result.steps) rip fresh ending.outcome ending.stop_address reached_target

  abbrev RoundPost : ℕ → PlatformRunResult → Round → Log → Type 0
  RoundPost rip result (returned ending) log = Ends rip result ending log
  RoundPost rip result (going next result') log =
      Held reader writer log
      × (snapshot : Registers) × (next ≡ snapshot.rip)
      × (result' ≡ add_step result (completed_step rip snapshot))
      × (at_target (target_address request ready) snapshot.rip ≡ false)
      × ((ltb snapshot.rip ready.code_base || leb (run_code_end request ready) snapshot.rip)
          ≡ false)
      × (suc (length result.steps) < step_cap request)

  module _ (parent : (child == 0) ≡ false)
      (patient : (l : Log) → Answers kernel patience child l) where
    ends-Returns :
        (rip : ℕ) (result ending : PlatformRunResult) (log : Log) (fresh : List PlatformStep)
        (reached_target : Bool)
        → Held reader writer log
        → ending.steps ≡ result.steps ++ fresh
        → ending.seed ≡ result.seed
        → Keeps result ending
        → ending.stopped_at_target ≡ reached_target
        → Follows (length result.steps) rip fresh ending.outcome ending.stop_address reached_target
        → Returns (RoundPost rip result) (finish kernel patience child reader (returned ending) log)
    ends-Returns rip result ending log fresh reached_target held steps seed keeps target follows =
        Returns-map (finish kernel patience child reader (returned ending) log)
          (λ round later h.
            subst (λ round. RoundPost rip result round later) (sym h.0)
              (h.1, fresh, steps, seed, keeps, reached_target, target, follows))
          (finish-Returns kernel patience child reader writer (returned ending) log parent patient
            held)

    module _ (rip : ℕ) (result : PlatformRunResult) (unset : result.stopped_at_target ≡ false) where
      fail-Returns :
          (text : Text) (log : Log)
          → Held reader writer log
          → Returns
              (RoundPost rip result)
              (fail kernel zydis patience child reader request ready result text log)
      unfolding fail
      fail-Returns text log held =
          ends-Returns rip result (failed_result result text) log [] false held
            (sym (append-nil result.steps)) refl (inl refl) unset
            (failed (length result.steps) rip result.stop_address)

      complete_step-Returns :
          (snapshot : Registers) (log : Log)
          → Held reader writer log
          → Returns (RoundPost rip result) (
              complete_step kernel zydis patience child reader request ready rip result snapshot
                log)
      unfolding complete_step
      complete_step-Returns snapshot log held =
          let step = completed_step rip snapshot in
          let taken = length result.steps in
          let counted : length (result.steps ++ step ∷ []) ≡ suc taken =
            omega (arith, length-append result.steps (step ∷ [])) in
          Returns-if _ _ log (at_target (target_address request ready) snapshot.rip)
            (λ at.
              ends-Returns rip result _ log (step ∷ []) true held refl refl (inr (refl, refl)) refl
                (reached taken rip snapshot at))
            (λ not_at.
              Returns-if _ _ log
                (ltb snapshot.rip ready.code_base || leb (run_code_end request ready) snapshot.rip)
                (λ outside.
                  ends-Returns rip result _ log (step ∷ []) false held refl refl (inr (refl, refl))
                    unset (left_code taken rip result.stop_address snapshot not_at outside))
                (λ inside.
                  Returns-if _ _ log (leb (step_cap request) (length (result.steps ++ step ∷ [])))
                    (λ full.
                      ends-Returns rip result _ log (step ∷ []) false held refl refl
                        (inr (refl, refl)) unset
                        (capped taken rip result.stop_address snapshot not_at inside
                          (ground arith)))
                    (λ room.
                      returns _ log (held, snapshot, refl, refl, not_at, inside, ground arith))))

      fault_step-Returns :
          (signal : ℕ) (info : SigInfo) (snapshot : Registers) (log : Log)
          → Held reader writer log
          → Returns (RoundPost rip result) (
              fault_step kernel zydis patience child reader request ready signal info result
                snapshot log)
      unfolding fault_step fault_result memory_fault
      fault_step-Returns signal info snapshot log held =
          let step = faulted_step snapshot in
          let ends : (report : Option FaultReport) (log : Log)
              → Held reader writer log
              → Returns (RoundPost rip result) (
                  finish kernel patience child reader
                    (returned (memory_fault (fault_result result signal snapshot) info report))
                    log) =
            λ report log held.
              ends-Returns rip result _ log (step ∷ []) false held refl refl (inr (refl, refl))
                unset (fault (length result.steps) rip snapshot) in
          Returns-if _ _ log (signal == sigsegv || signal == sigbus)
            (λ _.
              Returns-and_then (collect_fault_report kernel child reader signal log) _
                (λ report later held. ends report later held)
                (collect-Returns kernel child reader writer signal log held))
            (λ _.
              ends-Returns rip result _ log (step ∷ []) false held refl refl (inr (refl, refl))
                unset (fault (length result.steps) rip snapshot))

      after_snapshot-Returns :
          (signal : ℕ) (info : SigInfo) (snapshot : Option Registers) (log : Log)
          → Held reader writer log
          → Returns (RoundPost rip result) (
              after_snapshot kernel zydis patience child reader request ready rip result signal info
                snapshot log)
      unfolding after_snapshot
      after_snapshot-Returns signal info none log held = fail-Returns _ log held
      after_snapshot-Returns signal info (some snapshot) log held =
          Returns-if _ _ log
            (breakpoint_signal signal info
              && is_software_breakpoint zydis request.code ready.code_base rip)
            (λ at.
              ends-Returns rip result _ log [] false held (sym (append-nil result.steps)) refl
                (inr (refl, refl)) unset (breakpoint (length result.steps) rip (both-right _ _ at)))
            (λ _.
              Returns-if _ _ log (signal == sigtrap && completed_trap signal info rip snapshot.rip)
                (λ _. complete_step-Returns snapshot log held)
                (λ _. fault_step-Returns signal info snapshot log held))

      after_siginfo-Returns :
          (signal : ℕ) (info : Option SigInfo) (log : Log)
          → Held reader writer log
          → Returns (RoundPost rip result) (
              after_siginfo kernel zydis patience child reader request ready rip result signal info
                log)
      unfolding after_siginfo
      after_siginfo-Returns signal none log held = fail-Returns _ log held
      after_siginfo-Returns signal (some info) log held =
          Returns-and_then (read_snapshot kernel child log) _
            (λ snapshot later held. after_snapshot-Returns signal info snapshot later held)
            (read_snapshot-Returns kernel child reader writer log held)

      after_wait-Returns :
          (status : Option Status) (log : Log)
          → Held reader writer log
          → Returns
              (RoundPost rip result)
              (after_wait kernel zydis patience child reader request ready rip result status log)
      unfolding after_wait
      after_wait-Returns none log held = fail-Returns _ log held
      after_wait-Returns (some ended) log held =
          ends-Returns rip result _ log [] false held (sym (append-nil result.steps)) refl
            (inl refl) unset (failed (length result.steps) rip rip)
      after_wait-Returns (some (stopped_by signal)) log held =
          after_siginfo-Returns signal (kernel.siginfo_reply (get_siginfo child ∷ log))
            (get_siginfo child ∷ log) held

      step_round-Returns :
          (log : Log)
          → Held reader writer log
          → Returns
              (RoundPost rip result)
              (step_round kernel zydis patience child reader request ready rip result log)
      unfolding step_round
      step_round-Returns log held =
          let l = single_step child ∷ log in
          Returns-if _ _ l (kernel.succeeds l)
            (λ _.
              Returns-and_then (wait_for_child kernel patience child l) _
                (λ status later waits.
                  after_wait-Returns status later
                    (Held-Waited reader writer child l later held waits))
                (wait_for_child-Returns kernel patience child l (patient l)))
            (λ _. fail-Returns _ l held)

    loop-next :
        (fuel rip : ℕ) (result : PlatformRunResult)
        → result.stopped_at_target ≡ false
        → length result.steps + suc fuel ≡ step_cap request
        → ((rip' : ℕ) (result' : PlatformRunResult) (log : Log)
            → result'.stopped_at_target ≡ false
            → length result'.steps + fuel ≡ step_cap request
            → length result'.steps < step_cap request
            → Held reader writer log
            → Returns
                (Ends rip' result')
                (step_loop kernel zydis patience child reader request ready fuel rip' result' log))
        → (round : Round) (later : Log) → RoundPost rip result round later
        → Returns (Ends rip result) (
            after_round
              (step_loop kernel zydis patience child reader request ready fuel)
              round
              later)
    loop-next fuel rip result unset count next (returned ending) later post =
        returns ending later post
    loop-next fuel rip result unset count next (going rip' result') later post =
        let (held, snapshot, at, same_result, not_at, inside, room) = post in
        let step = completed_step rip snapshot in
        let result'' = add_step result step in
        let counted : length (result.steps ++ step ∷ []) ≡ suc (length result.steps) =
          omega (arith, length-append result.steps (step ∷ [])) in
        let loop = step_loop kernel zydis patience child reader request ready fuel in
        let on : Returns (Ends rip result) (loop snapshot.rip result'' later) =
          Returns-map (loop snapshot.rip result'' later)
            (λ ending l h.
              let (released, fresh, steps, seed, keeps, reached_target, target, follows) = h in
              (
                released,
                step ∷ fresh,
                steps ∙ append_assoc result.steps (step ∷ []) fresh,
                seed,
                keeps,
                reached_target,
                target,
                more (length result.steps) rip ending.stop_address snapshot fresh ending.outcome
                    reached_target not_at inside room
                    (subst
                      (λ taken.
                        Follows taken snapshot.rip fresh ending.outcome ending.stop_address
                          reached_target)
                      counted follows),
              ))
            (next snapshot.rip result'' later unset (omega arith) (omega arith) held) in
        subst (λ next_rip. Returns (Ends rip result) (loop next_rip result' later)) (sym at)
          (subst (λ r. Returns (Ends rip result) (loop snapshot.rip r later)) (sym same_result) on)

    -- The loop returns: its rounds are at most the steps that the cap leaves.
    pub step_loop-Returns :
        (fuel rip : ℕ) (result : PlatformRunResult) (log : Log)
        → result.stopped_at_target ≡ false
        → length result.steps + fuel ≡ step_cap request
        → length result.steps < step_cap request
        → Held reader writer log
        → Returns
            (Ends rip result)
            (step_loop kernel zydis patience child reader request ready fuel rip result log)
    unfolding step_loop
    step_loop-Returns zero rip result log unset count room held = absurd (omega arith)
    step_loop-Returns (suc fuel) rip result log unset count room held =
        Returns-and_then
          (step_round kernel zydis patience child reader request ready rip result log) _
          (loop-next fuel rip result unset count (step_loop-Returns fuel))
          (step_round-Returns rip result unset log held)
