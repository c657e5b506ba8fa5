-- ===== src/Linux/Whole.antt =====
-- How a whole run of src/os.linux.cpp may end.
use bme.Base.{
  if-both, if-cases, ℕ, zero, suc, Bool, true, false, Option, none, some, List, [], ◌∷◌, ◌==◌,
  length, ◌≡◌, ◌≢◌, refl, arith,
}
use bme.Text.{is_empty}
use bme.Trace.{Outcome, idle, error}
use bme.Platform.{
  PlatformRunRequest, PlatformRunResult, Environment, prepare_platform_run, stop_in_code,
  instrumentation_detected,
}
use bme.Linux.{pipe, fork, close, read_pipe, Log, Kernel, Zydis}
use bme.Linux.Holds.{Returns, returns, Returns-map, Returns-if, Held, Answers}
use bme.Linux.Ends.{IsFresh, WorkerEnds, ready_worker-Returns}
use bme.Linux.Run.{ready_worker, forked, piped, run_platform_steps}

-- The outcomes of a request that is not run.
abbrev pub IsRefused : Outcome → Type 0
IsRefused error = Unit {0}
IsRefused idle = Unit {0}
IsRefused _ = ⊥

-- How a run may end, with the calls it made.
pub data RunEnds (kernel : Kernel) (getenv : Environment) (zydis : Zydis)
    (request : PlatformRunRequest) : PlatformRunResult → Log → Type 0 where
  refused :
      (result : PlatformRunResult)
      → result.steps ≡ []
      → IsRefused result.outcome
      → (result.outcome ≡ idle → request.code ≡ [])
      → RunEnds kernel getenv zydis request result []
  no_pipe :
      (result : PlatformRunResult)
      → kernel.pipe_reply (pipe ∷ []) ≡ none
      → result.outcome ≡ error
      → result.steps ≡ []
      → RunEnds kernel getenv zydis request result (pipe ∷ [])
  no_fork :
      (reader writer : ℕ) (result : PlatformRunResult)
      → kernel.pipe_reply (pipe ∷ []) ≡ some (reader, writer)
      → kernel.fork_reply (fork ∷ pipe ∷ []) ≡ none
      → result.outcome ≡ error
      → result.steps ≡ []
      → RunEnds kernel getenv zydis request result (close writer ∷ close reader ∷ fork ∷ pipe ∷ [])
  with_worker :
      (reader writer child : ℕ) (result : PlatformRunResult) (log : Log)
      → kernel.pipe_reply (pipe ∷ []) ≡ some (reader, writer)
      → kernel.fork_reply (fork ∷ pipe ∷ []) ≡ some child
      → WorkerEnds zydis request
          (kernel.read_ready (read_pipe reader ∷ close writer ∷ fork ∷ pipe ∷ []))
          reader
          writer
          child
          result
          log
      → RunEnds kernel getenv zydis request result log

-- A kernel as the parent of a worker sees it: the ends of a pipe differ, `fork` answers the parent
-- with a process, and fewer than `patience` waits in a row are interrupted.
pub record IsPatient (kernel : Kernel) (patience : ℕ) : Type 0 where
  pub distinct :
      (reader writer : ℕ)
      → kernel.pipe_reply (pipe ∷ []) ≡ some (reader, writer)
      → (writer == reader) ≡ false
  pub parent : kernel.fork_reply (fork ∷ pipe ∷ []) ≢ some 0
  pub answers : (child : ℕ) (log : Log) → Answers kernel patience child log

pub data IsPrepared (request : PlatformRunRequest) : Bool × PlatformRunResult → Type 0 where
  accepted : (result : PlatformRunResult) → IsFresh result → IsPrepared request (true, result)
  rejected :
      (result : PlatformRunResult)
      → result.steps ≡ []
      → IsRefused result.outcome
      → (result.outcome ≡ idle → request.code ≡ [])
      → IsPrepared request (false, result)

is_empty-eq : {A : Type 0} → (xs : List A) → is_empty xs ≡ true → xs ≡ []
is_empty-eq [] e = refl
is_empty-eq (x ∷ xs) e = cc

pub prepared_lem :
    (detected : Bool) (request : PlatformRunRequest)
    → IsPrepared request (prepare_platform_run detected request)
unfolding prepare_platform_run
prepared_lem detected request =
    let P = IsPrepared request in
    if-cases P (is_empty request.code) _ _
      (λ empty. rejected _ refl tt (λ _. is_empty-eq request.code empty))
      (λ _.
        if-both P (stop_in_code request.stop_offset (length request.code)) _ _
          (if-both P detected _ _ (rejected _ refl tt (λ e. absurd (ground arith)))
            (accepted _ (refl, refl, refl, refl)))
          (rejected _ refl tt (λ e. absurd (ground arith))))

pub prepared-IsFresh :
    (request : PlatformRunRequest) (prepared : Bool × PlatformRunResult)
    → IsPrepared request prepared
    → prepared.0 ≡ true
    → IsFresh prepared.1
prepared-IsFresh request _ (accepted result new) runs = new
prepared-IsFresh request _ (rejected result no_steps refuses _) runs = ground arith

pub prepared-IsRefused :
    (request : PlatformRunRequest) (prepared : Bool × PlatformRunResult)
    → IsPrepared request prepared
    → prepared.0 ≡ false
    → (prepared.1.steps ≡ [])
      × IsRefused prepared.1.outcome
      × (prepared.1.outcome ≡ idle → request.code ≡ [])
prepared-IsRefused request _ (accepted result new) refuses = ground arith
prepared-IsRefused request _ (rejected result no_steps refused_outcome idles) refuses =
    (no_steps, refused_outcome, idles)

first-Held :
    (reader writer : ℕ)
    → (writer == reader) ≡ false
    → Held reader writer (read_pipe reader ∷ close writer ∷ fork ∷ pipe ∷ [])
first-Held reader writer apart = (rw apart refl, ground arith)

module _ (kernel : Kernel) (getenv : Environment) (zydis : Zydis) (patience : ℕ)
    (request : PlatformRunRequest) (patient : IsPatient kernel patience) where
  forked-Returns :
      (reader writer : ℕ) (result : PlatformRunResult) (child : Option ℕ)
      → kernel.pipe_reply (pipe ∷ []) ≡ some (reader, writer)
      → kernel.fork_reply (fork ∷ pipe ∷ []) ≡ child
      → IsFresh result
      → Returns (RunEnds kernel getenv zydis request) (
          forked kernel getenv zydis patience request reader writer result child (fork ∷ pipe ∷ []))
  unfolding forked
  forked-Returns reader writer result none ends forks new =
      returns _ _ (no_fork reader writer _ ends forks refl new.0)
  forked-Returns reader writer result (some zero) ends forks new = absurd (patient.parent forks)
  forked-Returns reader writer result (some (suc pid)) ends forks new =
      let log = read_pipe reader ∷ close writer ∷ fork ∷ pipe ∷ [] in
      let apart = patient.distinct reader writer ends in
      Returns-map
        (ready_worker kernel zydis patience (suc pid) reader request result (kernel.read_ready log)
          log)
        (λ ending later h. with_worker reader writer (suc pid) ending later ends forks h)
        (ready_worker-Returns kernel zydis patience (suc pid) reader writer request
          (kernel.read_ready log) (ground arith) (patient.answers (suc pid)) result
          (kernel.read_ready log) log refl new (first-Held reader writer apart))

  piped-Returns :
      (result : PlatformRunResult) (ends : Option (ℕ × ℕ))
      → kernel.pipe_reply (pipe ∷ []) ≡ ends
      → IsFresh result
      → Returns
          (RunEnds kernel getenv zydis request)
          (piped kernel getenv zydis patience request result ends (pipe ∷ []))
  unfolding piped
  piped-Returns result none ends new = returns _ _ (no_pipe _ ends refl new.0)
  piped-Returns result (some (reader, writer)) ends new =
      forked-Returns reader writer result (kernel.fork_reply (fork ∷ pipe ∷ [])) ends refl new

  -- On a patient kernel, a run from an empty log returns, as one of these: the request was refused,
  -- or the pipe or the fork failed, without steps; or it had a worker, which refused to start, failed
  -- to start, was stopped at its first instruction because that is the target, or was stepped, with
  -- steps, outcome and stop as the specification `Traced` allows. A worker that did not refuse was
  -- killed; every worker was waited for before the pipe was closed.
  pub run_platform_steps-Returns :
      Returns
        (RunEnds kernel getenv zydis request)
        (run_platform_steps kernel getenv zydis patience request [])
  unfolding run_platform_steps
  run_platform_steps-Returns =
      let prepared = prepare_platform_run (instrumentation_detected getenv) request in
      let known = prepared_lem (instrumentation_detected getenv) request in
      Returns-if _ _ [] prepared.0
        (λ runs.
          piped-Returns prepared.1 (kernel.pipe_reply (pipe ∷ [])) refl
            (prepared-IsFresh request prepared known runs))
        (λ refuses.
          let (no_steps, refused_outcome, idles) =
            prepared-IsRefused request prepared known refuses in
          returns prepared.1 [] (refused prepared.1 no_steps refused_outcome idles))
