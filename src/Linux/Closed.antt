-- ===== src/Linux/Closed.antt =====
-- What a run of src/os.linux.cpp leaves of its descriptors and of its worker.
use bme.Base.{ℕ, false, Option, none, some, [], ◌∷◌, ◌==◌, ◌≡◌, ◌⊎◌, inl, inr, refl, arith}
use bme.Platform.{PlatformRunRequest, PlatformRunResult, Environment}
use bme.Linux.{pipe, fork, close, read_pipe, waitpid, ChildReady, Log, Kernel, Zydis}
use bme.Linux.Holds.{Returns, Returns-map, Held, Released, closes}
use bme.Linux.Run.{run_platform_steps}
use bme.Linux.Ends.{WorkerEnds, worker_refused, start_failed, stopped_first, stepped}
use bme.Linux.Whole.{
  RunEnds, refused, no_pipe, no_fork, with_worker, IsPatient, run_platform_steps-Returns,
}

-- Both ends of the pipe are closed, once each.
abbrev pub IsClosed : (reader writer : ℕ) → Log → Type 0
IsClosed reader writer log = (closes reader log ≡ 1) × (closes writer log ≡ 1)

-- The child was waited for last, before the reader's end was closed.
abbrev pub IsReaped : (reader child : ℕ) → Log → Type 0
IsReaped reader child log = (l : Log) × (log ≡ close reader ∷ waitpid child ∷ l)

after-IsClosed :
    (reader writer child : ℕ) (l : Log)
    → (writer == reader) ≡ false
    → Held reader writer l
    → IsClosed reader writer (close reader ∷ waitpid child ∷ l)
after-IsClosed reader writer child l apart held = (ground (arith, held.0), ground (arith, held.1))

Released-IsClosed :
    (reader writer child : ℕ) (log : Log)
    → (writer == reader) ≡ false
    → Released reader writer child log
    → IsClosed reader writer log × IsReaped reader child log
Released-IsClosed reader writer child log apart (l, last, held, killed) =
    (rw last (after-IsClosed reader writer child l apart held), (l, last))

WorkerEnds-IsClosed :
    (zydis : Zydis) (request : PlatformRunRequest) (answer : Option ChildReady)
    (reader writer child : ℕ) (result : PlatformRunResult) (log : Log)
    → (writer == reader) ≡ false
    → WorkerEnds zydis request answer reader writer child result log
    → IsClosed reader writer log × IsReaped reader child log
WorkerEnds-IsClosed zydis request answer reader writer child _ _ apart
      (worker_refused result log _ _ held) =
    (after-IsClosed reader writer child log apart held, (log, refl))
WorkerEnds-IsClosed zydis request answer reader writer child _ _ apart
      (start_failed result log _ _ done) =
    Released-IsClosed reader writer child log apart done
WorkerEnds-IsClosed zydis request answer reader writer child _ _ apart
      (stopped_first ready result log _ _ _ _ _ _ _ done) =
    Released-IsClosed reader writer child log apart done
WorkerEnds-IsClosed zydis request answer reader writer child _ _ apart
      (stepped ready result log _ _ _ _ done) =
    Released-IsClosed reader writer child log apart done

-- What a run leaves, by what `pipe` and `fork` answer.
abbrev pub Leaves : Option (ℕ × ℕ) → Option ℕ → Log → Type 0
Leaves none forks log = (descriptor : ℕ) → closes descriptor log ≡ 0
Leaves (some (reader, writer)) none log = IsClosed reader writer log
Leaves (some (reader, writer)) (some child) log =
    IsClosed reader writer log × IsReaped reader child log

RunEnds-Leaves :
    (kernel : Kernel) (getenv : Environment) (zydis : Zydis) (patience : ℕ)
    (request : PlatformRunRequest)
    → IsPatient kernel patience
    → (result : PlatformRunResult) (log : Log) → RunEnds kernel getenv zydis request result log
    → (log ≡ []) ⊎ Leaves (kernel.pipe_reply (pipe ∷ [])) (kernel.fork_reply (fork ∷ pipe ∷ [])) log
RunEnds-Leaves kernel getenv zydis patience request patient _ _ (refused result _ _ _) = inl refl
RunEnds-Leaves kernel getenv zydis patience request patient _ _ (no_pipe result ends _ _) =
    inr (rw ends (λ descriptor. refl))
RunEnds-Leaves kernel getenv zydis patience request patient _ _
      (no_fork reader writer result ends forks _ _) =
    let apart = patient.distinct reader writer ends in
    inr (rw (ends, forks) (ground (arith, apart), ground (arith, apart)))
RunEnds-Leaves kernel getenv zydis patience request patient _ _
      (with_worker reader writer child result log ends forks done) =
    inr (
      rw (ends, forks)
        (WorkerEnds-IsClosed zydis request
          (kernel.read_ready (read_pipe reader ∷ close writer ∷ fork ∷ pipe ∷ [])) reader writer
          child result log (patient.distinct reader writer ends) done))

-- On a patient kernel, a run from an empty log returns, and it made no call, or left nothing: where
-- `pipe` failed it closed nothing; where `fork` failed it closed both ends of the pipe once each; and
-- with a worker it closed both ends once each, and its last two calls waited for the worker and
-- closed the reader's end.
pub run_platform_steps-Leaves :
    (kernel : Kernel) (getenv : Environment) (zydis : Zydis) (patience : ℕ)
    (request : PlatformRunRequest)
    → IsPatient kernel patience
    → Returns
        (λ result log.
          (log ≡ [])
          ⊎ Leaves (kernel.pipe_reply (pipe ∷ [])) (kernel.fork_reply (fork ∷ pipe ∷ [])) log)
        (run_platform_steps kernel getenv zydis patience request [])
run_platform_steps-Leaves kernel getenv zydis patience request patient =
    Returns-map (run_platform_steps kernel getenv zydis patience request [])
      (RunEnds-Leaves kernel getenv zydis patience request patient)
      (run_platform_steps-Returns kernel getenv zydis patience request patient)
