-- ===== src/Linux/Holds.antt =====
-- Total correctness of the engine's calls in src/os.linux.cpp, and the waits of a patient kernel.
use bme.Base.{
  ℕ, zero, suc, ◌+◌, Bool, true, false, none, some, [], ◌∷◌, ◌==◌, if◌then◌else◌, ◌≡◌, refl,
}
pub use bme.Calls.{Returns, returns, Returns-map, Returns-and_then, Returns-if, Returns-when}
use bme.Linux.{
  close, kill, waitpid, waited, interrupted, wait_failed, Log, Kernel, wait_for_child,
  terminate_child,
}

-- How often the log closes a descriptor.
abbrev pub closes : ℕ → Log → ℕ
closes descriptor [] = 0
closes descriptor (close d ∷ log) = (if d == descriptor then 1 else 0) + closes descriptor log
closes descriptor (_ ∷ log) = closes descriptor log

-- The log has a kill of the child.
abbrev pub kills : ℕ → Log → Bool
kills child [] = false
kills child (kill c ∷ log) = if c == child then true else kills child log
kills child (_ ∷ log) = kills child log

-- Fewer than `patience` waits in a row from the log on are interrupted.
abbrev pub Answers : Kernel → ℕ → ℕ → Log → Type 0
Answers kernel zero child log = ⊥
Answers kernel (suc patience) child log =
    kernel.wait_reply (waitpid child ∷ log) ≡ interrupted
    → Answers kernel patience child (waitpid child ∷ log)

-- The worker's pipe while it runs: the reader's end open, the writer's closed once.
abbrev pub Held : (reader writer : ℕ) → Log → Type 0
Held reader writer log = (closes reader log ≡ 0) × (closes writer log ≡ 1)

-- The child was killed, the last two calls wait for it and close the reader's end, and the ends
-- of the pipe were held before.
abbrev pub Released : (reader writer child : ℕ) → Log → Type 0
Released reader writer child log =
    (l : Log) × (log ≡ close reader ∷ waitpid child ∷ l)
    × Held reader writer l
    × (kills child l ≡ true)

-- The second log adds one wait or more to the first.
pub data Waited (child : ℕ) : Log → Log → Type 0 where
  once : (log : Log) → Waited child log (waitpid child ∷ log)
  again : (log later : Log) → Waited child (waitpid child ∷ log) later → Waited child log later

-- The last call is a wait, and the calls before it close and kill as the first log does.
pub Waited-last :
    (child : ℕ) (P : Log → Type 0) (log later : Log)
    → ((l : Log) → P l → P (waitpid child ∷ l))
    → P log
    → Waited child log later
    → (l : Log) × (later ≡ waitpid child ∷ l) × P l
Waited-last child P _ _ step held (once log) = (log, refl, held)
Waited-last child P _ _ step held (again log later waits) =
    Waited-last child P (waitpid child ∷ log) later step (step log held) waits

pub Held-Waited :
    (reader writer child : ℕ) (log later : Log)
    → Held reader writer log
    → Waited child log later
    → Held reader writer later
Held-Waited reader writer child _ _ held (once log) = held
Held-Waited reader writer child _ _ held (again log later waits) =
    Held-Waited reader writer child (waitpid child ∷ log) later held waits

module _ (kernel : Kernel) where
  -- A wait of a patient kernel returns, and it has only waited.
  pub wait_for_child-Returns :
      (patience child : ℕ) (log : Log)
      → Answers kernel patience child log
      → Returns (λ _ later. Waited child log later) (wait_for_child kernel patience child log)
  unfolding wait_for_child
  wait_for_child-Returns zero child log answers = absurd answers
  wait_for_child-Returns (suc patience) child log answers =
      elim (kernel.wait_reply (waitpid child ∷ log))
          as (λ reply.
            kernel.wait_reply (waitpid child ∷ log) ≡ reply
            → Returns (λ _ later. Waited child log later)
                (elim reply [
                  | waited status ↦ some (some status, waitpid child ∷ log)
                  | interrupted ↦ wait_for_child kernel patience child (waitpid child ∷ log)
                  | wait_failed ↦ some (none, waitpid child ∷ log)
                ])) [
                  | waited status ↦ λ _. returns (some status) (waitpid child ∷ log) (once log)
                  | interrupted ↦ λ e.
                      Returns-map _ (λ _ later waits. again log later waits)
                        (wait_for_child-Returns patience child (waitpid child ∷ log) (answers e))
                  | wait_failed ↦ λ _. returns none (waitpid child ∷ log) (once log)
                ]
        refl

  -- A child other than 0 is killed and waited for.
  pub terminate_child-Returns :
      (patience child : ℕ) (log : Log)
      → (child == 0) ≡ false
      → Answers kernel patience child (kill child ∷ log)
      → Returns
          (λ _ later. Waited child (kill child ∷ log) later)
          (terminate_child kernel patience child log)
  unfolding terminate_child
  terminate_child-Returns patience child log parent answers = rw parent (
      Returns-and_then (wait_for_child kernel patience child (kill child ∷ log)) _
        (λ _ later waits. returns tt later waits)
        (wait_for_child-Returns patience child (kill child ∷ log) answers))
