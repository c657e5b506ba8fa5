-- ===== src/Linux/Exits.antt =====
-- The calls of src/os.linux.cpp that a round makes: the exit, the fault report and the snapshot.
use bme.Base.{ℕ, true, false, ◌∷◌, ◌==◌, if◌then◌else◌, ◌≡◌, refl, ap, arith}
use bme.Linux.{
  close, kill, get_regs, get_fp_regs, cont, poll, read_pipe, Log, Kernel, ask, when, is_some,
  terminate_child, collect_fault_report,
}
use bme.Linux.Holds.{
  Returns, returns, Returns-and_then, Returns-when, Held, Released, Answers, Waited-last, kills,
  terminate_child-Returns,
}
use bme.Linux.State.{read_snapshot, snapshot_both}
use bme.Linux.Steps.{finish}

same : (n : ℕ) → (n == n) ≡ true
same n = ground arith

-- A finished run has killed the child, waited for it and closed the reader's end.
pub finish-Returns :
    {A : Type 0} (kernel : Kernel) (patience child reader writer : ℕ) (a : A) (log : Log)
    → (child == 0) ≡ false
    → ((l : Log) → Answers kernel patience child l)
    → Held reader writer log
    → Returns
        (λ result later. (result ≡ a) × Released reader writer child later)
        (finish kernel patience child reader a log)
unfolding finish
finish-Returns kernel patience child reader writer a log parent patient held =
    Returns-and_then (terminate_child kernel patience child log) _
      (λ _ later waits.
        let (l, last, held_before) =
          Waited-last child (λ l. Held reader writer l × (kills child l ≡ true)) (kill child ∷ log)
            later (λ l held. held)
            (held, ap (λ b. if b then true else kills child log) (same child)) waits in
        returns a (close reader ∷ later)
          (refl, (l, ap (λ k. close reader ∷ k) last, held_before.0, held_before.1)))
      (terminate_child-Returns kernel patience child log parent (patient (kill child ∷ log)))

pub collect-Returns :
    (kernel : Kernel) (child reader writer signal : ℕ) (log : Log)
    → Held reader writer log
    → Returns
        (λ _ later. Held reader writer later)
        (collect_fault_report kernel child reader signal log)
unfolding collect_fault_report
collect-Returns kernel child reader writer signal log held =
    let l = cont child signal ∷ log in
    Returns-when (kernel.succeeds l) _ l held (
      Returns-when (kernel.succeeds (poll reader ∷ l)) _ (poll reader ∷ l) held (
        returns (kernel.read_report (read_pipe reader ∷ poll reader ∷ l))
          (read_pipe reader ∷ poll reader ∷ l) held))

pub read_snapshot-Returns :
    (kernel : Kernel) (child reader writer : ℕ) (log : Log)
    → Held reader writer log
    → Returns (λ _ later. Held reader writer later) (read_snapshot kernel child log)
unfolding read_snapshot
read_snapshot-Returns kernel child reader writer log held =
    let l = get_regs child ∷ log in
    Returns-and_then
      (when (is_some (kernel.regs_reply l)) (ask kernel.fp_regs_reply (get_fp_regs child)) l) _
      (λ fp_regs later held. returns (snapshot_both (kernel.regs_reply l) fp_regs) later held)
      (Returns-when (is_some (kernel.regs_reply l)) _ l held
        (returns (kernel.fp_regs_reply (get_fp_regs child ∷ l)) (get_fp_regs child ∷ l) held))
