-- ===== src/History/Panel/State.antt =====
-- The state that the history panel shows, `history_state_at` in src/bme_core.cpp.
use bme.Base.{
  ℕ, zero, suc, ◌≡◌, ◌<◌, ◌≤◌, refl, sym, ap, ◌∙◌, Option, none, some, List, [], ◌∷◌, min, length,
  get_elem?, take, arith, Bool-cases, ltb, inl, inr,
}
use bme.Seed.Compose.{Registers}
use bme.Trace.{Trace}
use bme.History.{HistoryRow}
use bme.History.Panel.{HistoryPanel, history_rows_at, row_event, state_before, history_state_at}

-- The registers behind a row, from those before it.
unfoldable pub state_after : Trace → Registers → Option HistoryRow → Registers
state_after trace before row = elim (row_event trace.execution_events row) [
  | some event ↦ event.registers
  | none ↦ before
]

-- The registers behind the rows, from the first to the last.
unfoldable pub run_rows : Trace → Registers → List HistoryRow → Registers
run_rows trace before [] = before
run_rows trace before (row ∷ rows) = run_rows trace (state_after trace before (some row)) rows

run_rows-take :
    (trace : Trace) (before : Registers) (n : ℕ) (rows : List HistoryRow)
    → n < length rows
    → run_rows trace before (take (suc n) rows)
      ≡ state_after trace (run_rows trace before (take n rows)) (get_elem? rows n)
unfolding run_rows
run_rows-take trace before n [] short = absurd (omega arith)
run_rows-take trace before zero (row ∷ rows) short = refl
run_rows-take trace before (suc n) (row ∷ rows) short =
    run_rows-take trace (state_after trace before (some row)) n rows (omega arith)

state_before-run_rows :
    (trace : Trace) (n : ℕ) (rows : List HistoryRow)
    → n ≤ length rows
    → state_before n trace rows ≡ run_rows trace trace.seed (take n rows)
unfolding state_before state_after run_rows
state_before-run_rows trace zero rows short = refl
state_before-run_rows trace (suc n) rows short =
    let rest = state_before-run_rows trace n rows (omega arith) in
    let last = run_rows-take trace trace.seed n rows (omega arith) in
    ap (λ before. state_after trace before (get_elem? rows n)) rest ∙ sym last

take-all :
    (rows : List HistoryRow) (n : ℕ) → length rows ≤ n → take (length rows) rows ≡ take n rows
take-all [] zero long = refl
take-all [] (suc n) long = refl
take-all (row ∷ rows) zero long = absurd (omega arith)
take-all (row ∷ rows) (suc n) long = ap (◌∷◌ row) (take-all rows n (omega arith))

take-min : (n : ℕ) (rows : List HistoryRow) → take (min n (length rows)) rows ≡ take n rows
take-min n rows = elim (Bool-cases (ltb n (length rows))) [
  | inl short ↦ let e : min n (length rows) ≡ n = ground arith in ap (λ k. take k rows) e
  | inr long ↦
      let e : min n (length rows) ≡ length rows = ground arith in
      ap (λ k. take k rows) e ∙ take-all rows n (ground arith)
]

-- At every position the panel shows the registers that the rows before the position lead to, from
-- the seed of the trace on: each row of an event sets them, and no other row changes them.
pub history_state_at-run_rows :
    (panel : HistoryPanel) (position : ℕ)
    → history_state_at panel position
      ≡ run_rows panel.trace panel.trace.seed
          (take position (history_rows_at panel panel.history_tab))
unfolding history_state_at
history_state_at-run_rows panel position =
    let rows = history_rows_at panel panel.history_tab in
    state_before-run_rows panel.trace (min position (length rows)) rows (omega arith)
    ∙ ap (run_rows panel.trace panel.trace.seed) (take-min position rows)
