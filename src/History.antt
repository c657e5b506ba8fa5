-- ===== src/History.antt =====
-- `build_history` of src/bme_core.cpp: one decoder's instruction boundaries over the input bytes.
pub mod Gaps
pub mod Events
pub mod Marks
pub mod Coverage
pub mod Panel
use bme.Base.{
  ℕ, zero, suc, ◌+◌, ◌-◌, ◌≡◌, Bool, true, false, not, ◌&&◌, ◌||◌, Option, none, some, List, [],
  ◌∷◌, ◌++◌, ltb, leb, ◌==◌, min, max, if◌then◌else◌, length, drop, replicate, set, get_or,
}
use bme.Base.Words.{u64}
use bme.Text.{Text, codes, is_empty}
use bme.Trace.{
  Trace, ExecutionEvent, ExecutionEventKind, completed, event_faulted, DisasmSyntax, DisasmBackend,
}
use bme.Disasm.{Decoders, valid, disasm_one}

pub data HistoryRowKind : Type 0 where
  reached : HistoryRowKind
  faulted : HistoryRowKind
  not_reached : HistoryRowKind
  data_bytes : HistoryRowKind

pub record HistoryRow : Type 0 where
  pub rip : ℕ
  pub text : Text
  pub offset : ℕ
  pub length : ℕ
  pub kind : HistoryRowKind
  pub execution_event_index : Option ℕ

unfoldable pub event_row_kind : ExecutionEventKind → HistoryRowKind
event_row_kind completed = reached
event_row_kind event_faulted = faulted

-- A unit of work that fails when the fuel is gone.
abbrev pub Rows : Type 0
Rows = Option (List HistoryRow)

module _ (base code_end : ℕ) where
  abbrev pub in_range : ℕ → Bool
  in_range rip = leb base rip && ltb rip code_end

  -- The loop that marks the bytes at which an event starts.
  unfoldable pub mark_events : List ExecutionEvent → List Bool → List Bool
  mark_events [] marks = marks
  mark_events (event ∷ events) marks =
      mark_events events (if in_range event.rip then set marks (event.rip - base) true else marks)

module _ (ds : Decoders) (trace : Trace) (backend : DisasmBackend) (syntax : DisasmSyntax) where
  abbrev pub base : ℕ
  base = trace.seed.rip

  abbrev pub code_end : ℕ
  code_end = u64 (base + length trace.code)

  unfoldable pub event_at : ℕ → Bool
  event_at address =
      let marks =
        mark_events base code_end trace.execution_events (replicate (length trace.code) false) in
      get_or marks (address - base) false

  unfoldable pub disasm_at : ℕ → HistoryRow
  disasm_at rip =
      let offset = rip - base in
      let available = length trace.code - offset in
      let decoded = disasm_one ds backend syntax rip (drop offset trace.code) in
      let accepted = valid decoded && leb decoded.length available in
      record {
        rip = rip;
        text = if accepted then decoded.text else codes "(bad)";
        offset = offset;
        length = if accepted then decoded.length else 1;
        kind = not_reached;
        execution_event_index = none;
      }

  -- The first of `count` addresses at which an event starts, or else the boundary.
  unfoldable pub first_event : (count address boundary : ℕ) → ℕ
  first_event zero address boundary = boundary
  first_event (suc count) address boundary =
      let rest = first_event count (address + 1) boundary in
      if event_at address then address else rest

  -- A row of a gap, and the address behind it.
  unfoldable pub gap_row : (from to : ℕ) → HistoryRow × ℕ
  gap_row from to =
      let row = disasm_at from in
      let next = u64 (from + row.length) in
      let limit = min next to in
      let boundary = first_event (limit - (from + 1)) (from + 1) limit in
      if boundary == next then (row, next) else (
        record row { text = codes "(data)"; kind = data_bytes; length = boundary - from },
        boundary,
      )

  -- The loop over a gap; each round is at least one byte.
  unfoldable pub fill_gap : (fuel from to : ℕ) → List HistoryRow → Rows
  fill_gap zero from to result = if ltb from to then none else some result
  fill_gap (suc fuel) from to result = elim (ltb from to) [
    | true ↦
        let (row, next) = gap_row from to in
        fill_gap fuel next to (if event_at from then result else result ++ row ∷ [])
    | false ↦ some result
  ]

  unfoldable pub event_row : ℕ → ExecutionEvent → HistoryRow
  event_row index event = record (disasm_at event.rip) {
    kind = event_row_kind event.kind;
    execution_event_index = some index;
  }

  -- The gap before an event that is ahead.
  unfoldable pub fill_before : (linear rip : ℕ) → List HistoryRow → Rows
  fill_before linear rip result =
      if ltb linear rip then fill_gap (rip - linear) linear rip result else some result

  -- The loop over the events, and the gap behind them.
  unfoldable pub add_events :
      (index : ℕ) → List ExecutionEvent → (linear : ℕ) → List HistoryRow → Rows
  add_events index [] linear result = fill_gap (code_end - linear) linear code_end result
  add_events index (event ∷ events) linear result = elim (in_range base code_end event.rip) [
    | false ↦ add_events (index + 1) events linear result
    | true ↦ elim (fill_before linear event.rip result) [
      | none ↦ none
      | some filled ↦
          let row = event_row index event in
          add_events (index + 1) events (max linear (u64 (event.rip + row.length)))
            (filled ++ row ∷ [])
    ]
  ]

  unfoldable pub build_history : Rows
  build_history =
      if is_empty trace.code || trace.instrumentation_detected
      then some []
      else add_events 0 trace.execution_events base []
