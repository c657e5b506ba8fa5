-- ===== src/History/Panel.antt =====
-- The history panel's selection in src/bme_core.cpp: `history_rows_at` to `restore_history_selection`.
pub mod Selection
pub mod State
pub mod Lines
use bme.Base.{
  ℕ, zero, suc, ◌+◌, ◌-◌, Bool, true, false, not, ◌&&◌, ◌||◌, Option, none, some, List, [], ◌∷◌,
  ltb, leb, ◌==◌, min, if◌then◌else◌, length, get_elem?, get_or,
}
use bme.Seed.Compose.{Registers}
use bme.Trace.{Trace, ExecutionEvent}
use bme.History.{HistoryRow, HistoryRowKind, reached, faulted, not_reached, data_bytes}

-- The fields of `UI` for the history. The cursor is an index of a menu, which is not negative; 0 is
-- the seed's line, and `i + 1` the row `i`.
pub record HistoryPanel : Type 0 where
  pub trace : Trace
  pub history_rows : List HistoryRow
  pub history_backend_rows : List (List HistoryRow)
  pub history_tab : ℕ
  pub cursor : ℕ

pub record HistorySelection : Type 0 where
  pub rip : ℕ
  pub execution_event_index : Option ℕ
  pub has_row : Bool

unfoldable pub history_rows_at : HistoryPanel → ℕ → List HistoryRow
history_rows_at panel tab =
    if tab == 0 then panel.history_rows else get_or panel.history_backend_rows (tab - 1) []

abbrev pub no_selection : HistorySelection
no_selection = record { rip = 0; execution_event_index = none; has_row = false }

-- The row of a cursor, if it is on one.
unfoldable pub row_at_cursor : ℕ → List HistoryRow → Option HistoryRow
row_at_cursor zero rows = none
row_at_cursor (suc i) rows = get_elem? rows i

unfoldable pub is_static_kind : HistoryRowKind → Bool
is_static_kind reached = false
is_static_kind faulted = false
is_static_kind not_reached = true
is_static_kind data_bytes = true

unfoldable pub history_selection_is_static : HistoryPanel → Bool
history_selection_is_static panel =
    elim (row_at_cursor panel.cursor (history_rows_at panel panel.history_tab)) [
      | none ↦ false
      | some row ↦ is_static_kind row.kind
    ]

-- The event that a row shows, if its index is one of the trace's.
unfoldable pub row_event : List ExecutionEvent → Option HistoryRow → Option ExecutionEvent
row_event events none = none
row_event events (some row) = elim row.execution_event_index [
  | none ↦ none
  | some i ↦ get_elem? events i
]

-- The loop back from a position to the last row that shows an event.
unfoldable pub state_before : (position : ℕ) → Trace → List HistoryRow → Registers
state_before zero trace rows = trace.seed
state_before (suc position) trace rows =
    elim (row_event trace.execution_events (get_elem? rows position)) [
      | some event ↦ event.registers
      | none ↦ state_before position trace rows
    ]

unfoldable pub history_state_at : HistoryPanel → ℕ → Registers
history_state_at panel position =
    let rows = history_rows_at panel panel.history_tab in
    state_before (min position (length rows)) panel.trace rows

unfoldable pub history_selection : HistoryPanel → ℕ → HistorySelection
history_selection panel tab = elim (row_at_cursor panel.cursor (history_rows_at panel tab)) [
  | none ↦ no_selection
  | some row ↦ record {
    rip = row.rip;
    execution_event_index = row.execution_event_index;
    has_row = true;
  }
]

-- Whether two optional indices are the same one.
abbrev pub same_index : Option ℕ → ℕ → Bool
same_index none i = false
same_index (some k) i = k == i

abbrev pub is_none : Option ℕ → Bool
is_none none = true
is_none (some k) = false

-- The row of the selected event, or a row of no event that holds the selected address.
unfoldable pub matches_selection : HistorySelection → HistoryRow → Bool
matches_selection selection row = elim selection.execution_event_index [
  | some i ↦ same_index row.execution_event_index i
  | none ↦
      is_none row.execution_event_index
      && leb row.rip selection.rip
      && ltb (selection.rip - row.rip) row.length
]

-- The loop over the rows: the cursor of the first match, with `i` rows before.
unfoldable pub find_selection : HistorySelection → ℕ → List HistoryRow → Option ℕ
find_selection selection i [] = none
find_selection selection i (row ∷ rows) =
    let rest = find_selection selection (i + 1) rows in
    if matches_selection selection row then some (i + 1) else rest

unfoldable pub restored_cursor : HistorySelection → ℕ → List HistoryRow → ℕ
restored_cursor selection cursor rows =
    if selection.has_row
    then elim (find_selection selection 0 rows) [
      | none ↦ min cursor (length rows)
      | some found ↦ found
    ]
    else 0

unfoldable pub restore_history_selection : HistoryPanel → HistorySelection → HistoryPanel
restore_history_selection panel selection = record panel {
  cursor = restored_cursor selection panel.cursor (history_rows_at panel panel.history_tab);
}
