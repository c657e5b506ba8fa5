-- ===== src/History/Panel/Selection.antt =====
-- Restoring a selection, in src/bme_core.cpp: the selected event stays selected.
use mathlib.Core.Path.{subst}
use bme.Base.{
  ℕ, zero, suc, ◌+◌, ◌-◌, ◌≡◌, ◌^◌, ◌<◌, refl, sym, ap, ◌∙◌, inl, inr, Bool, true, false, ◌&&◌,
  ◌||◌, Option, none, some, List, [], ◌∷◌, ltb, leb, min, if◌then◌else◌, length, get_elem?, Any,
  arith, Bool-cases,
}
use bme.Text.{is_empty}
use bme.Trace.{Trace, DisasmSyntax, DisasmBackend}
use bme.Disasm.{Decoders}
use bme.History.{HistoryRow, base, build_history}
use bme.History.Events.{row_indices}
use bme.History.Coverage.{build_history-ShowsEvents}
use bme.History.Panel.{
  HistoryPanel, HistorySelection, history_rows_at, row_at_cursor, same_index, is_none,
  matches_selection, find_selection, restored_cursor, history_selection, restore_history_selection,
}

-- The cursor is on a row with the event index `i`.
abbrev pub IsOnEvent : ℕ → ℕ → List HistoryRow → Type 0
IsOnEvent i cursor rows =
    (row : HistoryRow) × (row_at_cursor cursor rows ≡ some row)
    × (row.execution_event_index ≡ some i)

-- The search finds a row with the index, if there is one.
record IsFound (i before : ℕ) (rows : List HistoryRow) (found : Option ℕ) : Type 0 where
  place : ℕ
  found_e : found ≡ some (before + place + 1)
  row : HistoryRow
  row_e : get_elem? rows place ≡ some row
  index_e : row.execution_event_index ≡ some i

same_index-true : (o : Option ℕ) (i : ℕ) → same_index o i ≡ true → o ≡ some i
same_index-true none i e = cc
same_index-true (some k) i e = ap some (ground arith)

later-Any :
    (o : Option ℕ) (i : ℕ) (rest : List ℕ)
    → same_index o i ≡ false
    → Any (◌≡◌ i) (elim o [ none ↦ rest | some k ↦ k ∷ rest ])
    → Any (◌≡◌ i) rest
later-Any none i rest e listed = listed
later-Any (some k) i rest e (inl same) = absurd (ground arith)
later-Any (some k) i rest e (inr listed) = listed

unfoldable matches_by : Option ℕ → HistorySelection → HistoryRow → Bool
matches_by o selection row = elim o [
  | some i ↦ same_index row.execution_event_index i
  | none ↦
      is_none row.execution_event_index
      && leb row.rip selection.rip
      && ltb (selection.rip - row.rip) row.length
]

matches-same_index :
    (selection : HistorySelection) (row : HistoryRow) (i : ℕ)
    → selection.execution_event_index ≡ some i
    → matches_selection selection row ≡ same_index row.execution_event_index i
unfolding matches_selection matches_by
matches-same_index selection row i selected = ap (λ o. matches_by o selection row) selected

find_selection-IsFound :
    (selection : HistorySelection) (i before : ℕ) (rows : List HistoryRow)
    → selection.execution_event_index ≡ some i
    → Any (◌≡◌ i) (row_indices rows)
    → IsFound i before rows (find_selection selection before rows)
unfolding find_selection
find_selection-IsFound selection i before [] selected listed = absurd listed
find_selection-IsFound selection i before (row ∷ rows) selected listed =
    let same = matches-same_index selection row i selected in
    elim (Bool-cases (matches_selection selection row)) [
      | inl here ↦ rw (here) (record {
        place = 0;
        found_e = ap some (omega arith);
        row = row;
        row_e = refl;
        index_e = same_index-true row.execution_event_index i (sym same ∙ here);
      })
      | inr not_here ↦
          let rest = find_selection-IsFound selection i (before + 1) rows selected (
            later-Any row.execution_event_index i (row_indices rows) (sym same ∙ not_here)
              listed) in
          rw (not_here) (record {
            place = suc rest.place;
            found_e = rest.found_e ∙ ap some (omega arith);
            row = rest.row;
            row_e = rest.row_e;
            index_e = rest.index_e;
          })
    ]

restored_cursor-found :
    (selection : HistorySelection) (cursor place : ℕ) (rows : List HistoryRow)
    → selection.has_row ≡ true
    → find_selection selection 0 rows ≡ some (suc place)
    → restored_cursor selection cursor rows ≡ suc place
unfolding restored_cursor
restored_cursor-found selection cursor place rows has_row found =
    ap
      (λ (b : Bool).
        if b
        then elim (find_selection selection 0 rows) [ none ↦ min cursor (length rows) | some c ↦ c ]
        else 0)
      has_row
    ∙ ap (λ (o : Option ℕ). elim o [ none ↦ min cursor (length rows) | some c ↦ c ]) found

restored_cursor-IsOnEvent :
    (selection : HistorySelection) (i cursor : ℕ) (rows : List HistoryRow)
    → selection.has_row ≡ true
    → selection.execution_event_index ≡ some i
    → Any (◌≡◌ i) (row_indices rows)
    → IsOnEvent i (restored_cursor selection cursor rows) rows
unfolding row_at_cursor
restored_cursor-IsOnEvent selection i cursor rows has_row selected listed =
    let found = find_selection-IsFound selection i 0 rows selected listed in
    let cursor_e =
      restored_cursor-found selection cursor found.place rows has_row
        (found.found_e ∙ ap some (omega arith)) in
    (found.row, ap (λ c. row_at_cursor c rows) cursor_e ∙ found.row_e, found.index_e)

-- A row's index is in the list of them.
cons-Any :
    (o : Option ℕ) (i : ℕ) (rest : List ℕ)
    → o ≡ some i
    → Any (◌≡◌ i) (elim o [ none ↦ rest | some k ↦ k ∷ rest ])
cons-Any none i rest e = cc
cons-Any (some k) i rest e = inl (ground arith)

skip-Any :
    (o : Option ℕ) (i : ℕ) (rest : List ℕ)
    → Any (◌≡◌ i) rest
    → Any (◌≡◌ i) (elim o [ none ↦ rest | some k ↦ k ∷ rest ])
skip-Any none i rest h = h
skip-Any (some k) i rest h = inr h

row_indices-Any :
    (rows : List HistoryRow) (place i : ℕ) (row : HistoryRow)
    → get_elem? rows place ≡ some row
    → row.execution_event_index ≡ some i
    → Any (◌≡◌ i) (row_indices rows)
row_indices-Any [] place i row e index_e = cc
row_indices-Any (first ∷ rows) zero i row e index_e =
    let same : first ≡ row = cc in
    cons-Any first.execution_event_index i (row_indices rows)
      (ap (λ (r : HistoryRow). r.execution_event_index) same ∙ index_e)
row_indices-Any (first ∷ rows) (suc place) i row e index_e =
    skip-Any first.execution_event_index i (row_indices rows)
      (row_indices-Any rows place i row e index_e)

IsOnEvent-listed :
    (i cursor : ℕ) (rows : List HistoryRow)
    → IsOnEvent i cursor rows
    → Any (◌≡◌ i) (row_indices rows)
unfolding row_at_cursor
IsOnEvent-listed i zero rows (row, e, index_e) = cc
IsOnEvent-listed i (suc place) rows (row, e, index_e) = row_indices-Any rows place i row e index_e

history_selection-has_row :
    (panel : HistoryPanel) (row : HistoryRow)
    → row_at_cursor panel.cursor (history_rows_at panel panel.history_tab) ≡ some row
    → let selection = history_selection panel panel.history_tab in
      (selection.has_row ≡ true) × (selection.execution_event_index ≡ row.execution_event_index)
unfolding history_selection
history_selection-has_row panel row e = rw (history_selection, e) (refl, refl)

module _ (ds : Decoders) (trace : Trace) where
  same_indices :
      (b b' : DisasmBackend) (s s' : DisasmSyntax) (rows rows' : List HistoryRow)
      → base ds trace b s + length trace.code < 2 ^ 64
      → (is_empty trace.code || trace.instrumentation_detected) ≡ false
      → build_history ds trace b s ≡ some rows
      → build_history ds trace b' s' ≡ some rows'
      → row_indices rows ≡ row_indices rows'
  same_indices b b' s s' rows rows' fits runs e e' =
      let (built, built_e, order, shown) = build_history-ShowsEvents ds trace b s fits runs in
      let (built', built_e', order', shown') = build_history-ShowsEvents ds trace b' s' fits runs in
      let same : built ≡ rows = cc in
      let same' : built' ≡ rows' = cc in
      ap row_indices (sym same) ∙ order ∙ sym order' ∙ ap row_indices same'

-- A panel whose cursor is on the row of an event, and a panel with the history of the same trace by
-- any decoder and syntax, as after another tab is chosen: restoring the first panel's selection in
-- the second puts the cursor on a row of the same event. The trace has code that ends below
-- `2 ^ 64`, and was not refused for instrumentation.
pub restore_history_selection-IsOnEvent :
    (ds : Decoders) (trace : Trace) (b b' : DisasmBackend) (s s' : DisasmSyntax)
    (panel panel' : HistoryPanel) (i : ℕ)
    → base ds trace b s + length trace.code < 2 ^ 64
    → (is_empty trace.code || trace.instrumentation_detected) ≡ false
    → build_history ds trace b s ≡ some (history_rows_at panel panel.history_tab)
    → build_history ds trace b' s' ≡ some (history_rows_at panel' panel'.history_tab)
    → IsOnEvent i panel.cursor (history_rows_at panel panel.history_tab)
    → IsOnEvent i
        (restore_history_selection panel' (history_selection panel panel.history_tab)).cursor
        (history_rows_at panel' panel'.history_tab)
unfolding restore_history_selection
restore_history_selection-IsOnEvent ds trace b b' s s' panel panel' i fits runs e e' on_event =
    let rows = history_rows_at panel panel.history_tab in
    let rows' = history_rows_at panel' panel'.history_tab in
    let (row, row_e, index_e) = on_event in
    let (has_row, selected) = history_selection-has_row panel row row_e in
    let listed = IsOnEvent-listed i panel.cursor rows on_event in
    restored_cursor-IsOnEvent (history_selection panel panel.history_tab) i panel'.cursor rows'
      has_row (selected ∙ index_e)
      (subst (Any (◌≡◌ i)) (same_indices ds trace b b' s s' rows rows' fits runs e e') listed)
