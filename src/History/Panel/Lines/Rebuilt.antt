-- ===== src/History/Panel/Lines/Rebuilt.antt =====
-- What `rebuild_history` of src/bme_core.cpp leaves of the history panel.
use bme.Base.{
  if-both, ℕ, suc, ◌+◌, ◌≤◌, ◌<◌, ◌^◌, Bool, Option, none, some, List, [], ◌∷◌, map, if◌then◌else◌,
  min, length, All, ◌≡◌, refl, ap, arith,
}
use bme.Text.{Text}
use bme.Trace.{Trace, DisasmSyntax, intel, DisasmBackend}
use bme.CommandLine.{backend_supports}
use bme.Disasm.{Decoders}
use bme.History.{HistoryRow, build_history}
use bme.History.Gaps.{IsInside}
use bme.History.Coverage.{build_history-IsRow}
use bme.History.Panel.{
  HistorySelection, history_rows_at, history_selection, matches_selection, find_selection,
  restored_cursor, restore_history_selection,
}
use bme.Json.Rows.{subspan_inside}
use bme.History.Panel.Lines.{
  LineFmt, with_line, row_lines, bytes_width, build_history_lines, HistoryView, all_backends,
  with_lines_of, built_by, with_built, built_by_each, rebuilt, rebuild_history,
}

-- Rows and their lines: those of a history, with the line of the seed before them.
pub record IsLined (ds : Decoders) (trace : Trace) (backend : DisasmBackend) (syntax : DisasmSyntax)
    (rows : List HistoryRow) (lines : List Text) : Type 0 where
  pub of_history : build_history ds trace backend syntax ≡ some rows
  pub one_more : length lines ≡ suc (length rows)

abbrev syntax_of : DisasmBackend → DisasmSyntax → DisasmSyntax
syntax_of backend syntax = if backend_supports backend syntax then syntax else intel

-- The rows and lines of each decoder in a list.
abbrev pub AreLined :
    Decoders
    → Trace
    → DisasmSyntax
    → List DisasmBackend
    → List (List HistoryRow)
    → List (List Text)
    → Type 0
AreLined ds trace syntax [] [] [] = Unit {0}
AreLined ds trace syntax (backend ∷ backends) (rows ∷ others) (lines ∷ texts) =
    IsLined ds trace backend (syntax_of backend syntax) rows lines
    × AreLined ds trace syntax backends others texts
AreLined ds trace syntax _ _ _ = ⊥

-- What a rebuild leaves: its trace and tab as they were, the histories and lines of the trace, and
-- the cursor on a line of its tab.
pub record IsRebuilt (ds : Decoders) (view after : HistoryView) : Type 0 where
  pub same_trace : after.panel.trace ≡ view.panel.trace
  pub same_tab : after.panel.history_tab ≡ view.panel.history_tab
  pub main_lined :
      IsLined ds view.panel.trace view.backend view.syntax after.panel.history_rows after.history
  pub each_lined :
      AreLined ds view.panel.trace view.syntax all_backends after.panel.history_backend_rows
        after.history_backend
  pub cursor_shown :
      after.panel.cursor ≤ length (history_rows_at after.panel after.panel.history_tab)

module _ (selection : HistorySelection) where
  abbrev IsBelow : ℕ → Option ℕ → Type 0
  IsBelow bound none = Unit {0}
  IsBelow bound (some found) = found ≤ bound

  IsBelow-more :
      (bound bound' : ℕ) (found : Option ℕ)
      → bound ≤ bound'
      → IsBelow bound found
      → IsBelow bound' found
  IsBelow-more bound bound' none le below = tt
  IsBelow-more bound bound' (some found) le below = omega arith

  find_selection-IsBelow :
      (i : ℕ) (rows : List HistoryRow) → IsBelow (i + length rows) (find_selection selection i rows)
  unfolding find_selection
  find_selection-IsBelow i [] = tt
  find_selection-IsBelow i (row ∷ rows) =
      if-both (IsBelow (i + length (row ∷ rows))) (matches_selection selection row) _ _
        (omega arith)
        (IsBelow-more (i + 1 + length rows) (i + length (row ∷ rows)) _ (omega arith)
          (find_selection-IsBelow (i + 1) rows))

  cursor_of-IsBelow :
      (cursor : ℕ) (rows : List HistoryRow) (found : Option ℕ)
      → IsBelow (0 + length rows) found
      → elim found [ none ↦ min cursor (length rows) | some found ↦ found ] ≤ length rows
  cursor_of-IsBelow cursor rows none below = omega arith
  cursor_of-IsBelow cursor rows (some found) below = omega arith

  restored_cursor-le :
      (cursor : ℕ) (rows : List HistoryRow) → restored_cursor selection cursor rows ≤ length rows
  unfolding restored_cursor
  restored_cursor-le cursor rows =
      if-both (λ cursor. cursor ≤ length rows) selection.has_row _ _
        (cursor_of-IsBelow cursor rows (find_selection selection 0 rows)
          (find_selection-IsBelow 0 rows))
        (omega arith)

module _ (fmt : LineFmt) (ds : Decoders) (trace : Trace) (relative : Bool)
    (fits : trace.seed.rip + length trace.code < 2 ^ 64) where
  -- Lines of a number.
  data HasLines (n : ℕ) : Option (List Text) → Type 0 where
    has_lines : (lines : List Text) → length lines ≡ n → HasLines n (some lines)

  with_line-HasLines :
      (n : ℕ) (line : Text) (lines : Option (List Text))
      → HasLines n lines
      → HasLines (suc n) (with_line fmt trace relative (some line) lines)
  with_line-HasLines n line _ (has_lines lines counted) = has_lines (line ∷ lines) (ap suc counted)

  module _ (backend : DisasmBackend) (syntax : DisasmSyntax) where
    row_lines-HasLines :
        (width position : ℕ) (rows : List HistoryRow)
        → All (IsInside ds trace backend syntax) rows
        → HasLines (length rows) (row_lines fmt trace relative width position rows)
    unfolding row_lines
    row_lines-HasLines width position [] inside = has_lines [] refl
    row_lines-HasLines width position (row ∷ rows) inside =
        rw (subspan_inside trace.code row.offset row.length inside.0.2)
          (with_line-HasLines (length rows) _ _ (row_lines-HasLines width _ rows inside.1))

    data IsBuilt : Option (List HistoryRow × List Text) → Type 0 where
      is_built :
          (rows : List HistoryRow) (lines : List Text)
          → IsLined ds trace backend syntax rows lines
          → IsBuilt (some (rows, lines))

    with_lines_of-IsBuilt :
        (rows : List HistoryRow) (lines : Option (List Text))
        → build_history ds trace backend syntax ≡ some rows
        → HasLines (suc (length rows)) lines
        → IsBuilt (with_lines_of fmt ds rows lines)
    with_lines_of-IsBuilt rows _ built (has_lines lines counted) =
        is_built rows lines (record { of_history = built; one_more = counted })

    built_by-IsBuilt : IsBuilt (built_by fmt ds trace relative backend syntax)
    unfolding built_by build_history_lines
    built_by-IsBuilt =
        let (rows, built, inside, is_row) = build_history-IsRow ds trace backend syntax fits in
        rw built (
          with_lines_of-IsBuilt rows _ built (
            with_line-HasLines (length rows) _ _
              (row_lines-HasLines (bytes_width rows) 0 rows inside)))

  data AreBuilt (syntax : DisasmSyntax) (backends : List DisasmBackend)
      : Option (List (List HistoryRow × List Text)) → Type 0 where
    are_built :
        (each : List (List HistoryRow × List Text))
        → AreLined ds trace syntax backends
            (map (λ built. built.0) each)
            (map (λ built. built.1) each)
        → AreBuilt syntax backends (some each)

  with_built-AreBuilt :
      (backend : DisasmBackend) (syntax : DisasmSyntax) (backends : List DisasmBackend)
      (first : Option (List HistoryRow × List Text))
      (others : Option (List (List HistoryRow × List Text)))
      → IsBuilt backend (syntax_of backend syntax) first
      → AreBuilt syntax backends others
      → AreBuilt syntax (backend ∷ backends) (with_built fmt ds first others)
  with_built-AreBuilt backend syntax backends _ _ (is_built rows lines lined)
        (are_built each all_lined) =
      are_built ((rows, lines) ∷ each) (lined, all_lined)

  built_by_each-AreBuilt :
      (syntax : DisasmSyntax) (backends : List DisasmBackend)
      → AreBuilt syntax backends (built_by_each fmt ds trace relative syntax backends)
  unfolding built_by_each
  built_by_each-AreBuilt syntax [] = are_built [] tt
  built_by_each-AreBuilt syntax (backend ∷ backends) =
      with_built-AreBuilt backend syntax backends _ _
        (built_by-IsBuilt backend (syntax_of backend syntax))
        (built_by_each-AreBuilt syntax backends)

-- A rebuild that is defined.
pub data Rebuilds (ds : Decoders) (view : HistoryView) : Option HistoryView → Type 0 where
  rebuilds : (after : HistoryView) → IsRebuilt ds view after → Rebuilds ds view (some after)

module _ (fmt : LineFmt) (ds : Decoders) (view : HistoryView)
    (fits : view.panel.trace.seed.rip + length view.panel.trace.code < 2 ^ 64) where
  rebuilt-Rebuilds :
      (main : Option (List HistoryRow × List Text))
      (each : Option (List (List HistoryRow × List Text)))
      → IsBuilt fmt ds view.panel.trace view.normalized_addresses fits view.backend view.syntax main
      → AreBuilt fmt ds view.panel.trace view.normalized_addresses fits view.syntax all_backends
          each
      → Rebuilds ds view (rebuilt fmt ds view main each)
  unfolding restore_history_selection history_rows_at
  rebuilt-Rebuilds _ _ (is_built rows lines lined) (are_built each all_lined) =
      let selection = history_selection view.panel view.panel.history_tab in
      rebuilds _ (record {
        same_trace = refl;
        same_tab = refl;
        main_lined = lined;
        each_lined = all_lined;
        cursor_shown = restored_cursor-le selection view.panel.cursor _;
      })

  -- For a trace whose code ends below `2 ^ 64`, whatever the decoders answer, a rebuild is defined. It
  -- leaves the trace and the tab as they were, and for the panel's decoder and for each of the four
  -- its history and one line more than that has rows; and the cursor is on a line of the tab.
  pub rebuild_history-Rebuilds : Rebuilds ds view (rebuild_history fmt ds view)
  unfolding rebuild_history
  rebuild_history-Rebuilds =
      rebuilt-Rebuilds _ _
        (built_by-IsBuilt fmt ds view.panel.trace view.normalized_addresses fits view.backend
          view.syntax)
        (built_by_each-AreBuilt fmt ds view.panel.trace view.normalized_addresses fits view.syntax
          all_backends)
