-- ===== src/History/Panel/Lines.antt =====
-- The lines of the history panel, `build_history_lines` and `rebuild_history` in src/bme_core.cpp.
pub mod Rebuilt
use bme.Base.{
  ℕ, suc, ◌-◌, ◌*◌, Bool, true, false, ◌&&◌, not, Option, none, some, List, [], ◌∷◌, ◌++◌, ◌==◌,
  if◌then◌else◌, max, map,
}
use bme.Text.{Text, codes, is_empty}
use bme.Code.{format_code_text}
use bme.Trace.{Trace, DisasmSyntax, intel, DisasmBackend, zydis, bddisasm, capstone, xed}
use bme.CommandLine.{backend_supports}
use bme.Disasm.{Decoders}
use bme.Engine.Address.{Fmt}
use bme.History.{HistoryRow, HistoryRowKind, reached, faulted, build_history}
use bme.History.Panel.{HistoryPanel, history_selection, restore_history_selection}
use bme.Json.{subspan}

-- `fmt` as the panel uses it: numbers, and texts filled up to a width on the left or the right.
pub record LineFmt : Type 0 where
  pub numbers : Fmt
  pub right : (width : ℕ) → Text → Text
  pub left : (width : ℕ) → Text → Text

unfoldable pub longest_row : List HistoryRow → ℕ
longest_row [] = 0
longest_row (row ∷ rows) = max row.length (longest_row rows)

-- Two digits for each byte, with a space between.
unfoldable pub bytes_width : List HistoryRow → ℕ
bytes_width rows = if longest_row rows == 0 then 0 else longest_row rows * 3 - 1

abbrev pub is_reached : HistoryRowKind → Bool
is_reached reached = true
is_reached _ = false

abbrev marker_of : HistoryRowKind → Text
marker_of faulted = codes "!"
marker_of _ = codes "-"

module _ (fmt : LineFmt) (trace : Trace) (relative_addresses : Bool) where
  unfoldable pub address_text : HistoryRow → Text
  address_text row =
      if relative_addresses
      then codes "code+" ++ fmt.numbers.hex 4 row.offset
      else fmt.numbers.hex 8 row.rip

  unfoldable pub line_note : HistoryRow → Text
  line_note row =
      if row.rip == trace.stop_address && not (is_empty trace.stop_reason)
      then trace.stop_reason
      else codes "Not reached"

  -- The line of a row with its bytes; `position` counts the reached rows, with this one.
  unfoldable pub history_line : (width position : ℕ) → HistoryRow → List ℕ → Text
  history_line width position row bytes =
      let shown =
        codes "  "
        ++ address_text row
        ++ codes "  "
        ++ fmt.left width (format_code_text bytes)
        ++ codes "  "
        ++ row.text in
      if is_reached row.kind
      then fmt.right 3 (fmt.numbers.number position) ++ shown
      else fmt.right 3 (marker_of row.kind) ++ shown ++ codes " (" ++ line_note row ++ codes ")"

  abbrev pub with_line : Option Text → Option (List Text) → Option (List Text)
  with_line (some line) (some lines) = some (line ∷ lines)
  with_line _ _ = none

  abbrev pub line_of : (width position : ℕ) → HistoryRow → Option (List ℕ) → Option Text
  line_of width position row none = none
  line_of width position row (some bytes) = some (history_line width position row bytes)

  -- The loop over the rows, with `position` reached rows before; `none` where a `subspan` is
  -- undefined.
  unfoldable pub row_lines : (width position : ℕ) → List HistoryRow → Option (List Text)
  row_lines width position [] = some []
  row_lines width position (row ∷ rows) =
      let position' = if is_reached row.kind then suc position else position in
      with_line (line_of width position' row (subspan trace.code row.offset row.length))
        (row_lines width position' rows)

  abbrev pub seed_line : Text
  seed_line = codes "- Initial (seed)"

  unfoldable pub build_history_lines : List HistoryRow → Option (List Text)
  build_history_lines rows = with_line (some seed_line) (row_lines (bytes_width rows) 0 rows)

-- The fields of `UI` that a rebuild uses.
pub record HistoryView : Type 0 where
  pub panel : HistoryPanel
  pub backend : DisasmBackend
  pub syntax : DisasmSyntax
  pub normalized_addresses : Bool
  pub history : List Text
  pub history_backend : List (List Text)

abbrev pub all_backends : List DisasmBackend
all_backends = zydis ∷ bddisasm ∷ capstone ∷ xed ∷ []

module _ (fmt : LineFmt) (ds : Decoders) where
  abbrev pub Built : Type 0
  Built = List HistoryRow × List Text

  abbrev pub with_lines_of : List HistoryRow → Option (List Text) → Option Built
  with_lines_of rows none = none
  with_lines_of rows (some lines) = some (rows, lines)

  abbrev pub lines_of : Trace → Bool → Option (List HistoryRow) → Option Built
  lines_of trace relative none = none
  lines_of trace relative (some rows) =
      with_lines_of rows (build_history_lines fmt trace relative rows)

  -- The rows and lines of one decoder.
  unfoldable pub built_by : Trace → Bool → DisasmBackend → DisasmSyntax → Option Built
  built_by trace relative backend syntax =
      lines_of trace relative (build_history ds trace backend syntax)

  abbrev pub with_built : Option Built → Option (List Built) → Option (List Built)
  with_built (some built) (some others) = some (built ∷ others)
  with_built _ _ = none

  -- The loop over the decoders; one that has no AT&T syntax shows Intel's.
  unfoldable pub built_by_each :
      Trace → Bool → DisasmSyntax → List DisasmBackend → Option (List Built)
  built_by_each trace relative syntax [] = some []
  built_by_each trace relative syntax (backend ∷ backends) =
      with_built
        (built_by trace relative backend
          (if backend_supports backend syntax then syntax else intel))
        (built_by_each trace relative syntax backends)

  abbrev pub rebuilt : HistoryView → Option Built → Option (List Built) → Option HistoryView
  rebuilt view (some main) (some each) =
      let selection = history_selection view.panel view.panel.history_tab in
      let panel = record view.panel {
        history_rows = main.0;
        history_backend_rows = map (λ built. built.0) each;
      } in
      some (record view {
        panel = restore_history_selection panel selection;
        history = main.1;
        history_backend = map (λ built. built.1) each;
      })
  rebuilt view _ _ = none

  -- `none` where a history is out of fuel or a `subspan` is undefined.
  unfoldable pub rebuild_history : HistoryView → Option HistoryView
  rebuild_history view =
      let trace = view.panel.trace in
      rebuilt view (built_by trace view.normalized_addresses view.backend view.syntax)
        (built_by_each trace view.normalized_addresses view.syntax all_backends)
