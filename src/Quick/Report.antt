-- ===== src/Quick/Report.antt =====
-- The rows that `run_quick` of src/bme_core.cpp prints, and the text of a trace.
use bme.Base.{ℕ, ◌&&◌, not, Option, none, some, List, [], ◌∷◌, ◌++◌, ◌==◌, if◌then◌else◌}
use bme.Text.{Text, codes, is_empty}
use bme.Code.{format_code_text}
use bme.Seed.Compose.{Registers}
use bme.Trace.{ExecutionEvent, Trace}
use bme.Platform.{no_registers}
use bme.CommandLine.{TrackMask, Cli}
use bme.Cpu.{CpuFingerprint}
use bme.Cpu.Summary.{format_cpu_summary}
use bme.Disasm.{Decoders}
use bme.History.{HistoryRow, HistoryRowKind, reached, faulted, build_history}
use bme.History.Panel.{row_event}
use bme.Json.{subspan}
use bme.Quick.{QuickFmt, print_deltas}

module _ (fmt : QuickFmt) (track : TrackMask) (trace : Trace) where
  -- A row: its mark, offset, bytes and text, and what is said of it.
  unfoldable pub row_line : (mark : Text) → HistoryRow → List ℕ → (said : Text) → Text
  row_line mark row bytes said =
      mark
      ++ fmt.left_hex 4 row.offset
      ++ codes " "
      ++ fmt.left 24 (format_code_text bytes)
      ++ codes " "
      ++ row.text
      ++ said

  unfoldable pub row_note : HistoryRow → Text
  row_note row =
      if row.rip == trace.stop_address && not (is_empty trace.stop_reason)
      then trace.stop_reason
      else codes "not reached"

  -- What is printed of a row, and the registers that the next one is compared with.
  abbrev pub RowOutput : Type 0
  RowOutput = Option (List Text × Registers)

  -- A row by its kind, with its bytes and the event that it names.
  abbrev pub row_of_kind :
      HistoryRowKind → HistoryRow → List ℕ → Registers → Option ExecutionEvent → RowOutput
  row_of_kind reached row bytes previous none = none
  row_of_kind reached row bytes previous (some event) = some (
    row_line (codes "+") row bytes [] ∷ print_deltas fmt track previous event.registers,
    event.registers,
  )
  row_of_kind faulted row bytes previous none = none
  row_of_kind faulted row bytes previous (some event) = some (
    row_line (codes "!") row bytes (codes "  (" ++ trace.stop_reason ++ codes ", partial state)")
        ∷ print_deltas fmt track previous event.registers,
    previous,
  )
  row_of_kind _ row bytes previous event =
      some
        (row_line (codes " ") row bytes (codes "  (" ++ row_note row ++ codes ")") ∷ [], previous)

  abbrev pub quick_bytes_row : HistoryRow → Registers → Option (List ℕ) → RowOutput
  quick_bytes_row row previous none = none
  quick_bytes_row row previous (some bytes) =
      row_of_kind row.kind row bytes previous (row_event trace.execution_events (some row))

  -- `none` where the code's `subspan` or the event's index is undefined.
  unfoldable pub quick_row : HistoryRow → Registers → RowOutput
  quick_row row previous = quick_bytes_row row previous (subspan trace.code row.offset row.length)

  abbrev pub with_lines : List Text → Option (List Text) → Option (List Text)
  with_lines lines none = none
  with_lines lines (some others) = some (lines ++ others)

  abbrev pub before_rows : RowOutput → (Registers → Option (List Text)) → Option (List Text)
  before_rows none rest = none
  before_rows (some (lines, next)) rest = with_lines lines (rest next)

  -- The loop over the rows.
  unfoldable pub quick_rows : List HistoryRow → Registers → Option (List Text)
  quick_rows [] previous = some []
  quick_rows (row ∷ rows) previous = before_rows (quick_row row previous) (quick_rows rows)

  abbrev pub of_rows : Option (List HistoryRow) → Option (List Text)
  of_rows none = none
  of_rows (some rows) = quick_rows rows trace.seed

  abbrev pub framed : CpuFingerprint → Option (List Text) → Option (List Text)
  framed fingerprint none = none
  framed fingerprint (some lines) = some (
      (codes "CPU " ++ format_cpu_summary fmt.numbers fingerprint)
        ∷ codes "Seed"
        ∷ print_deltas fmt track no_registers trace.seed
      ++ lines
      ++ trace.message ∷ [])

  -- The text of a trace: the CPU, the seed, a part for each row, and the message.
  unfoldable pub quick_text : Decoders → CpuFingerprint → Cli → Option (List Text)
  quick_text ds fingerprint cli =
      framed fingerprint (of_rows (build_history ds trace cli.backend cli.syntax))
