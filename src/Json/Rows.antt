-- ===== src/Json/Rows.antt =====
-- The rows of a JSON trace of src/trace_json.cpp, and the bytes of the code.
use bme.Base.{
  ℕ, ◌+◌, ◌^◌, ◌≤◌, ◌<◌, ◌≡◌, refl, ap, Bool, false, ◌||◌, some, List, [], ◌∷◌, map, length, take,
  drop, All, arith,
}
use bme.Text.{is_empty}
use bme.Hex.{format_bytes}
use bme.Trace.{Trace, DisasmSyntax, DisasmBackend}
use bme.Disasm.{Decoders}
use bme.History.{HistoryRow, base}
use bme.History.Gaps.{IsInside}
use bme.History.Coverage.{build_history-Covers}
use bme.Json.{
  HistoryRowDocument, DecoderDocument, subspan, make_history_row_document, make_decoder_document,
  effective_syntax, row_documents, decoder_document,
}

-- A document's row is one byte at least, and shows the bytes of the code at its offset, inside it.
pub record IsShown (trace : Trace) (document : HistoryRowDocument) : Type 0 where
  pub some_bytes : 1 ≤ document.length
  pub inside : document.offset + document.length ≤ length trace.code
  pub shown :
      document.bytes ≡ some (format_bytes (take document.length (drop document.offset trace.code)))

pub subspan_inside :
    (bytes : List ℕ) (offset count : ℕ)
    → offset + count ≤ length bytes
    → subspan bytes offset count ≡ some (take count (drop offset bytes))
unfolding subspan
subspan_inside bytes offset count h = ground arith

module _ (ds : Decoders) (trace : Trace) (backend : DisasmBackend) (syntax : DisasmSyntax) where
  row-IsShown :
      (row : HistoryRow)
      → IsInside ds trace backend syntax row
      → IsShown trace (make_history_row_document trace row)
  unfolding make_history_row_document
  row-IsShown row inside = record {
    some_bytes = inside.1;
    inside = inside.2;
    shown = rw (subspan_inside trace.code row.offset row.length inside.2) refl;
  }

  rows-IsShown :
      (rows : List HistoryRow)
      → All (IsInside ds trace backend syntax) rows
      → All (IsShown trace) (map (make_history_row_document trace) rows)
  rows-IsShown [] inside = tt
  rows-IsShown (row ∷ rows) inside = (row-IsShown row inside.0, rows-IsShown rows inside.1)

some_code : (code : List ℕ) (refused : Bool) → (is_empty code || refused) ≡ false → 0 < length code
some_code [] refused h = ground arith
some_code (b ∷ code) refused h = omega arith

-- For code that is not empty and ends below `2 ^ 64`, in a trace not refused for instrumentation:
-- the part of each decoder is made, and every row of it is one byte at least, lies inside the code, and
-- shows the code's bytes at its offset.
pub make_decoder_document-IsShown :
    (ds : Decoders) (trace : Trace) (backend : DisasmBackend)
    → trace.seed.rip + length trace.code < 2 ^ 64
    → (is_empty trace.code || trace.instrumentation_detected) ≡ false
    → (document : DecoderDocument) × (make_decoder_document ds trace backend ≡ some document)
      × All (IsShown trace) document.rows
unfolding make_decoder_document
make_decoder_document-IsShown ds trace backend code_fits runs =
    let syntax = effective_syntax backend trace.requested_syntax in
    let (rows, built, inside, covered) =
      build_history-Covers ds trace backend syntax code_fits runs (base ds trace backend syntax)
        (omega arith) (omega (arith, some_code trace.code trace.instrumentation_detected runs)) in
    (
      _,
      ap (λ rows. decoder_document backend trace.requested_syntax syntax (row_documents trace rows))
          built,
      rows-IsShown ds trace backend syntax rows inside,
    )
