-- ===== src/Quick/Reported.antt =====
-- What `run_quick` of src/bme_core.cpp reports of an accepted command line.
use bme.Base.{
  if-both, if-cases, false, ltb, ◌-◌, ℕ, ◌+◌, ◌^◌, ◌<◌, true, ◌||◌, Option, none, some, List, [],
  ◌∷◌, All, length, get_elem?, Result, ok, err, ◌≡◌, ◌⊎◌, inl, inr, refl, ap, arith,
}
use bme.Calls.{Calling, Returns, returns, Returns-and_then, Returns-if}
use bme.Text.{Text, codes, is_empty, text_eq}
use bme.Code.{CodeError, parse_code_text}
use bme.Code.Errors.{IsReport as CodeReport}
use bme.Code.Errors.Report.{parse_code_text-IsReport}
use bme.Seed.{Floats}
use bme.Seed.Compose.{Registers, compose_seed}
use bme.Trace.{Outcome, error, idle, finished, faulted, aborted_cap, stopped, Trace, ExecutionEvent}
use bme.CommandLine.{Arguments, Cli, json_format, text_format, parse_arguments}
use bme.CommandLine.Accepted.{IsConsistent, is_json, parse_arguments-IsConsistent}
use bme.Cpu.{CpuFingerprint}
use bme.Disasm.{Decoders}
use bme.History.{HistoryRow, HistoryRowKind, reached, faulted, not_reached, data_bytes}
use bme.History.Gaps.{IsInside}
use bme.History.Events.{IsIndexed, IsRow}
use bme.History.Coverage.{build_history-IsRow}
use bme.History.Panel.{row_event}
use bme.Json.Rows.{subspan_inside}
use bme.Platform.{PageSizes, Environment}
use bme.Linux.{Kernel, Zydis}
use bme.Linux.Whole.{IsPatient}
use bme.Engine.{EngineRequest, run_engine}
use bme.Engine.Address.{Fmt}
use bme.Engine.Below.{IsPlacing, IsBelow, run_engine-IsBelow}
use bme.Quick.{QuickFmt}
use bme.Quick.Report.{
  row_of_kind, before_rows, with_lines, quick_row, quick_rows, framed, quick_text,
}
use bme.Quick.Run.{
  QuickError, invalid_seed, failed_run, written_json, printed, text_output, defined, run_decoded,
  read_binary_input, read_contents, read_sized, read_file, as_quick_error, code_of,
  max_raw_file_bytes, JsonWriter, OpenFile, Output, failed_output, decoded_input, quick_request,
  trace_output, run_quick,
}

-- The value is defined.
data IsDefined {A : Type 0} : Option A → Type 0 where
  is_defined : (a : A) → IsDefined (some a)

-- The row names an event, or its kind is that of a row without one.
abbrev IsComplete : HistoryRowKind → Option ExecutionEvent → Type 0
IsComplete kind event =
    ((e : ExecutionEvent) × (event ≡ some e)) ⊎ (kind ≡ not_reached) ⊎ (kind ≡ data_bytes)

module _ (fmt : QuickFmt) (ds : Decoders) (cli : Cli) (trace : Trace) where
  with_lines-IsDefined :
      (lines : List Text) (rest : Option (List Text))
      → IsDefined rest
      → IsDefined (with_lines fmt cli.track trace lines rest)
  with_lines-IsDefined lines _ (is_defined others) = is_defined _

  before_rows-IsDefined :
      (first : Option (List Text × Registers)) (rest : Registers → Option (List Text))
      → IsDefined first
      → ((next : Registers) → IsDefined (rest next))
      → IsDefined (before_rows fmt cli.track trace first rest)
  before_rows-IsDefined _ rest (is_defined (lines, next)) defined =
      with_lines-IsDefined lines (rest next) (defined next)

  row_of_kind-IsDefined :
      (kind : HistoryRowKind) (row : HistoryRow) (bytes : List ℕ) (previous : Registers)
      (event : Option ExecutionEvent)
      → IsComplete kind event
      → IsDefined (row_of_kind fmt cli.track trace kind row bytes previous event)
  row_of_kind-IsDefined reached row bytes previous none complete = absurd (ground arith)
  row_of_kind-IsDefined reached row bytes previous (some event) complete = is_defined _
  row_of_kind-IsDefined faulted row bytes previous none complete = absurd (ground arith)
  row_of_kind-IsDefined faulted row bytes previous (some event) complete = is_defined _
  row_of_kind-IsDefined not_reached row bytes previous event complete = is_defined _
  row_of_kind-IsDefined data_bytes row bytes previous event complete = is_defined _

  abbrev indexed_event : Option ℕ → Option ExecutionEvent
  indexed_event none = none
  indexed_event (some i) = get_elem? trace.execution_events i

  row_event-indexed_event :
      (row : HistoryRow)
      → row_event trace.execution_events (some row) ≡ indexed_event row.execution_event_index
  unfolding row_event
  row_event-indexed_event row =
      elim row.execution_event_index
        as (λ o.
          elim o [ none ↦ none | some i ↦ get_elem? trace.execution_events i ] ≡ indexed_event o) [
            | none ↦ refl
            | some i ↦ refl
          ]

  indexed-IsComplete :
      (o : Option ℕ) (row : HistoryRow)
      → IsIndexed ds trace cli.backend cli.syntax o row
      → IsComplete row.kind (indexed_event o)
  indexed-IsComplete none row static = inr static.static_kind
  indexed-IsComplete (some i) row indexed = inl (indexed.0, indexed.1)

  -- A row of the history is printed, and so are those behind it.
  rows-IsDefined :
      (rows : List HistoryRow) (previous : Registers)
      → All (IsInside ds trace cli.backend cli.syntax) rows
      → All (IsRow ds trace cli.backend cli.syntax) rows
      → IsDefined (quick_rows fmt cli.track trace rows previous)
  unfolding quick_rows quick_row
  rows-IsDefined [] previous inside is_row = is_defined []
  rows-IsDefined (row ∷ rows) previous inside is_row =
      let complete : IsComplete row.kind (row_event trace.execution_events (some row)) =
        rw (row_event-indexed_event row)
          (indexed-IsComplete row.execution_event_index row is_row.0) in
      rw (subspan_inside trace.code row.offset row.length inside.0.2) (
        before_rows-IsDefined _ (quick_rows fmt cli.track trace rows)
          (row_of_kind-IsDefined row.kind row _ previous _ complete)
          (λ next. rows-IsDefined rows next inside.1 is_row.1))

  framed-IsDefined :
      (fingerprint : CpuFingerprint) (lines : Option (List Text))
      → IsDefined lines
      → IsDefined (framed fmt cli.track trace fingerprint lines)
  framed-IsDefined fingerprint _ (is_defined lines) = is_defined _

  quick_text-IsDefined :
      (fingerprint : CpuFingerprint)
      → trace.seed.rip + length trace.code < 2 ^ 64
      → IsDefined (quick_text fmt cli.track trace ds fingerprint cli)
  unfolding quick_text quick_rows
  quick_text-IsDefined fingerprint fits =
      let (rows, built, inside, is_row) =
        build_history-IsRow ds trace cli.backend cli.syntax fits in
      framed-IsDefined fingerprint _ (rw built (rows-IsDefined rows trace.seed inside is_row))

-- An error that is not about the seed.
abbrev pub IsNotSeed : QuickError → Type 0
IsNotSeed (invalid_seed line) = ⊥
IsNotSeed _ = Unit {0}

-- What a run reports: all went well; or nothing is printed, and one error that is not about the seed;
-- or, with JSON output, what was written of the trace of a failed run or before an error.
pub data IsReport (cli : Cli) : Output → Type 0 where
  succeeded : (output : Output) → output.exit_code ≡ 0 → output.errors ≡ [] → IsReport cli output
  refused :
      (output : Output) (problem : QuickError)
      → output.exit_code ≡ 1
      → output.lines ≡ []
      → output.errors ≡ problem ∷ []
      → IsNotSeed problem
      → IsReport cli output
  json_failed :
      (output : Output) → is_json cli.format ≡ true → output.exit_code ≡ 1 → IsReport cli output

module _ (fmt : QuickFmt) (ds : Decoders) (fingerprint : CpuFingerprint) (json : JsonWriter)
    (cli : Cli) where
  data Reports : Option Output → Type 0 where
    reports : (output : Output) → IsReport cli output → Reports (some output)

  json_output-IsReport :
      (outcome : Outcome) (written : Text × Option Text)
      → is_json cli.format ≡ true
      → IsReport cli (written_json outcome written)
  json_output-IsReport outcome (text, some problem) is = json_failed _ is refl
  json_output-IsReport error (text, none) is = json_failed _ is refl
  json_output-IsReport idle (text, none) is = succeeded _ refl refl
  json_output-IsReport finished (text, none) is = succeeded _ refl refl
  json_output-IsReport faulted (text, none) is = succeeded _ refl refl
  json_output-IsReport aborted_cap (text, none) is = succeeded _ refl refl
  json_output-IsReport stopped (text, none) is = succeeded _ refl refl

  printed-Reports : (lines : Option (List Text)) → IsDefined lines → Reports (printed lines)
  printed-Reports _ (is_defined lines) = reports _ (succeeded _ refl refl)

  text_output-Reports :
      (trace : Trace) (outcome : Outcome)
      → IsBelow outcome trace.seed.rip (length trace.code)
      → Reports (text_output fmt ds fingerprint json cli trace outcome)
  text_output-Reports trace error below =
      reports _ (refused _ (failed_run trace.message) refl refl refl tt)
  text_output-Reports trace idle below =
      printed-Reports _ (quick_text-IsDefined fmt ds cli trace fingerprint (ground arith))
  text_output-Reports trace finished below =
      printed-Reports _ (quick_text-IsDefined fmt ds cli trace fingerprint (ground arith))
  text_output-Reports trace faulted below =
      printed-Reports _ (quick_text-IsDefined fmt ds cli trace fingerprint (ground arith))
  text_output-Reports trace aborted_cap below =
      printed-Reports _ (quick_text-IsDefined fmt ds cli trace fingerprint (ground arith))
  text_output-Reports trace stopped below =
      printed-Reports _ (quick_text-IsDefined fmt ds cli trace fingerprint (ground arith))

  trace_output-Reports :
      (trace : Trace)
      → IsBelow trace.outcome trace.seed.rip (length trace.code)
      → Reports (trace_output fmt ds fingerprint json cli trace)
  unfolding trace_output
  trace_output-Reports trace below =
      elim cli.format
          as (λ format.
            is_json cli.format ≡ is_json format
            → Reports (elim format [
              | json_format ↦ some (written_json trace.outcome (json trace cli.pretty_json))
              | text_format ↦ text_output fmt ds fingerprint json cli trace trace.outcome
            ])) [
              | json_format ↦ λ is.
                  reports _ (json_output-IsReport trace.outcome (json trace cli.pretty_json) is)
              | text_format ↦ λ _. text_output-Reports trace trace.outcome below
            ]
        refl

IsReport-defined :
    {S : Type 0} (fmt : QuickFmt) (ds : Decoders) (fingerprint : CpuFingerprint) (json : JsonWriter)
    (cli : Cli) (output : Option Output) (world : S)
    → Reports fmt ds fingerprint json cli output
    → Returns (λ output _. IsReport cli output) (defined output world)
IsReport-defined fmt ds fingerprint json cli _ world (reports output report) =
    returns output world report

-- What is decoded is code that is not empty, or an error that is not about the seed.
abbrev IsInput : Result (List ℕ) QuickError → Type 0
IsInput (ok code) = 0 < length code
IsInput (err problem) = IsNotSeed problem

some_bytes : (bytes : List ℕ) → is_empty bytes ≡ false → 0 < length bytes
some_bytes [] e = ground arith
some_bytes (b ∷ bytes) e = omega arith

read_contents-IsInput : (path : Text) (bytes : Option (List ℕ)) → IsInput (read_contents path bytes)
read_contents-IsInput path none = tt
read_contents-IsInput path (some bytes) =
    if-cases IsInput (is_empty bytes) _ _ (λ _. tt) (λ e. some_bytes bytes e)

read_sized-IsInput :
    (path : Text) (file : OpenFile) (size : Option ℕ) → IsInput (read_sized path file size)
read_sized-IsInput path file none = tt
read_sized-IsInput path file (some size) =
    if-both IsInput (ltb (2 ^ 64 - 1) size || ltb (2 ^ 63 - 1) size) _ _ tt (
      if-both IsInput (ltb max_raw_file_bytes size) _ _ tt
        (read_contents-IsInput path (file.read_bytes size)))

read_file-IsInput : (path : Text) (file : Option OpenFile) → IsInput (read_file path file)
read_file-IsInput path none = tt
read_file-IsInput path (some file) = read_sized-IsInput path file file.end_position

as_quick_error-IsInput :
    (size : ℕ) (code : Result (List ℕ) CodeError)
    → CodeReport 1 size code
    → IsInput (as_quick_error code)
as_quick_error-IsInput size (ok code) (bytes, least, most) = omega arith
as_quick_error-IsInput size (err e) points = tt

code_of-IsInput :
    (files : Text → Option OpenFile) (bytes file : Option Text) → IsInput (code_of files bytes file)
unfolding read_binary_input
code_of-IsInput files (some bytes) file =
    as_quick_error-IsInput (length bytes) (parse_code_text bytes) (parse_code_text-IsReport bytes)
code_of-IsInput files none (some path) = read_file-IsInput path (files path)
code_of-IsInput files none none = tt

decoded_input-IsInput :
    (files : Text → Option OpenFile) (cli : Cli) → IsInput (decoded_input files cli)
unfolding decoded_input
decoded_input-IsInput files cli = code_of-IsInput files cli.bytes cli.input_file

module _ (f : Floats) (fmt : QuickFmt) (ds : Decoders) (fingerprint : CpuFingerprint)
    (json : JsonWriter) (files : Text → Option OpenFile) (cli : Cli) where
  -- For any engine that runs the code that is decoded, and says where it ends.
  run_decoded-IsReport :
      {S : Type 0} (engine : EngineRequest → Calling S Trace) (world : S)
      → IsConsistent f cli
      → (input : Result (List ℕ) QuickError) → IsInput input
      → ((code : List ℕ) (seed : Registers)
          → input ≡ ok code
          → 0 < length code
          → Returns
              (λ trace _. IsBelow trace.outcome trace.seed.rip (length trace.code))
              (engine (quick_request cli code seed) world))
      → Returns
          (λ output _. IsReport cli output)
          (run_decoded f fmt ds fingerprint json files engine cli input world)
  run_decoded-IsReport engine world consistent (err problem) other runs =
      returns _ world (refused (failed_output (problem ∷ [])) problem refl refl refl other)
  run_decoded-IsReport engine world consistent (ok code) some_code runs =
      let seeded =
        compose_seed f cli.seeds.gpr cli.seeds.flags cli.seeds.xmm cli.seeds.st
          cli.seeds.environment [] in
      let none_wrong : is_empty seeded.1 ≡ true = ap is_empty consistent.seeds_compose in
      Returns-if _ _ world (is_empty seeded.1)
        (λ _.
          Returns-and_then (engine (quick_request cli code seeded.0) world) _
            (λ trace later below.
              IsReport-defined fmt ds fingerprint json cli
                (trace_output fmt ds fingerprint json cli trace) later
                (trace_output-Reports fmt ds fingerprint json cli trace below))
            (runs code seeded.0 refl some_code))
        (λ wrong. absurd (ground arith))

  -- With the engine of Linux on a patient kernel, whose worker reports that it placed the decoded
  -- code so that it ends below `2 ^ 64`, and where argparse leaves the format `json` only if
  -- `--format` is used, the run of an accepted command line returns its output: no error and the
  -- exit code 0; nothing but one error, which is never about the seed, and the exit code 1; or the
  -- exit code 1 with JSON output. Every row of the history can be printed.
  pub run_quick-IsReport :
      (engine_fmt : Fmt) (sizes : PageSizes) (kernel : Kernel) (getenv : Environment)
      (zydis : Zydis) (patience : ℕ) (arguments : Arguments)
      → IsPatient kernel patience
      → ((code : List ℕ) → decoded_input files cli ≡ ok code → IsPlacing kernel (length code))
      → (text_eq arguments.format (codes "json") ≡ true → arguments.format_is_used ≡ true)
      → parse_arguments f arguments ≡ ok cli
      → Returns
          (λ output _. IsReport cli output)
          (run_quick f fmt ds fingerprint json files
            (run_engine engine_fmt sizes kernel getenv zydis patience)
            cli
            [])
  unfolding run_quick quick_request
  run_quick-IsReport engine_fmt sizes kernel getenv zydis patience arguments patient places used
        accepted =
      run_decoded-IsReport (run_engine engine_fmt sizes kernel getenv zydis patience) []
        (parse_arguments-IsConsistent f arguments cli used accepted) (decoded_input files cli)
        (decoded_input-IsInput files cli)
        (λ code seed decoded some_code.
          run_engine-IsBelow engine_fmt sizes kernel getenv zydis patience
            (quick_request cli code seed) patient (places code decoded) some_code)
