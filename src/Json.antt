-- ===== src/Json.antt =====
-- The documents of src/trace_json.cpp: what a JSON trace holds, before glaze writes it.
pub mod RoundTrip
pub mod Rows
use bme.Base.{
  ℕ, suc, ◌+◌, ◌-◌, Bool, true, false, Option, none, some, List, [], ◌∷◌, ltb, leb, ◌==◌,
  if◌then◌else◌, map, length, take, drop, get_or,
}
use bme.Base.Words.{u64}
use bme.Text.{Text, codes}
use bme.Hex.{format_hex, format_bytes, format_xmm, format_st}
use bme.Seed.Compose.{Registers}
use bme.Trace.{
  Outcome, idle, error, finished, faulted, aborted_cap, stopped, FaultAccess, no_access, read,
  write, execute, unknown, DisasmSyntax, intel, att, DisasmBackend, zydis, bddisasm, capstone, xed,
  ExecutionEventKind, completed, event_faulted, ExecutionEvent, Trace,
}
use bme.Disasm.{Decoders}
use bme.History.{HistoryRowKind, reached, not_reached, data_bytes, HistoryRow, build_history}
use bme.Cpu.{CpuidRecord}
use bme.CommandLine.{backend_supports}

unfoldable pub backend_name : DisasmBackend → Text
backend_name zydis = codes "zydis"
backend_name bddisasm = codes "bddisasm"
backend_name capstone = codes "capstone"
backend_name xed = codes "xed"

unfoldable pub syntax_name : DisasmSyntax → Text
syntax_name att = codes "att"
syntax_name intel = codes "intel"

unfoldable pub effective_syntax : DisasmBackend → DisasmSyntax → DisasmSyntax
effective_syntax backend requested = if backend_supports backend requested then requested else intel

unfoldable pub outcome_name : Outcome → Text
outcome_name idle = codes "idle"
outcome_name error = codes "error"
outcome_name finished = codes "finished"
outcome_name faulted = codes "faulted"
outcome_name aborted_cap = codes "aborted_cap"
outcome_name stopped = codes "stopped"

unfoldable pub event_kind_name : ExecutionEventKind → Text
event_kind_name event_faulted = codes "faulted"
event_kind_name completed = codes "completed"

unfoldable pub fault_access_name : FaultAccess → Option Text
fault_access_name read = some (codes "read")
fault_access_name write = some (codes "write")
fault_access_name execute = some (codes "execute")
fault_access_name unknown = some (codes "unknown")
fault_access_name no_access = none

unfoldable pub history_kind_name : HistoryRowKind → Text
history_kind_name reached = codes "reached"
history_kind_name bme.History.faulted = codes "faulted"
history_kind_name not_reached = codes "not_reached"
history_kind_name data_bytes = codes "data"

unfoldable pub relative_offset : Trace → ℕ → Option ℕ
relative_offset trace rip =
    if ltb rip trace.seed.rip
    then none
    else (let offset = rip - trace.seed.rip in
        if leb (length trace.code) offset then none else some offset)

-- The general-purpose registers in the order of `Reg`.
pub record RegistersDocument : Type 0 where
  pub gpr : List Text
  pub rip : Text
  pub rflags : Text
  pub xmm : List Text
  pub mxcsr : Text
  pub st : List Text
  pub control_word : Text
  pub status_word : Text
  pub tag_word_abridged : Text

unfoldable pub make_registers_document : Registers → RegistersDocument
make_registers_document registers = record {
  gpr = map (format_hex 16) registers.gpr;
  rip = format_hex 16 registers.rip;
  rflags = format_hex 16 registers.rflags;
  xmm = map format_xmm registers.xmm;
  mxcsr = format_hex 8 registers.mxcsr;
  st = map format_st registers.st;
  control_word = format_hex 4 registers.fpu_control_word;
  status_word = format_hex 4 registers.fpu_status_word;
  tag_word_abridged = format_hex 2 registers.fpu_tag_word_abridged;
}

pub record RequestDocument : Type 0 where
  pub input_bytes : Text
  pub backend : Text
  pub syntax : Text
  pub effective_max_steps : ℕ
  pub seed_data_pointers : Bool
  pub seed : RegistersDocument

unfoldable pub make_request_document : Trace → RequestDocument
make_request_document trace = record {
  input_bytes = format_bytes trace.code;
  backend = backend_name trace.requested_backend;
  syntax = syntax_name trace.requested_syntax;
  effective_max_steps = trace.effective_max_steps;
  seed_data_pointers = trace.seed_data_pointers;
  seed = make_registers_document trace.requested_seed;
}

pub record ExecutionEventDocument : Type 0 where
  pub index : ℕ
  pub classification : Text
  pub rip : Text
  pub offset : Option ℕ
  pub registers : RegistersDocument

unfoldable pub make_execution_event_document : Trace → ℕ → ExecutionEvent → ExecutionEventDocument
make_execution_event_document trace index event = record {
  index = index;
  classification = event_kind_name event.kind;
  rip = format_hex 16 event.rip;
  offset = relative_offset trace event.rip;
  registers = make_registers_document event.registers;
}

-- The documents of the events, from an index on.
unfoldable pub event_documents : Trace → ℕ → List ExecutionEvent → List ExecutionEventDocument
event_documents trace index [] = []
event_documents trace index (event ∷ events) =
    make_execution_event_document trace index event ∷ event_documents trace (suc index) events

pub record ExecutionDocument : Type 0 where
  pub seed : RegistersDocument
  pub events : List ExecutionEventDocument
  pub outcome : Text
  pub message : Text
  pub instrumentation_detected : Bool
  pub stop_reason : Text
  pub stop_address : Option Text
  pub fault_memory_address : Option Text
  pub fault_access : Option Text

abbrev hex_or_null : Option ℕ → Option Text
hex_or_null none = none
hex_or_null (some address) = some (format_hex 16 address)

unfoldable pub execution_document : Trace → ExecutionDocument
execution_document trace = record {
  seed = make_registers_document trace.seed;
  events = event_documents trace 0 trace.execution_events;
  outcome = outcome_name trace.outcome;
  message = trace.message;
  instrumentation_detected = trace.instrumentation_detected;
  stop_reason = trace.stop_reason;
  stop_address = if trace.stop_address == 0 then none else some (format_hex 16 trace.stop_address);
  fault_memory_address = hex_or_null trace.fault_memory_address;
  fault_access = fault_access_name trace.fault_access;
}

-- `subspan`, which is undefined where it does not end in the span.
unfoldable pub subspan : List ℕ → (offset count : ℕ) → Option (List ℕ)
subspan bytes offset count =
    if leb (offset + count) (length bytes) then some (take count (drop offset bytes)) else none

-- `bytes` is `none` where the code's `subspan` is undefined.
pub record HistoryRowDocument : Type 0 where
  pub address : Text
  pub offset : ℕ
  pub length : ℕ
  pub bytes : Option Text
  pub text : Text
  pub classification : Text
  pub execution_event : Option ℕ

abbrev bytes_text : Option (List ℕ) → Option Text
bytes_text none = none
bytes_text (some bytes) = some (format_bytes bytes)

unfoldable pub make_history_row_document : Trace → HistoryRow → HistoryRowDocument
make_history_row_document trace row = record {
  address = format_hex 16 row.rip;
  offset = row.offset;
  length = row.length;
  bytes = bytes_text (subspan trace.code row.offset row.length);
  text = row.text;
  classification = history_kind_name row.kind;
  execution_event = row.execution_event_index;
}

pub record DecoderDocument : Type 0 where
  pub backend : Text
  pub requested_syntax : Text
  pub effective_syntax : Text
  pub rows : List HistoryRowDocument

abbrev row_documents : Trace → Option (List HistoryRow) → Option (List HistoryRowDocument)
row_documents trace none = none
row_documents trace (some rows) = some (map (make_history_row_document trace) rows)

abbrev decoder_document :
    DisasmBackend
    → DisasmSyntax
    → DisasmSyntax
    → Option (List HistoryRowDocument)
    → Option DecoderDocument
decoder_document backend requested rendered none = none
decoder_document backend requested rendered (some rows) = some (record {
  backend = backend_name backend;
  requested_syntax = syntax_name requested;
  effective_syntax = syntax_name rendered;
  rows = rows;
})

-- One decoder's part, without its version; `none` only where `build_history` is out of fuel.
unfoldable pub make_decoder_document : Decoders → Trace → DisasmBackend → Option DecoderDocument
make_decoder_document ds trace backend =
    let rendered = effective_syntax backend trace.requested_syntax in
    decoder_document backend trace.requested_syntax rendered
      (row_documents trace (build_history ds trace backend rendered))
