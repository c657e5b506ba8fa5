-- ===== src/Examples.antt =====
-- Runs of the models on small inputs, and the theorems at concrete inputs.
mod Runs
mod OnWindows
mod OnCpu
mod OnQuick
mod Options
use bme.Base.{
  length, ◌^◌, ℕ, ◌≡◌, ◌≢◌, refl, ◌++◌, ltb, arith, true, false, none, some, List, [], ◌∷◌,
  if◌then◌else◌, replicate, take, get_or, All, All-replicate, Any, ok, err,
}
use bme.Base.Words.{IsByte}
use bme.Text.{Text, codes, is_space, is_xdigit, lowercase, ascii_case_insensitive_equal}
use bme.Hex.{digit_in, digits_value, from_chars, format_hex, format_xmm, format_st}
use bme.Code.{
  exceeds_byte, skip_whitespace, parse_byte, digit_run, braced_byte, close_array, after_byte,
  braced_round, parse_braced, escaped_byte, escaped_round, parse_escaped, parse_pairs,
  parse_code_text, format_code_text,
}
use bme.Code.RoundTrip.{
  parse_code_text-format_code_text, escaped_notation, parse_code_text-escaped_notation,
}
use bme.Code.Arrays.{array_items, parse_code_text-array_items}
use bme.Seed.{
  invalid_mxcsr, strip_prefix, parse_seed, parse_mxcsr_seed, Floats, compose_xmm_seed,
  compose_st_seed,
}
use bme.Seed.RoundTrip.{
  parse_seed-format_hex, parse_mxcsr_seed-format_hex, compose_xmm_seed-format_xmm,
  compose_st_seed-format_st,
}
use bme.Seed.Gpr.{GprSeed, empty_gpr_seed, compose_gpr_seed}
use bme.Seed.Gpr.Slices.{ValueOfSlices, seed_errors, compose_gpr_seed_lem}
use bme.Seed.Names.{rsp, slice_at, find_slice, parse_xmm_seed_index, parse_st_seed_index}
use bme.Seed.Compose.{Registers, compose_seed}
use bme.Seed.Cli.{
  Seeds, parse_cli_seed_value, write_slice, split_commas, split_equals, write_flag,
  write_gpr_or_flag, write_indexed, write_named, parse_cli_seed_entry, parse_cli_seed_entries,
  parse_cli_seed_argument,
}
use bme.Seed.Compose.Tags.{seeded_bits, compose_seed-seeded_bits}
use bme.Seed.Accepted.{no_seeds, parse_cli_seed_argument-compose_seed}
use bme.Trace.{Trace, unknown, intel, zydis, bddisasm, completed, event_faulted}
use bme.Disasm.{Decoders, valid, decoded_as, backend_decode, disasm_one}
use bme.History.{
  HistoryRow, reached, faulted, data_bytes, event_row_kind, mark_events, event_at, disasm_at,
  first_event, gap_row, fill_gap, event_row, fill_before, add_events, build_history,
}
use bme.History.Panel.{
  HistoryPanel, history_rows_at, row_at_cursor, history_selection, history_state_at,
  restore_history_selection,
}
use bme.History.Panel.State.{run_rows, history_state_at-run_rows}
use bme.History.Panel.Selection.{IsOnEvent, restore_history_selection-IsOnEvent}
use bme.Text.{ltrim, rtrim, trim}
use bme.History.Gaps.{Covers, IsInside}
use bme.History.Events.{row_indices}
use bme.History.Coverage.{ShowsEvents, build_history-Covers, build_history-ShowsEvents}
use bme.Platform.{no_registers}
use bme.Json.{DecoderDocument, make_request_document, make_decoder_document}
use bme.Json.RoundTrip.{IsSized, IsReplay, make_request_document-IsReplay}
use bme.Json.Rows.{IsShown, make_decoder_document-IsShown}
use bme.Cpu.{CpuQuerySource, query_cpu_fingerprint}
use bme.Cpu.Sorted.{IsSorted, IsAnswer, query_cpu_fingerprint-IsSorted}
use Prim.Native.Nat.{◌<◌, ◌≤◌, ◌/◌, ◌%◌}

-- The code of `inc rax`.
abbrev inc_rax : List ℕ
inc_rax = 0x48 ∷ 0xFF ∷ 0xC0 ∷ []

inc_rax-IsByte : All IsByte inc_rax
inc_rax-IsByte = (omega arith, (omega arith, (omega arith, tt)))

inc_rax_nonempty : inc_rax ≢ []
inc_rax_nonempty e = cc

plain_pairs : parse_code_text (codes "48FF C0") ≡ ok inc_rax
unfolding parse_code_text parse_pairs parse_byte skip_whitespace is_space from_chars digits_value
    digit_in
plain_pairs = refl

escaped_bytes : parse_code_text (codes " \\x48\\xFF \\xC0") ≡ ok inc_rax
unfolding parse_code_text parse_escaped escaped_round escaped_byte parse_byte skip_whitespace
    is_space from_chars digits_value digit_in
escaped_bytes = refl

byte_array : parse_code_text (codes "{ 0x48, 0xFF ,0xC0, } ") ≡ ok inc_rax
unfolding parse_code_text parse_braced braced_round braced_byte digit_run after_byte close_array
    is_xdigit skip_whitespace is_space from_chars digits_value digit_in
byte_array = refl

too_wide : parse_code_text (codes "{ 0x123 }") ≡ err (exceeds_byte 2)
unfolding parse_code_text parse_braced braced_round braced_byte digit_run after_byte close_array
    is_xdigit skip_whitespace is_space from_chars digits_value digit_in
too_wide = refl

parse_code_text-format_code_text_example : parse_code_text (format_code_text inc_rax) ≡ ok inc_rax
parse_code_text-format_code_text_example =
    parse_code_text-format_code_text inc_rax inc_rax_nonempty inc_rax-IsByte

parse_code_text-escaped_notation_example : parse_code_text (escaped_notation inc_rax) ≡ ok inc_rax
parse_code_text-escaped_notation_example =
    parse_code_text-escaped_notation inc_rax inc_rax_nonempty inc_rax-IsByte

parse_code_text-array_items_example : parse_code_text (b'{' ∷ array_items inc_rax) ≡ ok inc_rax
parse_code_text-array_items_example =
    parse_code_text-array_items inc_rax inc_rax_nonempty inc_rax-IsByte

parse_seed-format_hex_example : parse_seed (format_hex 4 0xBEEF) ≡ ok 0xBEEF
parse_seed-format_hex_example =
    parse_seed-format_hex 4 0xBEEF (omega arith) (omega arith) (omega arith)

parse_mxcsr_seed-format_hex_example :
    parse_mxcsr_seed (format_hex 8 0x1F80)
    ≡ (if ltb 0xFFFF 0x1F80 then err (invalid_mxcsr (format_hex 8 0x1F80)) else ok 0x1F80)
parse_mxcsr_seed-format_hex_example = parse_mxcsr_seed-format_hex 0x1F80 (omega arith)

-- Floating-point operations that refuse every text.
abbrev no_floats : Floats
no_floats = record {
  parse_float = λ text. none;
  parse_double = λ text. none;
  widen = λ v. v;
  narrow = λ v. v;
  to_st80 = λ v. replicate 10 0;
}

compose_xmm_seed-format_xmm_example :
    compose_xmm_seed no_floats (format_xmm (7, 0xF0)) ≡ ok (7, 0xF0)
compose_xmm_seed-format_xmm_example =
    compose_xmm_seed-format_xmm no_floats 7 0xF0 (omega arith) (omega arith)

abbrev ten_bytes : List ℕ
ten_bytes = replicate 10 0x3F

compose_st_seed-format_st_example : compose_st_seed no_floats (format_st ten_bytes) ≡ ok ten_bytes
compose_st_seed-format_st_example =
    compose_st_seed-format_st no_floats ten_bytes refl (All-replicate IsByte 10 0x3F (omega arith))

-- `RAX=1122334455667788,EAX=zz,AH=7`.
abbrev sliced : GprSeed
sliced = record {
  full = codes "1122334455667788";
  dword = codes "zz";
  word = [];
  byte_high = codes "7";
  byte_low = [];
}

compose_gpr_seed_lem_example :
    ValueOfSlices sliced (compose_gpr_seed sliced (codes "RAX") []).0
    × ((compose_gpr_seed sliced (codes "RAX") []).1 ≡ [] ++ seed_errors (codes "RAX") sliced)
compose_gpr_seed_lem_example = compose_gpr_seed_lem sliced (codes "RAX") []

abbrev accepted_text : Text
accepted_text = codes "eax=5,,CF=1"

abbrev accepted_seeds : Seeds
accepted_seeds = record no_seeds {
  gpr = record empty_gpr_seed { dword = codes "5" } ∷ replicate 15 empty_gpr_seed;
  flags = 1;
}

accepted : parse_cli_seed_argument no_floats accepted_text no_seeds ≡ ok accepted_seeds
unfolding parse_cli_seed_argument parse_cli_seed_entries parse_cli_seed_entry write_named
    write_indexed write_gpr_or_flag write_flag write_slice parse_cli_seed_value split_commas
    split_equals find_slice slice_at parse_xmm_seed_index parse_st_seed_index
    ascii_case_insensitive_equal lowercase parse_seed strip_prefix from_chars digits_value digit_in
accepted = refl

parse_cli_seed_argument-compose_seed_example :
    ((compose_seed no_floats accepted_seeds.gpr accepted_seeds.flags accepted_seeds.xmm
        accepted_seeds.st accepted_seeds.environment []).1
      ≡ [])
    × (get_or accepted_seeds.gpr rsp empty_gpr_seed ≡ empty_gpr_seed)
parse_cli_seed_argument-compose_seed_example =
    parse_cli_seed_argument-compose_seed no_floats accepted_text accepted_seeds accepted

-- ST0 is `1`, and ST2 is malformed.
abbrev two_texts : List Text
two_texts = codes "1" ∷ [] ∷ codes "zz" ∷ replicate 5 []

compose_seed-seeded_bits_example :
    (compose_seed no_floats [] 0 [] two_texts no_seeds.environment []).0.fpu_tag_word_abridged
    ≡ seeded_bits no_floats 0 two_texts
compose_seed-seeded_bits_example =
    compose_seed-seeded_bits no_floats [] 0 [] two_texts no_seeds.environment [] (omega arith)

-- Each decoder finds a two-byte instruction everywhere.
abbrev pub two_bytes : Decoders
two_bytes = record {
  zydis_disassemble = λ syntax address code. some (codes "op", 2);
  bddisasm_decode = λ code. some 2;
  bddisasm_to_text = λ address code. some (codes "op");
  capstone_opens = true;
  capstone_disasm = λ syntax address code. some (codes "op", [], 2);
  xed_decode = λ code. some 2;
  xed_format = λ syntax address code. some (codes "op");
}

abbrev pub at_base : Registers
at_base = record {
  gpr = replicate 16 0;
  rip = 0x1000;
  rflags = 0;
  xmm = replicate 16 (0, 0);
  mxcsr = 0x1F80;
  st = replicate 8 (replicate 10 0);
  fpu_control_word = 0x037F;
  fpu_status_word = 0;
  fpu_tag_word_abridged = 0;
}

-- Five bytes of code; the first instruction ends inside the second one that the events reach.
abbrev pub short_trace : Trace
short_trace = record {
  code = 0x48 ∷ 0xFF ∷ 0xC0 ∷ 0x90 ∷ 0xC3 ∷ [];
  requested_seed = at_base;
  requested_backend = zydis;
  requested_syntax = intel;
  effective_max_steps = 10;
  seed_data_pointers = false;
  seed = at_base;
  execution_events =
      record { rip = 0x1003; registers = at_base; kind = completed }
      ∷ record { rip = 0x1000; registers = at_base; kind = event_faulted }
      ∷ [];
  outcome = bme.Trace.faulted;
  message = [];
  instrumentation_detected = false;
  stop_reason = [];
  stop_address = 0x1000;
  fault_memory_address = none;
  fault_access = unknown;
}

build_history-Covers_example :
    (rows : List HistoryRow) × (build_history two_bytes short_trace zydis intel ≡ some rows)
    × All (IsInside two_bytes short_trace zydis intel) rows
    × Any (Covers 0x1002) rows
build_history-Covers_example =
    build_history-Covers two_bytes short_trace zydis intel (omega arith) refl 0x1002 (omega arith)
      (omega arith)

build_history-ShowsEvents_example :
    (rows : List HistoryRow) × (build_history two_bytes short_trace zydis intel ≡ some rows)
    × (row_indices rows ≡ 0 ∷ 1 ∷ [])
    × All (ShowsEvents two_bytes short_trace zydis intel) rows
build_history-ShowsEvents_example =
    build_history-ShowsEvents two_bytes short_trace zydis intel (omega arith) refl

-- The rows of the short trace: the byte between the two instructions that the events reach, and
-- the events' rows.
abbrev short_rows : List HistoryRow
short_rows =
    record {
      rip = 0x1002;
      text = codes "(data)";
      offset = 2;
      length = 1;
      kind = data_bytes;
      execution_event_index = none;
    }
    ∷ record {
      rip = 0x1003;
      text = codes "op";
      offset = 3;
      length = 2;
      kind = reached;
      execution_event_index = some 0;
    }
    ∷ record {
      rip = 0x1000;
      text = codes "op";
      offset = 0;
      length = 2;
      kind = faulted;
      execution_event_index = some 1;
    }
    ∷ []

zydis_rows : build_history two_bytes short_trace zydis intel ≡ some short_rows
unfolding build_history add_events fill_before fill_gap gap_row first_event event_at mark_events
    disasm_at event_row event_row_kind disasm_one backend_decode decoded_as valid trim ltrim rtrim
    is_space
zydis_rows = refl

bddisasm_rows : build_history two_bytes short_trace bddisasm intel ≡ some short_rows
unfolding build_history add_events fill_before fill_gap gap_row first_event event_at mark_events
    disasm_at event_row event_row_kind disasm_one backend_decode decoded_as valid trim ltrim rtrim
    is_space
bddisasm_rows = refl

abbrev last_row : HistoryRow
last_row = record {
  rip = 0x1000;
  text = codes "op";
  offset = 0;
  length = 2;
  kind = faulted;
  execution_event_index = some 1;
}

abbrev short_panel : HistoryPanel
short_panel = record {
  trace = short_trace;
  history_rows = short_rows;
  history_backend_rows = [];
  history_tab = 0;
  cursor = 3;
}

restore_history_selection-IsOnEvent_example :
    IsOnEvent 1
      (restore_history_selection short_panel (history_selection short_panel 0)).cursor
      (history_rows_at short_panel 0)
unfolding history_rows_at row_at_cursor
restore_history_selection-IsOnEvent_example =
    restore_history_selection-IsOnEvent two_bytes short_trace zydis bddisasm intel intel short_panel
      short_panel 1 (omega arith) refl zydis_rows bddisasm_rows (last_row, refl, refl)

history_state_at-run_rows_example :
    history_state_at short_panel 2
    ≡ run_rows short_trace short_trace.seed (take 2 (history_rows_at short_panel 0))
history_state_at-run_rows_example = history_state_at-run_rows short_panel 2

-- A processor whose every register reads the same.
abbrev constant_source : CpuQuerySource
constant_source = record {
  cpuid = λ leaf subleaf. record {
    eax = 0x8000_0008;
    ebx = 0x2020_2020;
    ecx = 0xFFFF_FFFF;
    edx = 0x2020_2020;
  };
  xgetbv = λ index. 7;
}

query_cpu_fingerprint-IsSorted_example :
    IsSorted (query_cpu_fingerprint constant_source).raw_cpuid
    × All (IsAnswer constant_source) (query_cpu_fingerprint constant_source).raw_cpuid
query_cpu_fingerprint-IsSorted_example = query_cpu_fingerprint-IsSorted constant_source

-- A trace of two bytes whose requested seed is that of a new run.
abbrev asked_trace : Trace
asked_trace = record short_trace { requested_seed = no_registers }

no_registers-IsSized : IsSized no_registers
no_registers-IsSized = record {
  gprs = All-replicate (λ value. value < 2 ^ 64) 16 0 (omega arith);
  xmms =
      All-replicate (λ (value : ℕ × ℕ). (value.0 < 2 ^ 64) × (value.1 < 2 ^ 64)) 16 (0, 0)
        (omega arith, omega arith);
  sts =
      All-replicate (λ bytes. (length {A = ℕ} bytes ≡ 10) × All IsByte bytes) 8 (replicate 10 0)
        (refl, All-replicate IsByte 10 0 (omega arith));
  mxcsr = omega arith;
  control_word = omega arith;
}

make_request_document-IsReplay_example :
    (parse_code_text (make_request_document asked_trace).input_bytes ≡ ok asked_trace.code)
    × IsReplay no_floats no_registers (make_request_document asked_trace).seed
make_request_document-IsReplay_example =
    make_request_document-IsReplay no_floats asked_trace (λ e. cc)
      (omega arith, (omega arith, (omega arith, (omega arith, (omega arith, tt)))))
      no_registers-IsSized

make_decoder_document-IsShown_example :
    (document : DecoderDocument) × (make_decoder_document two_bytes short_trace zydis
      ≡ some document)
    × All (IsShown short_trace) document.rows
make_decoder_document-IsShown_example =
    make_decoder_document-IsShown two_bytes short_trace zydis (omega arith) refl
