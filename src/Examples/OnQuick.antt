-- ===== src/Examples/OnQuick.antt =====
-- The quick output on a short trace, and the theorems on it.
use bme.Base.{
  Result, err, ℕ, List, length, ap, ◌++◌, ◌∷◌, [], true, false, none, some, Option, ◌≡◌, ◌↔◌, refl,
  ok, arith,
}
use bme.Calls.{Returns}
use bme.Text.{Text, codes, text_eq, is_space}
use bme.Hex.{hex_chars, hex_digit, from_chars, digits_value, digit_in}
use bme.Cpu.{query_cpu_fingerprint}
use bme.CommandLine.{
  Arguments, Cli, text_format, all_track, parse_arguments, complete_cli, check_output,
  parse_max_steps, parse_track, parse_seeds, backend_from_cli, backend_supports, att_syntax,
}
use bme.Seed.Compose.{Registers}
use bme.Trace.{zydis, intel}
use bme.Code.{parse_code_text, parse_pairs, parse_byte, skip_whitespace}
use bme.Engine.{run_engine}
use bme.Engine.Below.{IsPlacing}
use bme.Linux.{ChildReady}
use bme.Controls.{
  set_names, decode_flag_bits, decode_x87_control_word, decode_mxcsr, little_endian, x87_tag_name,
}
use bme.Quick.{
  QuickFmt, delta_row, changed_flags, gpr_deltas, rflags_delta, xmm_deltas, st_deltas, sse_deltas,
  x87_deltas, print_deltas,
}
use bme.Engine.Address.{format_hex64_string}
use bme.Quick.Changed.{IsShaped, IsUnchanged, print_deltas-IsUnchanged}
use bme.Quick.Run.{OpenFile, JsonWriter, QuickError, decoded_input, run_quick}
use bme.Quick.Reported.{IsReport, run_quick-IsReport}
use bme.History.Panel.Lines.{LineFmt, HistoryView, rebuild_history}
use bme.History.Panel.Lines.Rebuilt.{Rebuilds, rebuild_history-Rebuilds}
use bme.Examples.{two_bytes, at_base, short_trace}
use bme.Examples.Runs.{
  small_fmt, small_pages, small_kernel, no_environment, no_zydis, small_kernel-IsPatient,
  silent_source,
}
use bme.Examples.Options.{no_floats, json_arguments, json_cli}

abbrev plain_fmt : QuickFmt
plain_fmt = record {
  numbers = small_fmt;
  left = λ width text. text;
  left_hex = λ width value. hex_chars 4 value;
  st_decimal = λ bytes word. codes "0.0";
}

-- The words of a fresh processor, with all exceptions masked.
fresh_words :
    decode_mxcsr 0x1F80 ++ decode_x87_control_word 0x37F
    ≡ codes "Round Near"
      ∷ codes "Masks: IM DM ZM OM UM PM"
      ∷ codes "Flags: none"
      ∷ codes "Modes: none"
      ∷ codes "Real10 Round Near"
      ∷ codes "Masks: IM DM ZM OM UM PM"
      ∷ []
unfolding decode_mxcsr decode_x87_control_word decode_flag_bits set_names
fresh_words = refl

-- 1.0, and the bytes of a zero, in an x87 register.
tag_names :
    x87_tag_name true (0 ∷ 0 ∷ 0 ∷ 0 ∷ 0 ∷ 0 ∷ 0 ∷ 0x80 ∷ 0xFF ∷ 0x3F ∷ []) ≡ codes "Nonzero"
unfolding x87_tag_name little_endian
tag_names = refl

abbrev at_base-IsShaped : IsShaped at_base
at_base-IsShaped = record { gprs = refl; xmms = refl; sts = refl }

abbrev changed_base : Registers
changed_base = record at_base { rip = 0x1003; rflags = 0x8C0 }

changed-IsShaped : IsShaped changed_base
changed-IsShaped = record { gprs = refl; xmms = refl; sts = refl }

print_deltas-IsUnchanged_example :
    (print_deltas plain_fmt all_track at_base changed_base ≡ [])
    ↔ IsUnchanged all_track at_base changed_base
print_deltas-IsUnchanged_example =
    print_deltas-IsUnchanged plain_fmt all_track at_base changed_base at_base-IsShaped
      changed-IsShaped

abbrev quick_arguments : Arguments
quick_arguments = record json_arguments {
  bytes = some (codes "48FFC090");
  format = codes "text";
  pretty = false;
  syntax = codes "intel";
  backend = codes "zydis";
}

abbrev quick_cli : Cli
quick_cli = record json_cli {
  bytes = some (codes "48FFC090");
  format = text_format;
  pretty_json = false;
  syntax = intel;
  backend = zydis;
}

quick_accepted : parse_arguments no_floats quick_arguments ≡ ok quick_cli
unfolding parse_arguments complete_cli check_output parse_max_steps parse_track parse_seeds
    backend_from_cli backend_supports att_syntax text_eq from_chars digits_value digit_in
quick_accepted = refl

abbrev no_files : Text → Option OpenFile
no_files path = none

abbrev no_json : JsonWriter
no_json trace pretty = ([], none)

-- The size of code that was decoded, and where a report says that code starts.
abbrev decoded_size : Result (List ℕ) QuickError → ℕ
decoded_size (ok code) = length code
decoded_size (err e) = 0

abbrev reported_base : Option ChildReady → ℕ
reported_base none = 0
reported_base (some ready) = ready.code_base

-- The four bytes of the input are placed at 0x1000.
quick_places :
    (code : List ℕ)
    → decoded_input no_files quick_cli ≡ ok code
    → IsPlacing small_kernel (length code)
unfolding decoded_input parse_code_text parse_pairs parse_byte skip_whitespace is_space from_chars
    digits_value digit_in
quick_places code decoded log ready reads =
    let size : 4 ≡ length code = ap decoded_size decoded in
    let base : 0x1000 ≡ ready.code_base = ap reported_base reads in omega arith

run_quick-IsReport_example :
    Returns
      (λ output _. IsReport quick_cli output)
      (run_quick no_floats plain_fmt two_bytes
        (query_cpu_fingerprint silent_source)
        no_json
        no_files
        (run_engine small_fmt small_pages small_kernel no_environment no_zydis 2)
        quick_cli
        [])
run_quick-IsReport_example =
    run_quick-IsReport no_floats plain_fmt two_bytes (query_cpu_fingerprint silent_source) no_json
      no_files quick_cli small_fmt small_pages small_kernel no_environment no_zydis 2
      quick_arguments small_kernel-IsPatient quick_places (λ e. refl) quick_accepted

-- What is printed of a change of RIP and the flags.
changes :
    print_deltas plain_fmt all_track at_base changed_base
    ≡ codes "      RIP 0x1000 -> 0x1003" ∷ codes "      RFLAGS 0x0000 -> 0x08C0 [+OF +SF +ZF]" ∷ []
unfolding print_deltas gpr_deltas rflags_delta sse_deltas x87_deltas xmm_deltas st_deltas
    changed_flags delta_row format_hex64_string hex_chars hex_digit text_eq
changes = refl

abbrev line_fmt : LineFmt
line_fmt = record { numbers = small_fmt; right = λ width text. text; left = λ width text. text }

abbrev short_view : HistoryView
short_view = record {
  panel = record {
    trace = short_trace;
    history_rows = [];
    history_backend_rows = [] ∷ [] ∷ [] ∷ [] ∷ [];
    history_tab = 2;
    cursor = 0;
  };
  backend = zydis;
  syntax = intel;
  normalized_addresses = true;
  history = [];
  history_backend = [] ∷ [] ∷ [] ∷ [] ∷ [];
}

rebuild_history-Rebuilds_example :
    Rebuilds two_bytes short_view (rebuild_history line_fmt two_bytes short_view)
rebuild_history-Rebuilds_example =
    rebuild_history-Rebuilds line_fmt two_bytes short_view (omega arith)
