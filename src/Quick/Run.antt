-- ===== src/Quick/Run.antt =====
-- `run_quick` and `read_binary_input` of src/bme_core.cpp: what is printed, and the exit code.
use bme.Base.{
  ◌^◌, ◌-◌, ◌*◌, ◌||◌, ℕ, Bool, true, false, Option, none, some, List, [], ◌∷◌, map, ltb,
  if◌then◌else◌, Result, ok, err,
}
use bme.Calls.{Calling, pure, ◌>>=◌}
use bme.Text.{Text, is_empty}
use bme.Code.{CodeError, parse_code_text}
use bme.Seed.{Floats}
use bme.Seed.Gpr.{ErrorLine, Errors}
use bme.Seed.Compose.{Registers, compose_seed}
use bme.Trace.{Outcome, error, Trace}
use bme.CommandLine.{json_format, text_format, Cli}
use bme.Cpu.{CpuFingerprint}
use bme.Disasm.{Decoders}
use bme.Platform.{max_steps_limit}
use bme.Engine.{EngineRequest}
use bme.Quick.{QuickFmt}
use bme.Quick.Report.{quick_text}

abbrev pub max_raw_file_bytes : ℕ
max_raw_file_bytes = max_steps_limit * 15

-- The messages that go to the standard error output, with what they show.
pub data QuickError : Type 0 where
  needs_input : QuickError
  not_opened : Text → QuickError
  no_usable_size : Text → QuickError
  too_large : Text → QuickError
  not_read : Text → QuickError
  empty_file : QuickError
  invalid_code : CodeError → QuickError
  invalid_seed : ErrorLine → QuickError
  failed_run : Text → QuickError
  failed_json : Text → QuickError

-- A file that was opened at its end: its size, where it can be told, and the bytes that reading as
-- many from the start gives, where that succeeds.
pub record OpenFile : Type 0 where
  pub end_position : Option ℕ
  pub read_bytes : ℕ → Option (List ℕ)

abbrev pub read_contents : Text → Option (List ℕ) → Result (List ℕ) QuickError
read_contents path none = err (not_read path)
read_contents path (some bytes) = if is_empty bytes then err empty_file else ok bytes

abbrev pub read_sized : Text → OpenFile → Option ℕ → Result (List ℕ) QuickError
read_sized path file none = err (no_usable_size path)
read_sized path file (some size) =
    if ltb (2 ^ 64 - 1) size || ltb (2 ^ 63 - 1) size
    then err (no_usable_size path)
    else if ltb max_raw_file_bytes size
    then err (too_large path)
    else read_contents path (file.read_bytes size)

abbrev pub read_file : Text → Option OpenFile → Result (List ℕ) QuickError
read_file path none = err (not_opened path)
read_file path (some file) = read_sized path file file.end_position

-- `files`: the file that opens at a path.
unfoldable pub read_binary_input : (Text → Option OpenFile) → Text → Result (List ℕ) QuickError
read_binary_input files path = read_file path (files path)

abbrev pub as_quick_error : Result (List ℕ) CodeError → Result (List ℕ) QuickError
as_quick_error (ok code) = ok code
as_quick_error (err e) = err (invalid_code e)

abbrev pub code_of :
    (Text → Option OpenFile) → (bytes file : Option Text) → Result (List ℕ) QuickError
code_of files (some bytes) file = as_quick_error (parse_code_text bytes)
code_of files none (some path) = read_binary_input files path
code_of files none none = err needs_input

-- The code to run, from the bytes or from the file.
unfoldable pub decoded_input : (Text → Option OpenFile) → Cli → Result (List ℕ) QuickError
decoded_input files cli = code_of files cli.bytes cli.input_file

-- What is written to the two outputs, and the exit code.
pub record Output : Type 0 where
  pub lines : List Text
  pub errors : List QuickError
  pub exit_code : ℕ

abbrev pub failed_output : List QuickError → Output
failed_output errors = record { lines = []; errors = errors; exit_code = 1 }

abbrev is_error : Outcome → Bool
is_error error = true
is_error _ = false

-- `write_trace_json`: what it writes, and its error.
abbrev pub JsonWriter : Type 0
JsonWriter = Trace → (pretty : Bool) → Text × Option Text

abbrev pub written_json : Outcome → Text × Option Text → Output
written_json outcome (json, none) = record {
  lines = json ∷ [];
  errors = [];
  exit_code = if is_error outcome then 1 else 0;
}
written_json outcome (json, some text) = record {
  lines = json ∷ [];
  errors = failed_json text ∷ [];
  exit_code = 1;
}

abbrev pub printed : Option (List Text) → Option Output
printed none = none
printed (some lines) = some (record { lines = lines; errors = []; exit_code = 0 })

abbrev pub defined : {S A : Type 0} → Option A → Calling S A
defined none world = none
defined (some a) world = some (a, world)

unfoldable pub quick_request : Cli → (code : List ℕ) → Registers → EngineRequest
quick_request cli code seed = record {
  code = code;
  seed = seed;
  max_steps = cli.max_steps;
  backend = cli.backend;
  syntax = cli.syntax;
  seed_data_pointers = true;
  stop_offset = none;
}

module _ (fmt : QuickFmt) (ds : Decoders) (fingerprint : CpuFingerprint) (json : JsonWriter) where
  abbrev pub text_output : Cli → Trace → Outcome → Option Output
  text_output cli trace error = some (failed_output (failed_run trace.message ∷ []))
  text_output cli trace _ = printed (quick_text fmt cli.track trace ds fingerprint cli)

  -- The output of a trace; `none` where it is undefined.
  unfoldable pub trace_output : Cli → Trace → Option Output
  trace_output cli trace = elim cli.format [
    | json_format ↦ some (written_json trace.outcome (json trace cli.pretty_json))
    | text_format ↦ text_output cli trace trace.outcome
  ]

module _ (f : Floats) (fmt : QuickFmt) (ds : Decoders) (fingerprint : CpuFingerprint)
    (json : JsonWriter) (files : Text → Option OpenFile) {S : Type 0}
    (engine : EngineRequest → Calling S Trace) where
  abbrev pub run_seeded : Cli → (code : List ℕ) → Registers × Errors → Calling S Output
  run_seeded cli code (seed, errors) =
      if is_empty errors
      then (engine (quick_request cli code seed) >>= λ trace.
          defined (trace_output fmt ds fingerprint json cli trace))
      else pure (failed_output (map invalid_seed errors))

  abbrev pub run_decoded : Cli → Result (List ℕ) QuickError → Calling S Output
  run_decoded cli (err e) = pure (failed_output (e ∷ []))
  run_decoded cli (ok code) = run_seeded cli code (
      compose_seed f cli.seeds.gpr cli.seeds.flags cli.seeds.xmm cli.seeds.st cli.seeds.environment
        [])

  unfoldable pub run_quick : Cli → Calling S Output
  run_quick cli = run_decoded cli (decoded_input files cli)
