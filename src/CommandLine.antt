-- ===== src/CommandLine.antt =====
-- `CLI::parse` of src/bme_core.cpp over the values that argparse leaves.
pub mod Track
pub mod Accepted
use bme.Base.{
  ℕ, zero, suc, ◌+◌, Bool, true, false, ◌&&◌, ◌||◌, ◌^◌, not, Option, none, some, List, [], ◌∷◌,
  ◌==◌, if◌then◌else◌, get_or, min, replicate, Result, ok, err, ◌>>=◌,
}
use bme.Text.{Text, codes, is_empty, text_eq}
use bme.Hex.{from_chars}
use bme.Seed.{Floats}
use bme.Seed.Cli.{Seeds, CliError, split_commas, parse_cli_seed_argument}
use bme.Seed.Accepted.{no_seeds}
use bme.Trace.{DisasmSyntax, intel, att, DisasmBackend, zydis, bddisasm, capstone, xed}
use bme.Platform.{max_steps_limit}

abbrev pub default_max_steps : ℕ
default_max_steps = 50_000

pub data OutputFormat : Type 0 where
  text_format : OutputFormat
  json_format : OutputFormat

pub record TrackMask : Type 0 where
  pub gpr : Bool
  pub rip : Bool
  pub rflags : Bool
  pub xmm : Bool
  pub x87 : Bool

abbrev pub no_track : TrackMask
no_track = record { gpr = false; rip = false; rflags = false; xmm = false; x87 = false }

abbrev pub default_track : TrackMask
default_track = record no_track { gpr = true; rip = true; rflags = true }

abbrev pub all_track : TrackMask
all_track = record { gpr = true; rip = true; rflags = true; xmm = true; x87 = true }

-- What argparse leaves: flags, texts with their defaults, and optional texts. An optional text
-- is there if and only if its option is used.
pub record Arguments : Type 0 where
  pub bytes : Option Text
  pub file : Option Text
  pub run : Bool
  pub syntax : Text
  pub max_steps : Option Text
  pub quick : Bool
  pub format_is_used : Bool
  pub format : Text
  pub pretty : Bool
  pub track : Option Text
  pub seed : Option Text
  pub backend : Text

-- The `CLI` of an accepted command line; `seeds` has its last five fields.
pub record Cli : Type 0 where
  pub bytes : Option Text
  pub input_file : Option Text
  pub run : Bool
  pub quick : Bool
  pub format : OutputFormat
  pub pretty_json : Bool
  pub syntax : DisasmSyntax
  pub backend : DisasmBackend
  pub max_steps : ℕ
  pub track : TrackMask
  pub seeds : Seeds

pub data ParseError : Type 0 where
  usage : ParseError
  format_needs_quick : ParseError
  pretty_needs_json : ParseError
  track_with_json : ParseError
  invalid_max_steps : Text → ParseError
  unknown_track : Text → ParseError
  seed_error : CliError → ParseError
  intel_only : DisasmBackend → ParseError

-- The rows of `BACKENDS`: their tokens, and whether they emit each syntax.
abbrev backends : List (Text × DisasmBackend)
backends =
    (codes "zydis", zydis)
    ∷ (codes "bddisasm", bddisasm)
    ∷ (codes "capstone", capstone)
    ∷ (codes "xed", xed)
    ∷ []

abbrev find_backend : List (Text × DisasmBackend) → Text → DisasmBackend
find_backend [] name = zydis
find_backend ((cli, backend) ∷ others) name =
    if text_eq cli name then backend else find_backend others name

unfoldable pub backend_from_cli : Text → DisasmBackend
backend_from_cli name = find_backend backends name

unfoldable pub att_syntax : DisasmBackend → Bool
att_syntax bddisasm = false
att_syntax _ = true

unfoldable pub backend_supports : DisasmBackend → DisasmSyntax → Bool
backend_supports backend att = att_syntax backend
backend_supports backend intel = true

-- The number that was read is positive, and is held to the limit.
abbrev pub checked_steps : Text → Option ℕ → Result ℕ ParseError
checked_steps text none = err (invalid_max_steps text)
checked_steps text (some max_steps) =
    if max_steps == 0 then err (invalid_max_steps text) else ok (min max_steps max_steps_limit)

unfoldable pub parse_max_steps : Option Text → Result ℕ ParseError
parse_max_steps none = ok default_max_steps
parse_max_steps (some text) = checked_steps text (from_chars 10 (2 ^ 64) text)

-- One class of `--track`.
unfoldable pub track_token : Text → TrackMask → Result TrackMask ParseError
track_token token track =
    if text_eq token (codes "gpr")
    then ok (record track { gpr = true })
    else if text_eq token (codes "rip")
    then ok (record track { rip = true })
    else if text_eq token (codes "rflags") || text_eq token (codes "flags")
    then ok (record track { rflags = true })
    else if text_eq token (codes "xmm") || text_eq token (codes "sse")
    then ok (record track { xmm = true })
    else if text_eq token (codes "x87") || text_eq token (codes "fpu")
    then ok (record track { x87 = true })
    else if text_eq token (codes "all")
    then ok all_track
    else if not (is_empty token) && not (text_eq token (codes "none"))
    then err (unknown_track token)
    else ok track

unfoldable pub track_tokens : List Text → TrackMask → Result TrackMask ParseError
track_tokens [] track = ok track
track_tokens (token ∷ tokens) track = track_token token track >>= track_tokens tokens

unfoldable pub parse_track : Option Text → Result TrackMask ParseError
parse_track none = ok default_track
parse_track (some text) =
    let (first, others) = split_commas text in track_tokens (first ∷ others) no_track

abbrev pub is_used : Option Text → Bool
is_used none = false
is_used (some text) = true

-- The checks of the output options, before any value is read.
unfoldable pub check_output : Arguments → (format_is_json : Bool) → Result (Unit {0}) ParseError
check_output arguments format_is_json =
    if arguments.format_is_used && not arguments.quick
    then err format_needs_quick
    else if arguments.pretty && (not arguments.quick || not format_is_json)
    then err pretty_needs_json
    else if format_is_json && is_used arguments.track
    then err track_with_json
    else ok tt

-- The last check, of the backend and the syntax, and the result.
unfoldable pub complete_cli :
    Arguments → (format_is_json : Bool) → ℕ → TrackMask → Seeds → Result Cli ParseError
complete_cli arguments format_is_json max_steps track seeds =
    let syntax = if text_eq arguments.syntax (codes "att") then att else intel in
    let backend = backend_from_cli arguments.backend in
    if backend_supports backend syntax
    then ok (record {
      bytes = arguments.bytes;
      input_file = arguments.file;
      run = arguments.run;
      quick = arguments.quick;
      format = if format_is_json then json_format else text_format;
      pretty_json = arguments.pretty;
      syntax = syntax;
      backend = backend;
      max_steps = max_steps;
      track = track;
      seeds = seeds;
    })
    else err (intel_only backend)

abbrev pub as_parse_error : Result Seeds CliError → Result Seeds ParseError
as_parse_error (ok seeds) = ok seeds
as_parse_error (err e) = err (seed_error e)

module _ (f : Floats) where
  unfoldable pub parse_seeds : Option Text → Result Seeds ParseError
  parse_seeds none = ok no_seeds
  parse_seeds (some text) = as_parse_error (parse_cli_seed_argument f text no_seeds)

  unfoldable pub parse_arguments : Arguments → Result Cli ParseError
  parse_arguments arguments =
      let format_is_json = text_eq arguments.format (codes "json") in
      check_output arguments format_is_json >>= λ _.
      parse_max_steps arguments.max_steps >>= λ max_steps. parse_track arguments.track >>= λ track.
      parse_seeds arguments.seed >>= λ seeds.
      complete_cli arguments format_is_json max_steps track seeds

  -- `CLI::parse`, where argparse throws or leaves its values.
  unfoldable pub parse : Option Arguments → Result Cli ParseError
  parse none = err usage
  parse (some arguments) = parse_arguments arguments
