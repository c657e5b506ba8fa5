-- ===== src/Examples/Options.antt =====
-- The theorems on the command line at concrete inputs.
use bme.Base.{true, false, none, some, [], ◌∷◌, ◌≡◌, refl, replicate, ok, err}
use bme.Text.{codes, text_eq}
use bme.Hex.{from_chars, digits_value, digit_in}
use bme.Seed.{Floats}
use bme.Seed.Cli.{split_commas}
use bme.Seed.Accepted.{no_seeds}
use bme.Trace.{xed, att}
use bme.Clipboard.{encode, encode_bytes}
use bme.Clipboard.RoundTrip.{decode_text, decode_text-encode_bytes}
use native.Mathlib.Omega.{arith}
use bme.CommandLine.{
  Arguments, Cli, unknown_track, json_format, default_track, no_track, backend_from_cli, att_syntax,
  backend_supports, parse_max_steps, parse_track, track_tokens, track_token, check_output,
  complete_cli, parse_seeds, parse_arguments,
}
use bme.CommandLine.Track.{first_unknown, with_classes, track_result, parse_track-classes}
use bme.CommandLine.Accepted.{IsConsistent, parse_arguments-IsConsistent}

abbrev pub no_floats : Floats
no_floats = record {
  parse_float = λ text. none;
  parse_double = λ text. none;
  widen = λ x. x;
  narrow = λ x. x;
  to_st80 = λ x. replicate 10 0;
}

-- `--bytes 90 --quick --format json --pretty --max-steps 2000000 --syntax att --backend xed`
abbrev pub json_arguments : Arguments
json_arguments = record {
  bytes = some (codes "90");
  file = none;
  run = false;
  syntax = codes "att";
  max_steps = some (codes "2000000");
  quick = true;
  format_is_used = true;
  format = codes "json";
  pretty = true;
  track = none;
  seed = none;
  backend = codes "xed";
}

abbrev pub json_cli : Cli
json_cli = record {
  bytes = some (codes "90");
  input_file = none;
  run = false;
  quick = true;
  format = json_format;
  pretty_json = true;
  syntax = att;
  backend = xed;
  max_steps = 1_000_000;
  track = default_track;
  seeds = no_seeds;
}

pub json_accepted : parse_arguments no_floats json_arguments ≡ ok json_cli
unfolding parse_arguments complete_cli check_output parse_max_steps parse_track parse_seeds
    backend_from_cli backend_supports att_syntax text_eq from_chars digits_value digit_in
json_accepted = refl

parse_arguments-IsConsistent_example : IsConsistent no_floats json_cli
parse_arguments-IsConsistent_example =
    parse_arguments-IsConsistent no_floats json_arguments json_cli (λ _. refl) json_accepted

unknown_class : parse_track (some (codes "gpr,avx")) ≡ err (unknown_track (codes "avx"))
unfolding parse_track track_tokens track_token split_commas text_eq
unknown_class = refl

parse_track-classes_example :
    parse_track (some (codes "xmm,none,gpr,xmm"))
    ≡ track_result
        (first_unknown (codes "xmm" ∷ codes "none" ∷ codes "gpr" ∷ codes "xmm" ∷ []))
        (with_classes no_track (codes "xmm" ∷ codes "none" ∷ codes "gpr" ∷ codes "xmm" ∷ []))
unfolding split_commas
parse_track-classes_example = parse_track-classes (codes "xmm,none,gpr,xmm")

decode_text-encode_bytes_example : decode_text (encode_bytes (codes "bme!")) ≡ some (codes "bme!")
decode_text-encode_bytes_example =
    decode_text-encode_bytes (codes "bme!")
      (omega arith, (omega arith, (omega arith, (omega arith, tt))))

encoded : encode_bytes (codes "bme!") ≡ codes "Ym1lIQ=="
unfolding encode_bytes encode
encoded = refl
