-- ===== src/CommandLine/Accepted.antt =====
-- The command lines that `CLI::parse` of src/bme_core.cpp accepts.
use mathlib.Core.Path.{subst}
use bme.Base.{
  ℕ, ◌≤◌, ◌^◌, Bool, true, false, ◌&&◌, ◌||◌, not, Option, none, some, [], ◌==◌, if◌then◌else◌, min,
  ◌≡◌, refl, Result, ok, err, ◌>>=◌, arith,
}
use bme.Text.{Text, codes, text_eq}
use bme.Hex.{from_chars}
use bme.Seed.{Floats}
use bme.Seed.Compose.{compose_seed}
use bme.Seed.Cli.{Seeds, CliError, parse_cli_seed_argument}
use bme.Seed.Compose.NoErrors.{compose_seed-no_errors}
use bme.Seed.Accepted.{no_seeds, no_seeds-IsReadable, parse_cli_seed_argument-compose_seed}
use bme.Trace.{att, intel}
use bme.Platform.{max_steps_limit}
use bme.Engine.{effective_max_steps}
use bme.CommandLine.{
  Arguments, Cli, OutputFormat, text_format, json_format, default_track, backend_supports,
  parse_max_steps, parse_track, check_output, is_used, parse_seeds, parse_arguments, complete_cli,
  backend_from_cli, as_parse_error, invalid_max_steps, TrackMask, checked_steps,
}

abbrev pub is_json : OutputFormat → Bool
is_json text_format = false
is_json json_format = true

pub record IsConsistent (f : Floats) (cli : Cli) : Type 0 where
  -- The engine runs with the number of steps that is accepted.
  pub some_steps : 1 ≤ cli.max_steps
  pub steps_kept : effective_max_steps cli.max_steps ≡ cli.max_steps
  pub supported : backend_supports cli.backend cli.syntax ≡ true
  pub json_quick : is_json cli.format ≡ true → cli.quick ≡ true
  pub pretty_json_only : cli.pretty_json ≡ true → is_json cli.format ≡ true
  pub json_track : is_json cli.format ≡ true → cli.track ≡ default_track
  pub seeds_compose :
      (compose_seed f cli.seeds.gpr cli.seeds.flags cli.seeds.xmm cli.seeds.st cli.seeds.environment
        []).1
      ≡ []

-- What is true of the value of a result that has one.
IfOk : {A E : Type 0} → (A → Type 0) → Result A E → Type 0
IfOk P (ok a) = P a
IfOk P (err e) = Unit {0}

IfOk-value : {A E : Type 0} (P : A → Type 0) (r : Result A E) (a : A) → r ≡ ok a → IfOk P r → P a
unfolding IfOk
IfOk-value P r a e held = subst (IfOk P) e held

IfOk-then :
    {A B E : Type 0} (P : B → Type 0) (r : Result A E) (next : A → Result B E)
    → ((a : A) → r ≡ ok a → IfOk P (next a))
    → IfOk P (r >>= next)
unfolding IfOk
IfOk-then P (ok a) next step = step a refl
IfOk-then P (err e) next step = tt

IfOk-if :
    {A E : Type 0} (P : A → Type 0) (test : Bool) (x y : Result A E)
    → (test ≡ true → IfOk P x)
    → (test ≡ false → IfOk P y)
    → IfOk P (if test then x else y)
IfOk-if P true x y on_x on_y = on_x refl
IfOk-if P false x y on_x on_y = on_y refl

IsStepCount : ℕ → Type 0
IsStepCount n = (1 ≤ n) × (effective_max_steps n ≡ n)

limited-IsStepCount : (n : ℕ) → (n == 0) ≡ false → IsStepCount (min n max_steps_limit)
unfolding IsStepCount effective_max_steps
limited-IsStepCount n e = (ground arith, ground arith)

read_steps : (text : Text) (read : Option ℕ) → IfOk IsStepCount (checked_steps text read)
unfolding IfOk
read_steps text none = tt
read_steps text (some n) =
    IfOk-if IsStepCount (n == 0) (err (invalid_max_steps text)) (ok (min n max_steps_limit))
      (λ _. tt) (limited-IsStepCount n)

parse_max_steps-IsStepCount : (text : Option Text) → IfOk IsStepCount (parse_max_steps text)
unfolding parse_max_steps IfOk IsStepCount effective_max_steps
parse_max_steps-IsStepCount none = (omega arith, ground arith)
parse_max_steps-IsStepCount (some text) = read_steps text (from_chars 10 (2 ^ 64) text)

-- What the checks of the output options leave.
checked_output :
    (arguments : Arguments) (json : Bool) (u : Unit {0})
    → check_output arguments json ≡ ok u
    → ((arguments.format_is_used && not arguments.quick) ≡ false)
      × ((arguments.pretty && (not arguments.quick || not json)) ≡ false)
      × ((json && is_used arguments.track) ≡ false)
unfolding check_output IfOk
checked_output arguments json u e =
    IfOk-value
      (λ _.
        ((arguments.format_is_used && not arguments.quick) ≡ false)
        × ((arguments.pretty && (not arguments.quick || not json)) ≡ false)
        × ((json && is_used arguments.track) ≡ false))
      (check_output arguments json) u e
      (IfOk-if _ (arguments.format_is_used && not arguments.quick) _ _ (λ _. tt)
        (λ used.
          IfOk-if _ (arguments.pretty && (not arguments.quick || not json)) _ _ (λ _. tt)
            (λ pretty.
              IfOk-if _ (json && is_used arguments.track) _ _ (λ _. tt)
                (λ track. (used, pretty, track)))))

untracked :
    (track : Option Text) (mask : TrackMask)
    → is_used track ≡ false
    → parse_track track ≡ ok mask
    → mask ≡ default_track
unfolding parse_track IfOk
untracked none mask unused e =
    IfOk-value (λ mask. mask ≡ default_track) (parse_track none) mask e refl
untracked (some text) mask unused e = ground arith

Composes : Floats → Seeds → Type 0
Composes f seeds =
    (compose_seed f seeds.gpr seeds.flags seeds.xmm seeds.st seeds.environment []).1 ≡ []

read_seeds :
    (f : Floats) (text : Text) (read : Result Seeds CliError)
    → parse_cli_seed_argument f text no_seeds ≡ read
    → IfOk (Composes f) (as_parse_error read)
unfolding IfOk Composes
read_seeds f text (ok seeds) e = (parse_cli_seed_argument-compose_seed f text seeds e).0
read_seeds f text (err error) e = tt

parse_seeds-Composes : (f : Floats) (text : Option Text) → IfOk (Composes f) (parse_seeds f text)
unfolding parse_seeds IfOk Composes
parse_seeds-Composes f none = compose_seed-no_errors f no_seeds [] (no_seeds-IsReadable f)
parse_seeds-Composes f (some text) =
    read_seeds f text (parse_cli_seed_argument f text no_seeds) refl

-- What the output checks and the readers leave, for a format that is JSON or not.
json-IsConsistent :
    (arguments : Arguments) (json : Bool) (u : Unit {0})
    → (json ≡ true → arguments.format_is_used ≡ true)
    → check_output arguments json ≡ ok u
    → let format = if json then json_format else text_format in
      (is_json format ≡ true → arguments.quick ≡ true)
      × (arguments.pretty ≡ true → is_json format ≡ true)
      × (is_json format ≡ true → is_used arguments.track ≡ false)
json-IsConsistent arguments true u used e =
    let (options, pretty, track) = checked_output arguments true u e in
    (λ _. let is = used refl in ground arith, λ _. refl, λ _. track)
json-IsConsistent arguments false u used e =
    let (options, pretty, track) = checked_output arguments false u e in
    (λ h. ground arith, λ h. ground arith, λ h. ground arith)

module _ (f : Floats) (arguments : Arguments)
    (used : text_eq arguments.format (codes "json") ≡ true → arguments.format_is_used ≡ true) where
  complete_cli-IsConsistent :
      (u : Unit {0}) (max_steps : ℕ) (track : TrackMask) (seeds : Seeds)
      → check_output arguments (text_eq arguments.format (codes "json")) ≡ ok u
      → parse_max_steps arguments.max_steps ≡ ok max_steps
      → parse_track arguments.track ≡ ok track
      → parse_seeds f arguments.seed ≡ ok seeds
      → IfOk
          (IsConsistent f)
          (complete_cli arguments (text_eq arguments.format (codes "json")) max_steps track seeds)
  unfolding complete_cli IfOk IsStepCount Composes
  complete_cli-IsConsistent u max_steps track seeds checked steps_read track_read seeds_read =
      let json = text_eq arguments.format (codes "json") in
      let steps =
        IfOk-value IsStepCount (parse_max_steps arguments.max_steps) max_steps steps_read
          (parse_max_steps-IsStepCount arguments.max_steps) in
      let output = json-IsConsistent arguments json u used checked in
      IfOk-if (IsConsistent f)
        (backend_supports (backend_from_cli arguments.backend)
          (if text_eq arguments.syntax (codes "att") then att else intel))
        _ _
        (λ supports. record {
          some_steps = steps.0;
          steps_kept = steps.1;
          supported = supports;
          json_quick = output.0;
          pretty_json_only = output.1;
          json_track = λ h. untracked arguments.track track (output.2 h) track_read;
          seeds_compose =
              IfOk-value (Composes f) (parse_seeds f arguments.seed) seeds seeds_read
                (parse_seeds-Composes f arguments.seed);
        })
        (λ _. tt)

  arguments-IsConsistent : IfOk (IsConsistent f) (parse_arguments f arguments)
  unfolding parse_arguments
  arguments-IsConsistent =
      let json = text_eq arguments.format (codes "json") in
      IfOk-then (IsConsistent f) (check_output arguments json) _ (λ u checked.
        IfOk-then (IsConsistent f) (parse_max_steps arguments.max_steps) _ (λ max_steps steps_read.
          IfOk-then (IsConsistent f) (parse_track arguments.track) _ (λ track track_read.
            IfOk-then (IsConsistent f) (parse_seeds f arguments.seed) _ (λ seeds seeds_read.
              complete_cli-IsConsistent u max_steps track seeds checked steps_read track_read
                seeds_read))))

-- Where argparse leaves the format `json` only if `--format` is used: a command line that is accepted
-- has at least one step, which the engine's own limit leaves as it is, a backend that emits its syntax,
-- JSON output only with `--quick` and with the default classes, `--pretty` only with JSON output, and
-- seeds from which the registers are composed without an error.
pub parse_arguments-IsConsistent :
    (f : Floats) (arguments : Arguments) (cli : Cli)
    → (text_eq arguments.format (codes "json") ≡ true → arguments.format_is_used ≡ true)
    → parse_arguments f arguments ≡ ok cli
    → IsConsistent f cli
parse_arguments-IsConsistent f arguments cli used accepted =
    IfOk-value (IsConsistent f) (parse_arguments f arguments) cli accepted
      (arguments-IsConsistent f arguments used)
