-- ===== src/CommandLine/Track.antt =====
-- `--track` of src/bme_core.cpp: the mask by the classes that the argument names.
use mathlib.Core.Path.{subst}
use bme.Base.{
  Bool, true, false, ◌||◌, Option, none, some, List, [], ◌∷◌, ◌==◌, if◌then◌else◌, All, ◌≡◌, refl,
  sym, ap, ◌∙◌, inl, inr, Bool-cases, Result, ok, err, arith,
}
use bme.Text.{Text, codes, is_empty, text_eq}
use bme.Seed.Cli.{split_commas}
use bme.CommandLine.{
  TrackMask, ParseError, unknown_track, no_track, track_token, track_tokens, parse_track,
}

pub text_eq_sound : (x y : Text) → text_eq x y ≡ true → y ≡ x
unfolding text_eq
text_eq_sound [] [] h = refl
text_eq_sound [] (d ∷ ys) h = ground arith
text_eq_sound (c ∷ xs) [] h = ground arith
text_eq_sound (c ∷ xs) (d ∷ ys) h = elim (Bool-cases (c == d)) [
  | inl e ↦
      let rest : text_eq xs ys ≡ true = rw e at h in
      let same : d ≡ c = ground (arith, e) in λ i. same i ∷ text_eq_sound xs ys rest i
  | inr e ↦ ground (arith, e, h)
]

-- The names that `--track` knows, beside the empty one.
abbrev track_names : List Text
track_names =
    codes "gpr"
    ∷ codes "rip"
    ∷ codes "rflags"
    ∷ codes "flags"
    ∷ codes "xmm"
    ∷ codes "sse"
    ∷ codes "x87"
    ∷ codes "fpu"
    ∷ codes "all"
    ∷ codes "none"
    ∷ []

-- A text is one of the names, or it equals none of them.
by_name :
    (P : Text → Type 0) (token : Text) (names : List Text)
    → All P names
    → (All (λ name. text_eq token name ≡ false) names → P token)
    → P token
by_name P token [] all other = other tt
by_name P token (name ∷ names) all other = elim (Bool-cases (text_eq token name)) [
  | inl e ↦ subst P (text_eq_sound token name e) all.0
  | inr e ↦ by_name P token names all.1 (λ apart. other (e, apart))
]

unfoldable pub is_among : List Text → Text → Bool
is_among [] token = false
is_among (name ∷ names) token = text_eq token name || is_among names token

unfoldable pub is_track_name : Text → Bool
is_track_name token = is_empty token || is_among track_names token

-- Some token is among the names.
unfoldable pub mentions : List Text → List Text → Bool
mentions names [] = false
mentions names (token ∷ tokens) = is_among names token || mentions names tokens

unfoldable pub first_unknown : List Text → Option Text
first_unknown [] = none
first_unknown (token ∷ tokens) = if is_track_name token then first_unknown tokens else some token

-- A mask with the classes that the tokens name.
unfoldable pub with_classes : TrackMask → List Text → TrackMask
with_classes track tokens = record {
  gpr = track.gpr || mentions (codes "gpr" ∷ codes "all" ∷ []) tokens;
  rip = track.rip || mentions (codes "rip" ∷ codes "all" ∷ []) tokens;
  rflags = track.rflags || mentions (codes "rflags" ∷ codes "flags" ∷ codes "all" ∷ []) tokens;
  xmm = track.xmm || mentions (codes "xmm" ∷ codes "sse" ∷ codes "all" ∷ []) tokens;
  x87 = track.x87 || mentions (codes "x87" ∷ codes "fpu" ∷ codes "all" ∷ []) tokens;
}

unfoldable pub track_result : Option Text → TrackMask → Result TrackMask ParseError
track_result none track = ok track
track_result (some token) track = err (unknown_track token)

or_true : (b : Bool) → (b || true) ≡ true
or_true true = refl
or_true false = refl

or_false : (b : Bool) → (b || false) ≡ b
or_false true = refl
or_false false = refl

TokenClasses : TrackMask → Text → Type 0
TokenClasses track token =
    track_token token track
    ≡ track_result (first_unknown (token ∷ [])) (with_classes track (token ∷ []))

abbrev mask : (g r f x s : Bool) → TrackMask
mask g r f x s = record { gpr = g; rip = r; rflags = f; xmm = x; x87 = s }

mask_eq :
    {g g' r r' f f' x x' s s' : Bool}
    → g ≡ g'
    → r ≡ r'
    → f ≡ f'
    → x ≡ x'
    → s ≡ s'
    → mask g r f x s ≡ mask g' r' f' x' s'
mask_eq eg er ef ex es = λ i. mask (eg i) (er i) (ef i) (ex i) (es i)

now : (b : Bool) → true ≡ (b || true)
now b = sym (or_true b)

still : (b : Bool) → b ≡ (b || false)
still b = sym (or_false b)

other-TokenClasses :
    (track : TrackMask) (token : Text)
    → All (λ name. text_eq token name ≡ false) track_names
    → TokenClasses track token
unfolding TokenClasses track_token first_unknown with_classes track_result mentions is_among
    is_track_name
other-TokenClasses track token apart = elim (Bool-cases (is_empty token)) [
  | inl e ↦
      rw
        (
          apart.0, apart.1.0, apart.1.1.0, apart.1.1.1.0, apart.1.1.1.1.0, apart.1.1.1.1.1.0,
          apart.1.1.1.1.1.1.0, apart.1.1.1.1.1.1.1.0, apart.1.1.1.1.1.1.1.1.0,
          apart.1.1.1.1.1.1.1.1.1.0, e,
        )
        (ap ok (
          mask_eq (still track.gpr) (still track.rip) (still track.rflags) (still track.xmm)
            (still track.x87)))
  | inr e ↦
      rw
        (
          apart.0, apart.1.0, apart.1.1.0, apart.1.1.1.0, apart.1.1.1.1.0, apart.1.1.1.1.1.0,
          apart.1.1.1.1.1.1.0, apart.1.1.1.1.1.1.1.0, apart.1.1.1.1.1.1.1.1.0,
          apart.1.1.1.1.1.1.1.1.1.0, e,
        )
        refl
]

token-TokenClasses : (track : TrackMask) (token : Text) → TokenClasses track token
unfolding TokenClasses track_token first_unknown with_classes track_result mentions is_among
    is_track_name text_eq
token-TokenClasses track token =
    by_name (TokenClasses track) token track_names
      (
        (ap ok (
            mask_eq (now track.gpr) (still track.rip) (still track.rflags) (still track.xmm)
              (still track.x87))),
        (
          (ap ok (
              mask_eq (still track.gpr) (now track.rip) (still track.rflags) (still track.xmm)
                (still track.x87))),
          (
            (ap ok (
                mask_eq (still track.gpr) (still track.rip) (now track.rflags) (still track.xmm)
                  (still track.x87))),
            (
              (ap ok (
                  mask_eq (still track.gpr) (still track.rip) (now track.rflags) (still track.xmm)
                    (still track.x87))),
              (
                (ap ok (
                    mask_eq (still track.gpr) (still track.rip) (still track.rflags) (now track.xmm)
                      (still track.x87))),
                (
                  (ap ok (
                      mask_eq (still track.gpr) (still track.rip) (still track.rflags)
                        (now track.xmm) (still track.x87))),
                  (
                    (ap ok (
                        mask_eq (still track.gpr) (still track.rip) (still track.rflags)
                          (still track.xmm) (now track.x87))),
                    (
                      (ap ok (
                          mask_eq (still track.gpr) (still track.rip) (still track.rflags)
                            (still track.xmm) (now track.x87))),
                      (
                        (ap ok (
                            mask_eq (now track.gpr) (now track.rip) (now track.rflags)
                              (now track.xmm) (now track.x87))),
                        (
                          (ap ok (
                              mask_eq (still track.gpr) (still track.rip) (still track.rflags)
                                (still track.xmm) (still track.x87))),
                          tt,
                        ),
                      ),
                    ),
                  ),
                ),
              ),
            ),
          ),
        ),
      )
      (other-TokenClasses track token)

regroup : (b m n : Bool) → ((b || (m || false)) || n) ≡ (b || (m || n))
regroup true m n = refl
regroup false true n = refl
regroup false false n = refl

with_classes-twice :
    (track : TrackMask) (token : Text) (tokens : List Text)
    → with_classes (with_classes track (token ∷ [])) tokens ≡ with_classes track (token ∷ tokens)
unfolding with_classes mentions
with_classes-twice track token tokens =
    mask_eq (regroup track.gpr _ _) (regroup track.rip _ _) (regroup track.rflags _ _)
      (regroup track.xmm _ _) (regroup track.x87 _ _)

no_tokens : (track : TrackMask) → ok track ≡ track_result none (with_classes track [])
unfolding with_classes mentions track_result
no_tokens track = ap ok (
    mask_eq (still track.gpr) (still track.rip) (still track.rflags) (still track.xmm)
      (still track.x87))

-- One token that is known, and one that is not.
known_token :
    (track : TrackMask) (token : Text)
    → is_track_name token ≡ true
    → track_token token track ≡ ok (with_classes track (token ∷ []))
unfolding TokenClasses first_unknown track_result
known_token track token e = rw e at (token-TokenClasses track token)

unknown_token :
    (track : TrackMask) (token : Text)
    → is_track_name token ≡ false
    → track_token token track ≡ err (unknown_track token)
unfolding TokenClasses first_unknown track_result
unknown_token track token e = rw e at (token-TokenClasses track token)

tokens_lem :
    (tokens : List Text) (track : TrackMask)
    → track_tokens tokens track ≡ track_result (first_unknown tokens) (with_classes track tokens)
unfolding track_tokens first_unknown track_result
tokens_lem [] track = no_tokens track
tokens_lem (token ∷ tokens) track = elim (Bool-cases (is_track_name token)) [
  | inl e ↦
      rw (known_token track token e, e)
        (tokens_lem tokens (with_classes track (token ∷ []))
          ∙ ap (track_result (first_unknown tokens)) (with_classes-twice track token tokens))
  | inr e ↦ rw (unknown_token track token e, e) refl
]

-- `--track` with any text: it is refused for the first token that is no class, and otherwise shows
-- exactly the classes that some token names, by either name or by `all`, in any order and number.
pub parse_track-classes :
    (text : Text)
    → let (first, others) = split_commas text in
      parse_track (some text)
      ≡ track_result (first_unknown (first ∷ others)) (with_classes no_track (first ∷ others))
unfolding parse_track
parse_track-classes text =
    let (first, others) = split_commas text in tokens_lem (first ∷ others) no_track
