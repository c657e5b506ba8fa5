-- ===== src/Quick/Changed.antt =====
-- The deltas of src/bme_core.cpp against the registers that they compare.
use bme.Base.{
  ℕ, suc, Bool, true, false, List, [], ◌∷◌, ◌++◌, ◌==◌, if◌then◌else◌, take, length, ◌≡◌, ◌↔◌, refl,
  sym, ap, ◌∙◌, arith,
}
use mathlib.Core.Path.{subst}
use bme.Text.{Text, text_eq}
use bme.Seed.Compose.{Registers}
use bme.Seed.Names.{reg_names}
use bme.CommandLine.{TrackMask}
use bme.CommandLine.Track.{text_eq_sound}
use bme.Quick.{
  QuickFmt, pair_eq, word_row, gpr_deltas, rflags_delta, xmm_deltas, st_deltas, sse_deltas,
  x87_deltas, print_deltas,
}

append-nothing : (xs ys : List Text) → xs ++ ys ≡ [] → (xs ≡ []) × (ys ≡ [])
append-nothing [] ys e = (refl, e)
append-nothing (x ∷ xs) ys e = cc

both-nothing : (xs ys : List Text) → xs ≡ [] → ys ≡ [] → xs ++ ys ≡ []
both-nothing xs ys e e' = ap (λ zs. zs ++ ys) e ∙ e'

-- What is printed unless a test holds is nothing exactly if it holds.
no_row : (same : Bool) (row : Text) → (if same then [] else row ∷ []) ≡ [] → same ≡ true
no_row true row e = refl
no_row false row e = cc

word_same : (b a : ℕ) (row : Text) → word_row b a row ≡ [] → b ≡ a
word_same b a row e = let same = no_row (b == a) row e in ground (arith, same)

word_nothing : (b a : ℕ) (row : Text) → b ≡ a → word_row b a row ≡ []
word_nothing b a row e = ground (arith, e)

text_eq_refl : (a : Text) → text_eq a a ≡ true
unfolding text_eq
text_eq_refl [] = refl
text_eq_refl (x ∷ a) = ground (arith, text_eq_refl a)

pair_eq-same : (a b : ℕ × ℕ) → pair_eq a b ≡ true → a ≡ b
pair_eq-same (a, b) (c, d) e =
    let low : a ≡ c = ground (arith, e) in
    let high : b ≡ d = ground (arith, e) in λ i. (low i, high i)

pair_eq_refl : (a : ℕ × ℕ) → pair_eq a a ≡ true
pair_eq_refl (a, b) = ground arith

module _ (fmt : QuickFmt) where
  gpr_deltas-same :
      (names : List Text) (before after : List ℕ)
      → length before ≡ length names
      → length after ≡ length names
      → gpr_deltas fmt names before after ≡ []
      → before ≡ after
  unfolding gpr_deltas
  gpr_deltas-same [] [] [] h h' e = refl
  gpr_deltas-same [] [] (a ∷ after) h h' e = absurd (omega arith)
  gpr_deltas-same [] (b ∷ before) after h h' e = absurd (omega arith)
  gpr_deltas-same (name ∷ names) [] after h h' e = absurd (omega arith)
  gpr_deltas-same (name ∷ names) (b ∷ before) [] h h' e = absurd (omega arith)
  gpr_deltas-same (name ∷ names) (b ∷ before) (a ∷ after) h h' e =
      let (first, rest) = append-nothing _ _ e in
      let head = word_same b a _ first in
      let tail = gpr_deltas-same names before after (omega arith) (omega arith) rest in
      λ i. head i ∷ tail i

  gpr_deltas-nothing :
      (names : List Text) (before : List ℕ) → gpr_deltas fmt names before before ≡ []
  unfolding gpr_deltas
  gpr_deltas-nothing [] before = refl
  gpr_deltas-nothing (name ∷ names) [] = refl
  gpr_deltas-nothing (name ∷ names) (b ∷ before) =
      both-nothing _ _ (word_nothing b b _ refl) (gpr_deltas-nothing names before)

  xmm_deltas-same :
      (i : ℕ) (before after : List (ℕ × ℕ))
      → length before ≡ length after
      → xmm_deltas fmt i before after ≡ []
      → before ≡ after
  unfolding xmm_deltas
  xmm_deltas-same i [] [] h e = refl
  xmm_deltas-same i [] (a ∷ after) h e = absurd (omega arith)
  xmm_deltas-same i (b ∷ before) [] h e = absurd (omega arith)
  xmm_deltas-same i (b ∷ before) (a ∷ after) h e =
      let (first, rest) = append-nothing _ _ e in
      let head = pair_eq-same b a (no_row (pair_eq b a) _ first) in
      let tail = xmm_deltas-same (suc i) before after (omega arith) rest in λ d. head d ∷ tail d

  xmm_deltas-nothing : (i : ℕ) (before : List (ℕ × ℕ)) → xmm_deltas fmt i before before ≡ []
  unfolding xmm_deltas
  xmm_deltas-nothing i [] = refl
  xmm_deltas-nothing i (b ∷ before) =
      both-nothing _ _ (rw (pair_eq_refl b) refl) (xmm_deltas-nothing (suc i) before)

  st_deltas-same :
      (i w w' : ℕ) (before after : List (List ℕ))
      → length before ≡ length after
      → st_deltas fmt i w w' before after ≡ []
      → before ≡ after
  unfolding st_deltas
  st_deltas-same i w w' [] [] h e = refl
  st_deltas-same i w w' [] (a ∷ after) h e = absurd (omega arith)
  st_deltas-same i w w' (b ∷ before) [] h e = absurd (omega arith)
  st_deltas-same i w w' (b ∷ before) (a ∷ after) h e =
      let (first, rest) = append-nothing _ _ e in
      let head = sym (text_eq_sound b a (no_row (text_eq b a) _ first)) in
      let tail = st_deltas-same (suc i) w w' before after (omega arith) rest in λ d. head d ∷ tail d

  st_deltas-nothing :
      (i w w' : ℕ) (before : List (List ℕ)) → st_deltas fmt i w w' before before ≡ []
  unfolding st_deltas
  st_deltas-nothing i w w' [] = refl
  st_deltas-nothing i w w' (b ∷ before) =
      both-nothing _ _ (rw (text_eq_refl b) refl) (st_deltas-nothing (suc i) w w' before)

-- Registers of the shape that the source's arrays have.
pub record IsShaped (registers : Registers) : Type 0 where
  pub gprs : length registers.gpr ≡ 16
  pub xmms : length registers.xmm ≡ 16
  pub sts : length registers.st ≡ 8

-- What each tracked class has kept.
pub record IsUnchanged (track : TrackMask) (before after : Registers) : Type 0 where
  pub gpr_kept : track.gpr ≡ true → before.gpr ≡ after.gpr
  pub rip_kept : track.rip ≡ true → before.rip ≡ after.rip
  pub rflags_kept : track.rflags ≡ true → before.rflags ≡ after.rflags
  pub xmm_kept : track.xmm ≡ true → (before.xmm ≡ after.xmm) × (before.mxcsr ≡ after.mxcsr)
  pub x87_kept :
      track.x87 ≡ true
      → (before.st ≡ after.st)
        × (before.fpu_control_word ≡ after.fpu_control_word)
        × (before.fpu_status_word ≡ after.fpu_status_word)
        × (before.fpu_tag_word_abridged ≡ after.fpu_tag_word_abridged)

tracked :
    (test : Bool) (rows : List Text) → (if test then rows else []) ≡ [] → test ≡ true → rows ≡ []
tracked true rows e on = e
tracked false rows e on = ground arith

untracked_or :
    (test : Bool) (rows : List Text) → (test ≡ true → rows ≡ []) → (if test then rows else []) ≡ []
untracked_or true rows e = e refl
untracked_or false rows e = refl

module _ (fmt : QuickFmt) (track : TrackMask) (before after : Registers) (shaped : IsShaped before)
    (shaped' : IsShaped after) where
  IsUnchanged-silent : print_deltas fmt track before after ≡ [] → IsUnchanged track before after
  unfolding print_deltas rflags_delta sse_deltas x87_deltas
  IsUnchanged-silent silent =
      let (to_sse, x87) = append-nothing _ _ silent in
      let (to_flags, sse) = append-nothing _ _ to_sse in
      let (to_rip, flags) = append-nothing _ _ to_flags in
      let (gprs, rips) = append-nothing _ _ to_rip in
      record {
        gpr_kept = λ on.
            gpr_deltas-same fmt (take 16 reg_names) before.gpr after.gpr shaped.gprs shaped'.gprs
              (tracked track.gpr _ gprs on);
        rip_kept = λ on. word_same before.rip after.rip _ (tracked track.rip _ rips on);
        rflags_kept =
            λ on. word_same before.rflags after.rflags _ (tracked track.rflags _ flags on);
        xmm_kept = λ on.
            let (xmm, mxcsr) = append-nothing _ _ (tracked track.xmm _ sse on) in
            (
              xmm_deltas-same fmt 0 before.xmm after.xmm (omega (arith, shaped.xmms, shaped'.xmms))
                  xmm,
              word_same before.mxcsr after.mxcsr _ mxcsr,
            );
        x87_kept = λ on.
            let (to_status, tags) = append-nothing _ _ (tracked track.x87 _ x87 on) in
            let (to_control, status) = append-nothing _ _ to_status in
            let (st, control) = append-nothing _ _ to_control in
            (
              st_deltas-same fmt 0 _ _ before.st after.st (omega (arith, shaped.sts, shaped'.sts))
                  st,
              word_same before.fpu_control_word after.fpu_control_word _ control,
              word_same before.fpu_status_word after.fpu_status_word _ status,
              word_same before.fpu_tag_word_abridged after.fpu_tag_word_abridged _ tags,
            );
      }

  silent-IsUnchanged : IsUnchanged track before after → print_deltas fmt track before after ≡ []
  unfolding print_deltas rflags_delta sse_deltas x87_deltas
  silent-IsUnchanged kept =
      let gprs =
        untracked_or track.gpr (gpr_deltas fmt (take 16 reg_names) before.gpr after.gpr) (λ on.
          subst (λ gpr. gpr_deltas fmt (take 16 reg_names) before.gpr gpr ≡ []) (kept.gpr_kept on)
            (gpr_deltas-nothing fmt (take 16 reg_names) before.gpr)) in
      let sse = untracked_or track.xmm (sse_deltas fmt before after) (λ on.
        both-nothing _ _
          (subst (λ xmm. xmm_deltas fmt 0 before.xmm xmm ≡ []) (kept.xmm_kept on).0
            (xmm_deltas-nothing fmt 0 before.xmm))
          (word_nothing before.mxcsr after.mxcsr _ (kept.xmm_kept on).1)) in
      let x87 = untracked_or track.x87 (x87_deltas fmt before after) (λ on.
        let kept = kept.x87_kept on in
        both-nothing _ _
          (both-nothing _ _
            (both-nothing _ _
              (subst
                (λ st.
                  st_deltas fmt 0 before.fpu_control_word after.fpu_control_word before.st st ≡ [])
                kept.0
                (st_deltas-nothing fmt 0 before.fpu_control_word after.fpu_control_word before.st))
              (word_nothing before.fpu_control_word after.fpu_control_word _ kept.1))
            (word_nothing before.fpu_status_word after.fpu_status_word _ kept.2))
          (word_nothing before.fpu_tag_word_abridged after.fpu_tag_word_abridged _ kept.3)) in
      both-nothing _ _
        (both-nothing _ _
          (both-nothing _ _
            (both-nothing _ _ gprs (
              untracked_or track.rip _
                (λ on. word_nothing before.rip after.rip _ (kept.rip_kept on))))
            (untracked_or track.rflags _
              (λ on. word_nothing before.rflags after.rflags _ (kept.rflags_kept on))))
          sse)
        x87

  -- Between registers of 16 general-purpose, 16 XMM and 8 x87 registers, nothing is printed exactly
  -- if every tracked class is unchanged: no change in a tracked class is left out, and none is made up.
  pub print_deltas-IsUnchanged :
      (print_deltas fmt track before after ≡ []) ↔ IsUnchanged track before after
  print_deltas-IsUnchanged = (IsUnchanged-silent, silent-IsUnchanged)
