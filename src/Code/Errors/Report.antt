-- ===== src/Code/Errors/Report.antt =====
-- `parse_code_text` on any text, well formed or not.
use bme.Base.{ℕ, suc, ◌+◌, ◌≡◌, refl, false, inl, inr, [], ◌∷◌, arith, length, Bool-cases, ◌==◌}
use bme.Text.{Text, is_space}
use bme.Code.{skip_whitespace, parse_escaped, parse_notation, parse_code_text}
use bme.Code.Errors.{IsReport, Sofar, parse_pairs_first}
use bme.Code.Errors.Loops.{
  Sofar-skip_whitespace, escaped_round-IsReport, parse_escaped-IsLoop, parse_braced-IsLoop,
}

-- What stands first behind the blanks is no blank.
skip_whitespace-head :
    (position : ℕ) (text : Text) (at c : ℕ) (cs : Text)
    → skip_whitespace position text ≡ (at, c ∷ cs)
    → is_space c ≡ false
unfolding skip_whitespace
skip_whitespace-head position [] at c cs e = ground arith
skip_whitespace-head position (d ∷ ds) at c cs e =
    ground (arith, skip_whitespace-head (position + 1) ds at c cs)

module _ (size : ℕ) where
  first_escaped :
      (position c : ℕ) (cs : Text)
      → is_space c ≡ false
      → Sofar size [] position (c ∷ cs)
      → IsReport 1 size (parse_escaped (suc (length (c ∷ cs))) [] (position, c ∷ cs))
  unfolding parse_escaped skip_whitespace
  first_escaped position c cs plain s = rw plain (
      escaped_round-IsReport size (length (c ∷ cs)) (parse_escaped (length (c ∷ cs))) [] position c
        cs (parse_escaped-IsLoop size (length (c ∷ cs))) (omega arith) s)

  parse_notation-IsReport :
      (position : ℕ) (text : Text)
      → ((c : ℕ) (cs : Text) → text ≡ c ∷ cs → is_space c ≡ false)
      → Sofar size [] position text
      → IsReport 1 size (parse_notation (position, text))
  unfolding parse_notation
  parse_notation-IsReport position [] plain s = tt
  parse_notation-IsReport position (c ∷ cs) plain s = elim (Bool-cases (c == b'{')) [
    | inl array ↦ rw array (
        parse_braced-IsLoop size (suc (length cs)) [] (position + 1) cs (omega arith)
          (record { bytes = tt; spent = omega arith; fits = omega (arith, s.fits) }))
    | inr other ↦ elim (Bool-cases (c == b'\\')) [
      | inl escape ↦ rw (other, escape) (first_escaped position c cs (plain c cs refl) s)
      | inr pairs ↦ rw (other, pairs) (parse_pairs_first position c cs (plain c cs refl) s)
    ]
  ]

pub parse_code_text-IsReport : (text : Text) → IsReport 1 (length text) (parse_code_text text)
unfolding parse_code_text
parse_code_text-IsReport text =
    parse_notation-IsReport (length text) _ _
      (λ c cs e. skip_whitespace-head 0 text _ c cs (λ i. ((skip_whitespace 0 text).0, e i)))
      (Sofar-skip_whitespace [] 0 text
        (record { bytes = tt; spent = omega arith; fits = omega arith }))
