-- ===== src/Code/Errors/Loops.antt =====
-- The two loops on fuel: from any place in the text their rounds report well.
use bme.Base.{
  ℕ, zero, suc, ◌+◌, ◌≤◌, ◌<◌, ◌≡◌, inl, inr, List, [], ◌∷◌, ◌++◌, arith, length, ◌>>=◌, Bool-cases,
  Option-cases, ◌==◌,
}
use bme.Base.Words.{IsByte}
use bme.Text.{Text}
use bme.Hex.{from_chars}
use bme.Code.{
  Loop, skip_whitespace, parse_escaped, escaped_round, escaped_byte, parse_braced, braced_round,
  braced_byte, braced_digits, after_byte, close_array, digit_run,
}
use bme.Code.Errors.{
  IsReport, IsReport-mono, Yields, bind-IsReport, Sofar, Sofar-concat, length-concat,
  parse_byte-Yields, from_chars-lt,
}

-- Skipping blanks moves forward over the same text.
pub skip_whitespace_lem :
    (position : ℕ) (text : Text)
    → let (at, found) = skip_whitespace position text in
      (position ≤ at) × (at + length found ≡ position + length text)
unfolding skip_whitespace
skip_whitespace_lem position [] = omega arith
skip_whitespace_lem position (c ∷ cs) = ground (arith, skip_whitespace_lem (position + 1) cs)

pub Sofar-skip_whitespace :
    {size : ℕ} (result : List ℕ) (position : ℕ) (text : Text)
    → Sofar size result position text
    → let (at, found) = skip_whitespace position text in Sofar size result at found
Sofar-skip_whitespace result position text s =
    let h = skip_whitespace_lem position text in
    record { bytes = s.bytes; spent = omega (arith, h, s.spent); fits = omega (arith, h, s.fits) }

-- What a reader of one byte hands on: the byte, and a later place in the same text.
abbrev Item : ℕ → ℕ → ℕ × ℕ × Text → Type 0
Item size position (byte, behind, rest) =
    IsByte byte × (position + 3 ≤ behind) × (behind + length rest ≡ size)

-- The rounds that follow report well from every later place in the text.
abbrev pub IsLoop : (List ℕ → ℕ) → ℕ → ℕ → Loop → Type 0
IsLoop low size fuel next =
    (result : List ℕ) (position : ℕ) (text : Text)
    → length text < fuel
    → Sofar size result position text
    → IsReport (low result) size (next result (position, text))

module _ (size : ℕ) where
  escaped_byte-Yields :
      (position c : ℕ) (text : Text)
      → position + length (c ∷ text) ≡ size
      → Yields (Item size position) size (escaped_byte position (c ∷ text))
  unfolding escaped_byte
  escaped_byte-Yields position c [] h = omega arith
  escaped_byte-Yields position c (x ∷ []) h = omega arith
  escaped_byte-Yields position c (x ∷ a ∷ []) h = omega arith
  escaped_byte-Yields position c (x ∷ a ∷ b ∷ rest) h =
      ground (arith, parse_byte-Yields (position + 2) size (a ∷ b ∷ rest))

  -- A round that finds a character adds a byte, or fails.
  pub escaped_round-IsReport :
      (fuel : ℕ) (next : Loop) (result : List ℕ) (position c : ℕ) (cs : Text)
      → IsLoop length size fuel next
      → length cs < fuel
      → Sofar size result position (c ∷ cs)
      → IsReport (length result + 1) size (escaped_round next result (position, c ∷ cs))
  unfolding escaped_round
  escaped_round-IsReport fuel next result position c cs loop f s =
      bind-IsReport (Item size position) (length result + 1) size (escaped_byte position (c ∷ cs)) _
        (escaped_byte-Yields position c cs s.fits)
        (λ (byte, behind, rest) (hb, later, fits).
          IsReport-mono _ _ size _ (omega (arith, length-concat result byte)) (
            loop (result ++ byte ∷ []) behind rest (omega (arith, s.fits))
              (Sofar-concat byte behind rest s hb (omega arith) fits)))

  escaped_round_any :
      (fuel : ℕ) (next : Loop) (result : List ℕ) (position : ℕ) (text : Text)
      → IsLoop length size fuel next
      → length text < suc fuel
      → Sofar size result position text
      → IsReport (length result) size (escaped_round next result (position, text))
  escaped_round_any fuel next result position [] loop f s =
      unfold escaped_round in (s.bytes, omega arith, omega (arith, s.spent, s.fits))
  escaped_round_any fuel next result position (c ∷ cs) loop f s =
      IsReport-mono _ _ size _ (omega arith)
        (escaped_round-IsReport fuel next result position c cs loop (omega arith) s)

  pub parse_escaped-IsLoop : (fuel : ℕ) → IsLoop length size fuel (parse_escaped fuel)
  unfolding parse_escaped
  parse_escaped-IsLoop zero result position text f s = absurd (omega arith)
  parse_escaped-IsLoop (suc fuel) result position text f s =
      escaped_round_any fuel (parse_escaped fuel) result _ _ (parse_escaped-IsLoop fuel)
        (omega (arith, skip_whitespace_lem position text))
        (Sofar-skip_whitespace result position text s)

  digit_run_lem :
      (text : Text) → length (digit_run text).0 + length (digit_run text).1 ≡ length text
  unfolding digit_run
  digit_run_lem [] = omega arith
  digit_run_lem (c ∷ cs) = ground (arith, digit_run_lem cs)

  braced_digits-Yields :
      (position : ℕ) (run rest : Text)
      → position + 2 + length run + length rest ≡ size
      → position + 2 < size
      → Yields (Item size position) size (braced_digits (position + 2) (run, rest))
  unfolding braced_digits
  braced_digits-Yields position run rest h lt = elim (Option-cases (from_chars 16 256 run)) [
    | inl e ↦ rw (e, braced_digits) (ground arith)
    | inr (v, e) ↦ rw (e, braced_digits) (ground (arith, from_chars-lt 16 256 run v e))
  ]

  braced_byte-Yields :
      (position c : ℕ) (text : Text)
      → position + length (c ∷ text) ≡ size
      → Yields (Item size position) size (braced_byte position (c ∷ text))
  unfolding braced_byte
  braced_byte-Yields position c [] h = omega arith
  braced_byte-Yields position c (x ∷ []) h = omega arith
  braced_byte-Yields position c (x ∷ digit ∷ rest) h =
      let (run, left) = digit_run (digit ∷ rest) in
      ground (arith, braced_digits-Yields position run left, digit_run_lem (digit ∷ rest))

  -- Behind a byte.
  after_byte-Yields :
      (position : ℕ) (text : Text)
      → position + length text ≡ size
      → Yields
          (λ (place : ℕ × Text). (position ≤ place.0) × (place.0 + length place.1 ≡ size))
          size
          (after_byte (position, text))
  unfolding after_byte
  after_byte-Yields position [] h = omega arith
  after_byte-Yields position (c ∷ cs) h = ground arith

  close_array-IsReport :
      (result : List ℕ) (position : ℕ) (text : Text)
      → Sofar size result position text
      → IsReport 1 size (close_array result (position, text))
  unfolding close_array
  close_array-IsReport [] position [] s = tt
  close_array-IsReport (b ∷ bs) position [] s =
      (s.bytes, omega arith, omega (arith, s.spent, s.fits))
  close_array-IsReport result position (c ∷ cs) s = omega (arith, s.fits)

  braced_item-IsReport :
      (fuel : ℕ) (next : Loop) (result : List ℕ) (position c : ℕ) (cs : Text)
      → IsLoop (λ _. 1) size fuel next
      → length cs < fuel
      → Sofar size result position (c ∷ cs)
      → IsReport 1 size (do
        (byte, behind, rest) ← braced_byte position (c ∷ cs)
        place ← after_byte (skip_whitespace behind rest)
        next (result ++ byte ∷ []) place)
  braced_item-IsReport fuel next result position c cs loop f s =
      bind-IsReport (Item size position) 1 size (braced_byte position (c ∷ cs)) _
        (braced_byte-Yields position c cs s.fits)
        (λ (byte, behind, rest) (hb, later, fits).
          let skipped = skip_whitespace_lem behind rest in
          bind-IsReport _ 1 size (after_byte (skip_whitespace behind rest)) _
            (after_byte-Yields _ _ (omega (arith, skipped)))
            (λ (at, left) (past, fits').
              loop (result ++ byte ∷ []) at left (omega (arith, skipped, s.fits))
                (Sofar-concat byte at left s hb (omega (arith, skipped)) fits')))

  braced_round-IsReport :
      (fuel : ℕ) (next : Loop) (result : List ℕ) (position : ℕ) (text : Text)
      → IsLoop (λ _. 1) size fuel next
      → length text < suc fuel
      → Sofar size result position text
      → IsReport 1 size (braced_round next result (position, text))
  unfolding braced_round
  braced_round-IsReport fuel next result position [] loop f s = tt
  braced_round-IsReport fuel next result position (c ∷ cs) loop f s =
      elim (Bool-cases (c == b'}')) [
        | inl closes ↦ rw closes (
            close_array-IsReport result _ _ (
              Sofar-skip_whitespace result (position + 1) cs (record {
                bytes = s.bytes;
                spent = omega (arith, s.spent);
                fits = omega (arith, s.fits);
              })))
        | inr goes_on ↦
            rw goes_on (braced_item-IsReport fuel next result position c cs loop (omega arith) s)
      ]

  pub parse_braced-IsLoop : (fuel : ℕ) → IsLoop (λ _. 1) size fuel (parse_braced fuel)
  unfolding parse_braced
  parse_braced-IsLoop zero result position text f s = absurd (omega arith)
  parse_braced-IsLoop (suc fuel) result position text f s =
      braced_round-IsReport fuel (parse_braced fuel) result _ _ (parse_braced-IsLoop fuel)
        (omega (arith, skip_whitespace_lem position text))
        (Sofar-skip_whitespace result position text s)
