-- ===== src/Quick.antt =====
-- The deltas that `run_quick` of src/bme_core.cpp prints: the tracked registers that changed.
pub mod Changed
pub mod Report
pub mod Run
pub mod Reported
use Prim.Native.Nat.{bit_and, bit_xor}
use bme.Base.{ℕ, suc, Bool, ◌&&◌, List, [], ◌∷◌, ◌++◌, ◌==◌, if◌then◌else◌, take}
use bme.Text.{Text, codes, is_empty, text_eq}
use bme.Hex.{byte_chars}
use bme.Seed.Compose.{Registers}
use bme.Seed.Names.{reg_names, status_flags}
use bme.CommandLine.{TrackMask}
use bme.Controls.{without_first, decode_x87_control_word, decode_x87_status_word, decode_mxcsr}
use bme.Engine.Address.{Fmt, format_hex64_string}

-- `fmt` as the quick output uses it: numbers, texts and numbers filled up on the right to a width,
-- and the decimal of an x87 register under a control word.
pub record QuickFmt : Type 0 where
  pub numbers : Fmt
  pub left : (width : ℕ) → Text → Text
  pub left_hex : (width value : ℕ) → Text
  pub st_decimal : List ℕ → (control_word : ℕ) → Text

abbrev pub rflags_resume_flag : ℕ
rflags_resume_flag = 0x1_0000

-- `fmt::join` of texts.
unfoldable pub joined_by : Text → List Text → Text
joined_by separator [] = []
joined_by separator (text ∷ []) = text
joined_by separator (text ∷ other ∷ texts) =
    text ++ separator ++ joined_by separator (other ∷ texts)

-- The bytes of an x87 register, the most significant first.
unfoldable pub reversed_chars : List ℕ → Text
reversed_chars [] = []
reversed_chars (b ∷ bytes) = reversed_chars bytes ++ byte_chars b

abbrev pub pair_eq : ℕ × ℕ → ℕ × ℕ → Bool
pair_eq (a, b) (c, d) = a == c && b == d

abbrev pub sign : ℕ → Text
sign value = if value == 0 then codes "-" else codes "+"

-- The status flags that differ, each behind a space, with what they became.
unfoldable pub changed_flags : (before after : ℕ) → List (Text × ℕ) → Text
changed_flags before after [] = []
changed_flags before after ((name, bit) ∷ flags) =
    let rest = changed_flags before after flags in
    if bit_and (bit_xor before after) bit == 0
    then rest
    else codes " " ++ sign (bit_and after bit) ++ name ++ rest

-- A row where two words differ.
abbrev pub word_row : (before after : ℕ) → Text → List Text
word_row before after row = if before == after then [] else row ∷ []

module _ (fmt : QuickFmt) where
  -- The lambda `row`.
  unfoldable pub delta_row : (label before_text after_text extra : Text) → Text
  delta_row label before_text after_text extra =
      codes "      "
      ++ fmt.left 6 label
      ++ codes " "
      ++ before_text
      ++ codes " -> "
      ++ after_text
      ++ extra

  abbrev hex64 : ℕ → Text
  hex64 = format_hex64_string fmt.numbers

  abbrev hex_word : ℕ → ℕ → Text
  hex_word width value = codes "0x" ++ fmt.numbers.hex width value

  abbrev decoded : List Text → Text
  decoded texts = codes "  (" ++ joined_by (codes " | ") texts ++ codes ")"

  unfoldable pub gpr_deltas : List Text → (before after : List ℕ) → List Text
  gpr_deltas (name ∷ names) (b ∷ before) (a ∷ after) =
      word_row b a (delta_row name (hex64 b) (hex64 a) []) ++ gpr_deltas names before after
  gpr_deltas _ _ _ = []

  abbrev flags_extra : Text → Text
  flags_extra changed =
      if is_empty changed then [] else codes " [" ++ without_first changed ++ codes "]"

  unfoldable pub rflags_delta : (before after : ℕ) → List Text
  rflags_delta before after =
      let changed =
        changed_flags before after (status_flags ++ (codes "RF", rflags_resume_flag) ∷ []) in
      word_row before after
        (delta_row (codes "RFLAGS") (hex64 before) (hex64 after) (flags_extra changed))

  abbrev xmm_text : ℕ × ℕ → Text
  xmm_text (low, high) = fmt.numbers.hex 16 high ++ codes ":" ++ fmt.numbers.hex 16 low

  unfoldable pub xmm_deltas : (i : ℕ) → (before after : List (ℕ × ℕ)) → List Text
  xmm_deltas i (b ∷ before) (a ∷ after) =
      (if pair_eq b a
        then []
        else delta_row (codes "XMM" ++ fmt.numbers.number i) (xmm_text b) (xmm_text a) [] ∷ [])
      ++ xmm_deltas (suc i) before after
  xmm_deltas i _ _ = []

  abbrev st_text : List ℕ → Text
  st_text bytes = codes "0x" ++ reversed_chars bytes

  unfoldable pub st_deltas :
      (i before_word after_word : ℕ) → (before after : List (List ℕ)) → List Text
  st_deltas i before_word after_word (b ∷ before) (a ∷ after) =
      (if text_eq b a
        then []
        else delta_row (codes "ST" ++ fmt.numbers.number i) (st_text b) (st_text a) (
            codes "  ("
            ++ fmt.st_decimal b before_word
            ++ codes " -> "
            ++ fmt.st_decimal a after_word
            ++ codes ")")
          ∷ [])
      ++ st_deltas (suc i) before_word after_word before after
  st_deltas i before_word after_word _ _ = []

  unfoldable pub sse_deltas : (before after : Registers) → List Text
  sse_deltas before after =
      xmm_deltas 0 before.xmm after.xmm
      ++ word_row before.mxcsr after.mxcsr (
          delta_row (codes "MXCSR") (hex_word 8 before.mxcsr) (hex_word 8 after.mxcsr)
            (decoded (decode_mxcsr after.mxcsr)))

  unfoldable pub x87_deltas : (before after : Registers) → List Text
  x87_deltas before after =
      let control = before.fpu_control_word in
      let control' = after.fpu_control_word in
      let status = before.fpu_status_word in
      let status' = after.fpu_status_word in
      let tags = before.fpu_tag_word_abridged in
      let tags' = after.fpu_tag_word_abridged in
      st_deltas 0 control control' before.st after.st
      ++ word_row control control' (
          delta_row (codes "x87CW") (hex_word 4 control) (hex_word 4 control')
            (decoded (decode_x87_control_word control')))
      ++ word_row status status' (
          delta_row (codes "x87SW") (hex_word 4 status) (hex_word 4 status')
            (decoded (decode_x87_status_word fmt.numbers status')))
      ++ word_row tags tags' (delta_row (codes "x87TW") (hex_word 2 tags) (hex_word 2 tags') [])

  -- The lambda `print_deltas`, class by class.
  unfoldable pub print_deltas : TrackMask → (before after : Registers) → List Text
  print_deltas track before after =
      (if track.gpr then gpr_deltas (take 16 reg_names) before.gpr after.gpr else [])
      ++ (if track.rip
          then word_row before.rip after.rip
              (delta_row (codes "RIP") (hex64 before.rip) (hex64 after.rip) [])
          else [])
      ++ (if track.rflags then rflags_delta before.rflags after.rflags else [])
      ++ (if track.xmm then sse_deltas before after else [])
      ++ (if track.x87 then x87_deltas before after else [])
