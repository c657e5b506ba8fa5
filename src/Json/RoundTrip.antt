-- ===== src/Json/RoundTrip.antt =====
-- The request in a JSON trace of src/trace_json.cpp, and the readers of its texts.
use mathlib.Core.List.{append-nil, append_assoc}
use bme.Base.{
  ℕ, ◌+◌, ◌^◌, ◌<◌, ◌≡◌, ◌≢◌, refl, ap, ◌∙◌, false, List, [], ◌∷◌, ◌++◌, map, length, All, Result,
  ok, ltb, arith,
}
use bme.Base.Words.{IsByte}
use bme.Text.{Text}
use bme.Hex.{byte_chars, format_bytes, format_hex, format_xmm, format_st}
use bme.Code.{parse_pairs, parse_code_text}
use bme.Code.Bytes.{parse_pairs-byte_chars}
use bme.Code.RoundTrip.{parse_code_text-hex_digit}
use bme.Seed.{
  SeedError, Floats, parse_seed, parse_bounded_seed, parse_mxcsr_seed, parse_fpu_control_word_seed,
  compose_xmm_seed, compose_st_seed,
}
use bme.Seed.RoundTrip.{
  parse_seed-format_hex, parse_mxcsr_seed-format_hex, compose_xmm_seed-format_xmm,
  compose_st_seed-format_st,
}
use bme.Seed.Compose.{Registers}
use bme.Trace.{Trace}
use bme.Json.{RegistersDocument, make_registers_document, make_request_document}

pairs_back :
    (code result : List ℕ) (position : ℕ)
    → All IsByte code
    → parse_pairs result position (format_bytes code) ≡ ok (result ++ code)
unfolding format_bytes
pairs_back [] result position h = rw append-nil (unfold parse_pairs in refl)
pairs_back (b ∷ rest) result position (hb, hrest) =
    parse_pairs-byte_chars result position b (format_bytes rest) hb
    ∙ pairs_back rest (result ++ b ∷ []) (position + 2) hrest
    ∙ ap ok (append_assoc result (b ∷ []) rest)

code_back :
    (code : List ℕ) → code ≢ [] → All IsByte code → parse_code_text (format_bytes code) ≡ ok code
unfolding format_bytes byte_chars
code_back [] nonempty h = absurd (nonempty refl)
code_back (b ∷ rest) nonempty h = parse_code_text-hex_digit _ _ ∙ pairs_back (b ∷ rest) [] 0 h

-- The texts are read as the values, one by one.
abbrev pub Restores : {A : Type 0} → (Text → Result A SeedError) → List Text → List A → Type 0
Restores read [] [] = Unit {0}
Restores read (text ∷ texts) (value ∷ values) = (read text ≡ ok value) × Restores read texts values
Restores read _ _ = ⊥

map-Restores :
    {A : Type 0} (read : Text → Result A SeedError) (write : A → Text) (P : A → Type 0)
    → ((a : A) → P a → read (write a) ≡ ok a)
    → (values : List A) → All P values
    → Restores read (map write values) values
map-Restores read write P back [] all = tt
map-Restores read write P back (value ∷ values) all =
    (back value all.0, map-Restores read write P back values all.1)

-- The registers of a run: words of their widths, and an MXCSR without reserved bits.
pub record IsSized (registers : Registers) : Type 0 where
  pub gprs : All (λ value. value < 2 ^ 64) registers.gpr
  pub xmms : All (λ value. (value.0 < 2 ^ 64) × (value.1 < 2 ^ 64)) registers.xmm
  pub sts : All (λ bytes. (length bytes ≡ 10) × All IsByte bytes) registers.st
  pub mxcsr : registers.mxcsr < 2 ^ 16
  pub control_word : registers.fpu_control_word < 2 ^ 16

-- The texts of a document, as seeds, give the registers.
pub record IsReplay (f : Floats) (registers : Registers) (document : RegistersDocument)
    : Type 0 where
  pub gpr_back : Restores parse_seed document.gpr registers.gpr
  pub xmm_back : Restores (compose_xmm_seed f) document.xmm registers.xmm
  pub st_back : Restores (compose_st_seed f) document.st registers.st
  pub mxcsr_back : parse_mxcsr_seed document.mxcsr ≡ ok registers.mxcsr
  pub control_back :
      parse_fpu_control_word_seed document.control_word ≡ ok registers.fpu_control_word

mxcsr_again : (v : ℕ) → v < 2 ^ 16 → parse_mxcsr_seed (format_hex 8 v) ≡ ok v
mxcsr_again v h =
    let small : ltb 0xFFFF v ≡ false = ground arith in
    rw small at (parse_mxcsr_seed-format_hex v (omega arith))

control_again : (v : ℕ) → v < 2 ^ 16 → parse_fpu_control_word_seed (format_hex 4 v) ≡ ok v
unfolding parse_fpu_control_word_seed parse_bounded_seed
control_again v h =
    let small : ltb 0xFFFF v ≡ false = ground arith in
    rw
      (
        parse_seed-format_hex 4 v (omega arith) (omega arith) (omega arith),
        parse_bounded_seed,
        small,
      )
      refl

registers-IsReplay :
    (f : Floats) (registers : Registers)
    → IsSized registers
    → IsReplay f registers (make_registers_document registers)
unfolding make_registers_document
registers-IsReplay f registers sized = record {
  gpr_back =
      map-Restores parse_seed (format_hex 16) (λ value. value < 2 ^ 64)
        (λ v h. parse_seed-format_hex 16 v (omega arith) (omega arith) h) registers.gpr sized.gprs;
  xmm_back =
      map-Restores (compose_xmm_seed f) format_xmm
        (λ value. (value.0 < 2 ^ 64) × (value.1 < 2 ^ 64))
        (λ v h. compose_xmm_seed-format_xmm f v.0 v.1 h.0 h.1) registers.xmm sized.xmms;
  st_back =
      map-Restores (compose_st_seed f) format_st (λ bytes. (length bytes ≡ 10) × All IsByte bytes)
        (λ bytes h. compose_st_seed-format_st f bytes h.0 h.1) registers.st sized.sts;
  mxcsr_back = mxcsr_again registers.mxcsr sized.mxcsr;
  control_back = control_again registers.fpu_control_word sized.control_word;
}

-- Whatever the floating-point operations are, for code that is not empty and registers of their widths
-- with no reserved bit of MXCSR: the request's bytes are read back as the code, and its register
-- texts, as seeds, as the general-purpose, XMM and x87 registers and the two control words.
pub make_request_document-IsReplay :
    (f : Floats) (trace : Trace)
    → trace.code ≢ []
    → All IsByte trace.code
    → IsSized trace.requested_seed
    → (parse_code_text (make_request_document trace).input_bytes ≡ ok trace.code)
      × IsReplay f trace.requested_seed (make_request_document trace).seed
unfolding make_request_document
make_request_document-IsReplay f trace nonempty bytes sized =
    (code_back trace.code nonempty bytes, registers-IsReplay f trace.requested_seed sized)
