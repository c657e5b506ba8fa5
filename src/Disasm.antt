-- ===== src/Disasm.antt =====
-- `disasm_one` of src/bme_core.cpp: one instruction from the selected decoder.
use bme.Base.{
  ℕ, Bool, not, ◌&&◌, ◌==◌, Option, none, some, List, [], ◌∷◌, ◌++◌, if◌then◌else◌, length, take,
}
use bme.Base.Words.{u8, u32}
use bme.Text.{Text, is_empty, is_space, trim}
use bme.Trace.{DisasmSyntax, DisasmBackend, zydis, bddisasm, capstone, xed}

-- What the four decoding libraries answer on the bytes from an address on; none is a failure. The
-- two that decode and print in two calls have a function for each.
pub record Decoders : Type 0 where
  pub zydis_disassemble : DisasmSyntax → ℕ → List ℕ → Option (Text × ℕ)
  pub bddisasm_decode : List ℕ → Option ℕ
  pub bddisasm_to_text : ℕ → List ℕ → Option Text
  pub capstone_opens : Bool
  pub capstone_disasm : DisasmSyntax → ℕ → List ℕ → Option (Text × Text × ℕ)
  pub xed_decode : List ℕ → Option ℕ
  pub xed_format : DisasmSyntax → ℕ → List ℕ → Option Text

pub record Decoded : Type 0 where
  pub text : Text
  pub length : ℕ

unfoldable pub valid : Decoded → Bool
valid d = not (is_empty d.text) && not (d.length == 0)

abbrev no_decode : Decoded
no_decode = record { text = []; length = 0 }

-- The text and the length, when both calls answer.
unfoldable pub decoded_as : Option Text → Option ℕ → Decoded
decoded_as (some text) (some size) = record { text = text; length = u8 size }
decoded_as _ _ = no_decode

abbrev joined : Text → Text → Text
joined mnemonic operands = if is_empty operands then mnemonic else mnemonic ++ b' ' ∷ operands

unfoldable pub backend_decode : Decoders → DisasmBackend → DisasmSyntax → ℕ → List ℕ → Decoded
backend_decode ds zydis syntax address code = elim (ds.zydis_disassemble syntax address code) [
  | none ↦ no_decode
  | some (text, size) ↦ record { text = text; length = u8 size }
]
backend_decode ds bddisasm syntax address code =
    decoded_as (ds.bddisasm_to_text address code) (ds.bddisasm_decode code)
backend_decode ds capstone syntax address code =
    if ds.capstone_opens
    then elim (ds.capstone_disasm syntax address code) [
      | none ↦ no_decode
      | some (mnemonic, operands, size) ↦ record {
        text = joined mnemonic operands;
        length = u8 size;
      }
    ]
    else no_decode
backend_decode ds xed syntax address code =
    let input = take (u32 (length code)) code in
    decoded_as (ds.xed_format syntax address input) (ds.xed_decode input)

unfoldable pub disasm_one : Decoders → DisasmBackend → DisasmSyntax → ℕ → List ℕ → Decoded
disasm_one ds backend syntax address code =
    let decoded = backend_decode ds backend syntax address code in
    record decoded { text = trim is_space decoded.text }
