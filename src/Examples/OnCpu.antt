-- ===== src/Examples/OnCpu.antt =====
-- The signatures of two processors, and the theorem on them.
use bme.Base.{◌∷◌, [], ◌≡◌, refl, arith}
use bme.Text.{codes, text_eq}
use bme.Cpu.{decode_signature, decode_amd_signature, decode_intel_signature}
use bme.Cpu.Signature.{SignatureFields, packed, IsIdentified, decode_signature-IsIdentified}

-- A processor of family 25 and model 33, and one of family 6 and model 183.
abbrev family_25 : SignatureFields
family_25 = record {
  stepping_id = 2;
  base_model = 1;
  base_family = 15;
  processor_type = 0;
  extended_model = 2;
  extended_family = 10;
  reserved = 0;
}

abbrev family_6 : SignatureFields
family_6 = record {
  stepping_id = 1;
  base_model = 7;
  base_family = 6;
  processor_type = 0;
  extended_model = 11;
  extended_family = 0;
  reserved = 0;
}

decode_signature-IsIdentified_example :
    IsIdentified
      (codes "AuthenticAMD")
      family_25
      (decode_signature (codes "AuthenticAMD") (packed family_25))
decode_signature-IsIdentified_example =
    decode_signature-IsIdentified family_25 (omega arith) (codes "AuthenticAMD")

signatures :
    decode_signature (codes "AuthenticAMD") (packed family_25)
      ∷ decode_signature (codes "GenuineIntel") (packed family_6)
      ∷ []
    ≡ record { family = 25; model = 33; stepping = 2 }
      ∷ record { family = 6; model = 183; stepping = 1 }
      ∷ []
unfolding decode_signature decode_amd_signature decode_intel_signature text_eq
signatures = refl
