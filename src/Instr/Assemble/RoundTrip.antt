-- ===== src/Instr/Assemble/RoundTrip.antt =====
-- Assembling and decoding again.
use cn.Common.{
  ℕ, ◌≡◌, refl, sym, arith, Bool, true, false, Option, some, List, [], ◌∷◌, All, ◌&◌, if◌then◌else◌,
}
use cn.Common.Words.{IsWord}
use cn.Instr.{fmt_of, decode_instruction}
use cn.Instr.Table.{InstrSpec, instr_table}
use cn.Instr.Assemble.{same_nmemonic, find_spec, assemble_instruction}
use cn.Instr.Assemble.Formats.{Fits, Assembles}
use cn.Instr.Assemble.Encodings.{
  u3u3u3_Assembles, u3_2u4_Assembles, u3u8_Assembles, blank_11_Assembles, s11_Assembles,
  u3s8_Assembles, u3u3s5_Assembles, u3u3u5_Assembles, u3u3_5_Assembles, u11_Assembles,
  u3_3u5_Assembles,
}

table_Assembles : All (λ spec. Assembles (fmt_of spec.opcode) spec) instr_table
unfolding instr_table fmt_of
table_Assembles =
    u3u3u3_Assembles _ _ 0x00 (omega arith) 0x0 refl (omega arith)
    & u3u3u3_Assembles _ _ 0x00 (omega arith) 0x1 refl (omega arith)
    & u3u3u3_Assembles _ _ 0x00 (omega arith) 0x2 refl (omega arith)
    & u3u3u3_Assembles _ _ 0x00 (omega arith) 0x3 refl (omega arith)
    & u3u3u3_Assembles _ _ 0x01 (omega arith) 0x0 refl (omega arith)
    & u3u3u3_Assembles _ _ 0x01 (omega arith) 0x1 refl (omega arith)
    & u3u3u3_Assembles _ _ 0x01 (omega arith) 0x2 refl (omega arith)
    & u3u3u3_Assembles _ _ 0x01 (omega arith) 0x3 refl (omega arith)
    & u3u3u3_Assembles _ _ 0x02 (omega arith) 0x0 refl (omega arith)
    & u3u3u3_Assembles _ _ 0x02 (omega arith) 0x1 refl (omega arith)
    & u3u3u3_Assembles _ _ 0x02 (omega arith) 0x2 refl (omega arith)
    & u3u3u3_Assembles _ _ 0x02 (omega arith) 0x3 refl (omega arith)
    & u3_2u4_Assembles _ _ 0x03 (omega arith) 0x0 refl (omega arith)
    & u3_2u4_Assembles _ _ 0x03 (omega arith) 0x1 refl (omega arith)
    & u3_2u4_Assembles _ _ 0x03 (omega arith) 0x2 refl (omega arith)
    & u3_2u4_Assembles _ _ 0x03 (omega arith) 0x3 refl (omega arith)
    & u3u8_Assembles _ _ 0x04 (omega arith) 0x0 refl
    & u3u8_Assembles _ _ 0x05 (omega arith) 0x0 refl
    & u3u8_Assembles _ _ 0x06 (omega arith) 0x0 refl
    & u3u8_Assembles _ _ 0x07 (omega arith) 0x0 refl
    & u3u8_Assembles _ _ 0x08 (omega arith) 0x0 refl
    & u3u8_Assembles _ _ 0x09 (omega arith) 0x0 refl
    & u3u8_Assembles _ _ 0x0A (omega arith) 0x0 refl
    & u3u8_Assembles _ _ 0x0B (omega arith) 0x0 refl
    & u3u8_Assembles _ _ 0x0C (omega arith) 0x0 refl
    & u3u8_Assembles _ _ 0x0D (omega arith) 0x0 refl
    & blank_11_Assembles _ _ 0x0E (omega arith) 0x0 refl
    & s11_Assembles _ _ 0x0F (omega arith) 0x0 refl
    & s11_Assembles _ _ 0x10 (omega arith) 0x0 refl
    & u3s8_Assembles _ _ 0x11 (omega arith) 0x0 refl
    & u3s8_Assembles _ _ 0x12 (omega arith) 0x0 refl
    & u3s8_Assembles _ _ 0x13 (omega arith) 0x0 refl
    & u3s8_Assembles _ _ 0x14 (omega arith) 0x0 refl
    & u3u3s5_Assembles _ _ 0x15 (omega arith) 0x0 refl
    & u3u3s5_Assembles _ _ 0x16 (omega arith) 0x0 refl
    & u3u3s5_Assembles _ _ 0x17 (omega arith) 0x0 refl
    & u3u3s5_Assembles _ _ 0x18 (omega arith) 0x0 refl
    & u3u3u5_Assembles _ _ 0x19 (omega arith) 0x0 refl
    & u3u3u5_Assembles _ _ 0x1A (omega arith) 0x0 refl
    & u3u3_5_Assembles _ _ 0x1B (omega arith) 0x0 refl
    & u11_Assembles _ _ 0x1C (omega arith) 0x0 refl
    & blank_11_Assembles _ _ 0x1D (omega arith) 0x0 refl
    & u3_3u5_Assembles _ _ 0x1E (omega arith) 0x0 refl
    & u3_3u5_Assembles _ _ 0x1F (omega arith) 0x0 refl
    & tt

chosen :
    (P : InstrSpec → Type 0) (b : Bool) (x : InstrSpec) (rest : Option InstrSpec) (y : InstrSpec)
    → P x
    → (rest ≡ some y → P y)
    → (if b then some x else rest) ≡ some y
    → P y
chosen P true x rest y p later e = let same : x ≡ y = cc in rw (sym same) p
chosen P false x rest y p later e = later e

-- What holds of every row holds of the one that is found.
pub find_spec-All :
    (P : InstrSpec → Type 0) (nmemonic : List ℕ) (specs : List InstrSpec) (spec : InstrSpec)
    → All P specs
    → find_spec nmemonic specs ≡ some spec
    → P spec
unfolding find_spec
find_spec-All P nmemonic [] spec all e = ground arith
find_spec-All P nmemonic (first ∷ specs) spec (p, all) e =
    chosen P (same_nmemonic nmemonic first.nmemonic) first (find_spec nmemonic specs) spec p
      (λ found. find_spec-All P nmemonic specs spec all found) e

-- What the assembler gives for a nmemonic of the table and fields that its format can hold is a
-- word, and it decodes to the opcode and subcode of the nmemonic and to the same fields.
pub decode-assemble :
    (nmemonic : List ℕ) (spec : InstrSpec) (a b c : ℕ)
    → find_spec nmemonic instr_table ≡ some spec
    → Fits (fmt_of spec.opcode) a b c
    → (w : ℕ) × (assemble_instruction nmemonic (a ∷ b ∷ c ∷ []) ≡ some w)
      × IsWord w
      × (decode_instruction w
          ≡ some (record {
            opcode = spec.opcode;
            subcode = if spec.has_subcode then spec.subcode else 0;
            field0 = a;
            field1 = b;
            field2 = c;
          }))
unfolding assemble_instruction
decode-assemble nmemonic spec a b c found fits = rw found (
    find_spec-All (λ s. Assembles (fmt_of s.opcode) s) nmemonic instr_table spec table_Assembles
      found a b c fits)
