-- ===== src/Instr/Table.antt =====
-- `instr_table` of instr_table.c. A C string is the list of its bytes, without the NUL.
use cn.Common.{ℕ, List, [], ◌∷◌, Bool, true, false}
use Prim.Native.Char.{code}
use Prim.Native.String

-- The bytes of an ASCII literal.
abbrev pub codes : String.String → List ℕ
codes String.[] = []
codes (String.◌∷◌ c s) = code c ∷ codes s

-- `instr_spec_t`
pub record InstrSpec : Type 0 where
  pub nmemonic : List ℕ
  pub opcode : ℕ
  pub has_subcode : Bool
  pub subcode : ℕ
  pub format : List ℕ
  pub syntax : List ℕ

abbrev row : String.String → ℕ → Bool → ℕ → String.String → String.String → InstrSpec
row nmemonic opcode has_subcode subcode format syntax = record {
  nmemonic = codes nmemonic;
  opcode = opcode;
  has_subcode = has_subcode;
  subcode = subcode;
  format = codes format;
  syntax = codes syntax;
}

unfoldable pub instr_table : List InstrSpec
instr_table =
    row "or" 0x00 true 0x0 "u3u3u3" "rrr"
    ∷ row "nand" 0x00 true 0x1 "u3u3u3" "rrr"
    ∷ row "and" 0x00 true 0x2 "u3u3u3" "rrr"
    ∷ row "xor" 0x00 true 0x3 "u3u3u3" "rrr"
    ∷ row "add" 0x01 true 0x0 "u3u3u3" "rrr"
    ∷ row "sub" 0x01 true 0x1 "u3u3u3" "rrr"
    ∷ row "addc" 0x01 true 0x2 "u3u3u3" "rrr"
    ∷ row "subc" 0x01 true 0x3 "u3u3u3" "rrr"
    ∷ row "shl" 0x02 true 0x0 "u3u3u3" "rrr"
    ∷ row "shr" 0x02 true 0x1 "u3u3u3" "rrr"
    ∷ row "shra" 0x02 true 0x2 "u3u3u3" "rrr"
    ∷ row "rot" 0x02 true 0x3 "u3u3u3" "rrr"
    ∷ row "shli" 0x03 true 0x0 "u3_2u4" "ru4"
    ∷ row "shri" 0x03 true 0x1 "u3_2u4" "ru4"
    ∷ row "shrai" 0x03 true 0x2 "u3_2u4" "ru4"
    ∷ row "roti" 0x03 true 0x3 "u3_2u4" "ru4"
    ∷ row "li" 0x04 false 0x0 "u3u8" "ru8"
    ∷ row "shlli" 0x05 false 0x0 "u3u8" "ru8"
    ∷ row "inci" 0x06 false 0x0 "u3u8" "ru8"
    ∷ row "deci" 0x07 false 0x0 "u3u8" "ru8"
    ∷ row "ori" 0x08 false 0x0 "u3u8" "ru8"
    ∷ row "andi" 0x09 false 0x0 "u3u8" "ru8"
    ∷ row "xori" 0x0A false 0x0 "u3u8" "ru8"
    ∷ row "orih" 0x0B false 0x0 "u3u8" "ru8"
    ∷ row "andih" 0x0C false 0x0 "u3u8" "ru8"
    ∷ row "xorih" 0x0D false 0x0 "u3u8" "ru8"
    ∷ row "sleep" 0x0E false 0x0 "_11" ""
    ∷ row "ba" 0x0F false 0x0 "s11" "s11"
    ∷ row "bal" 0x10 false 0x0 "s11" "s11"
    ∷ row "bz" 0x11 false 0x0 "u3s8" "rs8"
    ∷ row "bnz" 0x12 false 0x0 "u3s8" "rs8"
    ∷ row "jr" 0x13 false 0x0 "u3s8" "rs8"
    ∷ row "jlr" 0x14 false 0x0 "u3s8" "rs8"
    ∷ row "ll" 0x15 false 0x0 "u3u3s5" "rrs5"
    ∷ row "ldw" 0x16 false 0x0 "u3u3s5" "rrs5"
    ∷ row "stw" 0x17 false 0x0 "u3u3s5" "rrs5"
    ∷ row "sc" 0x18 false 0x0 "u3u3s5" "rrs5"
    ∷ row "mfcp" 0x19 false 0x0 "u3u3u5" "rcx"
    ∷ row "mtcp" 0x1A false 0x0 "u3u3u5" "rcx"
    ∷ row "cpop" 0x1B false 0x0 "u3u3_5" "rc"
    ∷ row "int" 0x1C false 0x0 "u11" "u11"
    ∷ row "rfi" 0x1D false 0x0 "_11" ""
    ∷ row "mfctl" 0x1E false 0x0 "u3_3u5" "rq"
    ∷ row "mtctl" 0x1F false 0x0 "u3_3u5" "rq"
    ∷ []
