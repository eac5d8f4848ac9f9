-- ===== src/Instr/Tests.antt =====
-- The theorem about decoding applied to an instruction.
use cn.Common.{ℕ, ◌≡◌, some, refl, arith, [], ◌∷◌, false}
use cn.Common.Words.{IsWord}
use cn.Instr.Table.{InstrSpec, codes, instr_table}
use cn.Instr.Assemble.{same_nmemonic, find_spec, assemble_instruction}
use cn.Instr.Assemble.Formats.{Fits}
use cn.Instr.Assemble.RoundTrip.{decode-assemble}
use cn.Instr.{Decoded, fmt_of, decode_fields, decode_instruction}
use cn.Instr.Ranges.{IsDecoded, decode_instruction-IsDecoded}

-- `mfcp r1, c5, 9`
abbrev mfcp : Decoded
mfcp = record { opcode = 0x19; subcode = 0; field0 = 1; field1 = 5; field2 = 9 }

decode_mfcp : decode_instruction 0xC9A9 ≡ some mfcp
unfolding decode_instruction decode_fields fmt_of
decode_mfcp = refl

decode_instruction-IsDecoded_example : IsDecoded mfcp
decode_instruction-IsDecoded_example = decode_instruction-IsDecoded 0xC9A9 decode_mfcp

-- `bz r3, -2`, with the nmemonic in other letters than in the table.
abbrev bz : InstrSpec
bz = record {
  nmemonic = codes "bz";
  opcode = 0x11;
  has_subcode = false;
  subcode = 0;
  format = codes "u3s8";
  syntax = codes "rs8";
}

find_bz : find_spec (codes "BZ") instr_table ≡ some bz
unfolding find_spec instr_table same_nmemonic
find_bz = refl

bz_Fits : Fits (fmt_of 0x11) 3 0xFFFFFFFE 0
unfolding fmt_of
bz_Fits = (omega arith, (0xFE, omega arith, refl), refl)

decode-assemble_example :
    (w : ℕ) × (assemble_instruction (codes "BZ") (3 ∷ 0xFFFFFFFE ∷ 0 ∷ []) ≡ some w)
    × IsWord w
    × (decode_instruction w
        ≡ some (record { opcode = 0x11; subcode = 0; field0 = 3; field1 = 0xFFFFFFFE; field2 = 0 }))
decode-assemble_example = decode-assemble (codes "BZ") bz 3 0xFFFFFFFE 0 find_bz bz_Fits
