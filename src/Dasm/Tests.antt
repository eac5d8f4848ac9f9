-- ===== src/Dasm/Tests.antt =====
-- Two words printed, and the theorem about printing applied to them.
use cn.Common.{ℕ, ◌≡◌, refl, arith, some, List, [], ◌∷◌, ◌++◌, true, false}
use cn.Common.Outcome.{ok}
use cn.Instr.Table.{codes, instr_table}
use cn.Instr.{decode_instruction, decode_fields, fmt_of, sgnextend}
use cn.Instr.Assemble.{resolve_nmemonic, nmemonic_syntax, same_nmemonic, strtol}
use cn.Asm.{Linedec, generate_labels}
use cn.Asm.Opcodes.{generate_opcodes}
use cn.Asm.Tokens.{tokenize}
use cn.Dasm.{print_lines}
use cn.Dasm.RoundTrip.{assemble-disassemble}

branch_and_copy :
    print_lines false true 0 0xFFFFFFFF (0x8BFE ∷ 0xC9A9 ∷ [])
    ≡ ok (codes "bz r3, #-2 ; 0x8bfe" ++ 10 ∷ codes "mfcp r1, c5, x9 ; 0xc9a9" ++ 10 ∷ [])
unfolding print_lines decode_instruction decode_fields fmt_of resolve_nmemonic instr_table
    nmemonic_syntax same_nmemonic strtol sgnextend
branch_and_copy = refl

assemble-disassemble_example :
    (text : List ℕ) × (lines : List Linedec) × (image : ℕ → ℕ) × (print_lines false true 0
        0xFFFFFFFF
        (0x8BFE ∷ 0xC9A9 ∷ [])
      ≡ ok text)
    × (tokenize 0 text ≡ some lines)
    × (generate_labels 0 lines ≡ ok [])
    × (generate_opcodes lines [] (λ i. 0) ≡ ok (image, 2))
    × ((decode_instruction (image 0) ≡ decode_instruction 0x8BFE)
        × ((decode_instruction (image 1) ≡ decode_instruction 0xC9A9) × Unit {0}))
assemble-disassemble_example =
    assemble-disassemble true 0 (0x8BFE ∷ 0xC9A9 ∷ []) (λ i. 0) (omega arith)
