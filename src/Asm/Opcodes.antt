-- ===== src/Asm/Opcodes.antt =====
-- The second pass, `generate_opcodes` of asm.c.
use cn.Common.{
  ℕ, zero, suc, ◌+◌, ◌&&◌, not, Option, none, some, List, [], ◌∷◌, length, get_elem?, update, ltb,
  leb, ◌==◌, if◌then◌else◌,
}
use cn.Common.Words.{u16}
use cn.Common.Outcome.{Outcome, ok, failed, undefined, ◌>>=◌, ◌>>◌, defined, assert}
use cn.Instr.Table.{codes, instr_table}
use cn.Instr.Assemble.{find_spec, assemble_spec, nmemonic_syntax}
use cn.Text.{first, after_first, same_text, strtol_int, int_gt}
use cn.Asm.{Labeldec, Linedec, max_words, find_offset, find_reloff, operand}

-- The loop over the syntax: the members of `args` that it writes. Every letter takes fuel.
unfoldable pub operands : ℕ → ℕ → List Labeldec → List (List ℕ) → ℕ → List ℕ → Outcome (List ℕ)
operands fuel offset labels args argidx [] = ok []
operands zero offset labels args argidx (c ∷ syntax) = undefined
operands (suc fuel) offset labels args argidx (c ∷ syntax) = do
  assert (ltb argidx 3)
  (value, rest) ← operand offset labels c syntax (get_elem? args argidx)
  values ← operands fuel offset labels args (argidx + 1) rest
  ok (value ∷ values)

-- The variables of `generate_opcodes` that live through its loop. `syntax` is not set before the
-- first nmemonic, and stays as it is at one that is not in the table.
pub record Pass : Type 0 where
  pub offset : ℕ
  pub offset_max : ℕ
  pub outbuf : ℕ → ℕ
  pub syntax : Option (List ℕ)

-- `outbuf[offset++] = word`
unfoldable pub put_word : ℕ → Pass → Outcome Pass
put_word word p =
    if ltb p.offset max_words
    then ok (record p { outbuf = update p.outbuf p.offset word; offset = p.offset + 1 })
    else undefined

-- The word of a `.data` line. The test before lets only `#` and `@` through.
unfoldable pub data_word : ℕ → List Labeldec → List ℕ → Outcome ℕ
data_word offset labels arg =
    if first arg == b'#'
    then ok (u16 (strtol_int 0 (after_first arg)))
    else if first arg == b'@'
    then ok (u16 (find_offset (after_first arg) labels))
    else if first arg == b'%'
    then ok (u16 (find_reloff offset (after_first arg) labels))
    else undefined

unfoldable pub data_line : List Labeldec → Linedec → Pass → Outcome Pass
unfolding data_word put_word
data_line labels line p = elim (get_elem? line.args 0) [
  | none ↦ failed
  | some arg ↦
      if not (first arg == b'@') && not (first arg == b'#')
      then failed
      else (do word ← data_word p.offset labels arg; put_word word p)
]

unfoldable pub org_line : Linedec → Pass → Outcome Pass
org_line line p = elim (get_elem? line.args 0) [
  | none ↦ failed
  | some arg ↦ ok (record p { offset = strtol_int 0 arg })
]

-- `assemble_instruction`: -1 for a nmemonic that is not in the table.
unfoldable pub assemble : List ℕ → List ℕ → Outcome ℕ
assemble nmemonic values = elim (find_spec nmemonic instr_table) [
  | none ↦ failed
  | some spec ↦ defined (assemble_spec spec values)
]

-- The result of `nmemonic_syntax` is not looked at.
unfoldable pub set_syntax : List ℕ → Pass → Pass
set_syntax nmemonic p = elim (nmemonic_syntax nmemonic) [
  | none ↦ p
  | some syntax ↦ record p { syntax = some syntax }
]

unfoldable pub instruction_line : List Labeldec → List ℕ → Linedec → Pass → Outcome Pass
unfolding set_syntax operands assemble put_word
instruction_line labels nmemonic line p = do
  let p' = set_syntax nmemonic p
  syntax ← defined p'.syntax
  values ← operands (length syntax) p.offset labels line.args 0 syntax
  word ← assemble nmemonic values
  put_word word p'

-- The lines from `offset_max_update` on.
unfoldable pub update_max : Pass → Outcome Pass
update_max p =
    if int_gt p.offset p.offset_max
    then (if leb max_words p.offset then failed else ok (record p { offset_max = p.offset }))
    else ok p

-- The body of the loop, on a line whose `op` is `nmemonic`.
unfoldable pub assemble_line : List Labeldec → Linedec → List ℕ → Pass → Outcome Pass
unfolding data_line org_line instruction_line update_max
assemble_line labels line nmemonic p = do
  p' ←
      (if same_text nmemonic (codes ".data")
        then data_line labels line p
        else if same_text nmemonic (codes ".org")
        then org_line line p
        else instruction_line labels nmemonic line p)
  update_max p'

unfoldable pub opcode_line : List Labeldec → Linedec → Pass → Outcome Pass
unfolding assemble_line
opcode_line labels line p = elim line.op [
  | none ↦ ok p
  | some nmemonic ↦ assemble_line labels line nmemonic p
]

unfoldable pub opcode_lines : List Labeldec → List Linedec → Pass → Outcome Pass
unfolding opcode_line
opcode_lines labels [] p = ok p
opcode_lines labels (line ∷ lines) p = do
  p' ← opcode_line labels line p
  opcode_lines labels lines p'

abbrev pub start : (ℕ → ℕ) → Pass
start outbuf = record { offset = 0; offset_max = 0; outbuf = outbuf; syntax = none }

-- `outbuf` and the result.
unfoldable pub generate_opcodes : List Linedec → List Labeldec → (ℕ → ℕ) → Outcome ((ℕ → ℕ) × ℕ)
unfolding opcode_lines
generate_opcodes lines labels outbuf = do
  p ← opcode_lines labels lines (start outbuf)
  ok (p.outbuf, p.offset_max)
