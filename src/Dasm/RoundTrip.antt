-- ===== src/Dasm/RoundTrip.antt =====
-- Disassembling and assembling again.
use cn.Common.{
  ℕ, suc, ◌+◌, ◌-◌, ◌^◌, ◌<◌, ◌≡◌, refl, arith, ap, ◌∙◌, Bool, false, some, List, [], ◌∷◌, length,
  update,
}
use cn.Common.Outcome.{ok}
use cn.Instr.{decode_instruction}
use cn.Asm.{Linedec, Labeldec, max_words, generate_labels}
use cn.Asm.Opcodes.{Pass, start, opcode_line, opcode_lines, generate_opcodes}
use cn.Asm.Tokens.{tokenize}
use cn.Dasm.{print_lines}
use cn.Dasm.Reassemble.{
  line_of, lines_of, SameInstructions, tokenize_lines-print_lines, generate_labels-lines_of,
  opcode_line-line_of,
}

opcode_lines_step :
    (labels : List Labeldec) (line : Linedec) (lines : List Linedec) (p q : Pass) {p' : Pass}
    → opcode_line labels line p ≡ ok q
    → opcode_lines labels lines q ≡ ok p'
    → opcode_lines labels (line ∷ lines) p ≡ ok p'
unfolding opcode_lines
opcode_lines_step labels line lines p q e e' = rw (e, e') refl

-- The second pass writes the words one after the other and keeps what stands before them.
opcode_lines-lines_of :
    (labels : List Labeldec) (words : List ℕ) (linenum : ℕ) (p : Pass)
    → p.offset ≡ p.offset_max
    → p.offset + length words < max_words
    → (p' : Pass) × (opcode_lines labels (lines_of linenum words) p ≡ ok p')
      × (p'.offset_max ≡ p.offset_max + length words)
      × SameInstructions words p'.outbuf p.offset
      × ((i : ℕ) → i < p.offset → p'.outbuf i ≡ p.outbuf i)
unfolding lines_of
opcode_lines-lines_of labels [] linenum p e h =
    (p, unfold opcode_lines in refl, omega arith, tt, λ i hi. refl)
opcode_lines-lines_of labels (w ∷ words) linenum p e h =
    let (word, syntax, e1, same) = opcode_line-line_of labels (linenum + 1) w p e (omega arith) in
    let q : Pass = record {
      offset = p.offset + 1;
      offset_max = p.offset + 1;
      outbuf = update p.outbuf p.offset word;
      syntax = some syntax;
    } in
    let (p', e2, top, sames, kept) =
      opcode_lines-lines_of labels words (linenum + 1) q refl (omega arith) in
    let here : p'.outbuf p.offset ≡ word = kept p.offset (omega arith) ∙ ground arith in
    (
      p',
      opcode_lines_step labels (line_of (linenum + 1) w) (lines_of (linenum + 1) words) p q e1 e2,
      omega arith,
      (ap decode_instruction here ∙ same, sames),
      λ i hi. kept i (omega arith) ∙ ground arith,
    )

-- An image of less than 65536 words is disassembled, with or without the words as comments, to a
-- text that the assembler accepts: it reads a line for each word, finds no label, and makes an
-- image of as many words in which each one decodes to the opcode, the subcode and the fields of
-- the word that it came from.
pub assemble-disassemble :
    (comment : Bool) (before : ℕ) (words : List ℕ) (outbuf : ℕ → ℕ)
    → length words < max_words
    → (text : List ℕ) × (lines : List Linedec) × (image : ℕ → ℕ) × (print_lines false comment 0
          (2 ^ 32 - 1)
          words
        ≡ ok text)
      × (tokenize before text ≡ some lines)
      × (generate_labels 0 lines ≡ ok [])
      × (generate_opcodes lines [] outbuf ≡ ok (image, length words))
      × SameInstructions words image 0
unfolding tokenize generate_opcodes
assemble-disassemble comment before words outbuf h =
    let (text, e, reads) =
      tokenize_lines-print_lines comment before words (2 ^ 32 - 1) 0 (omega arith) (omega arith) in
    let (p, ep, top, sames, kept) =
      opcode_lines-lines_of [] words 0 (start outbuf) refl (omega arith) in
    let whole : p.offset_max ≡ length words = omega arith in
    (
      text,
      lines_of 0 words,
      p.outbuf,
      e,
      reads (suc (length text)) (omega arith),
      generate_labels-lines_of words 0 0,
      rw (ep, whole) refl,
      sames,
    )
