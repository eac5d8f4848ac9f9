-- ===== src/Dasm/Instructions.antt =====
-- The line of a word, and the word that the assembler makes of it.
use cn.Common.{
  ℕ, suc, ◌≤◌, ◌≡◌, refl, arith, ap, sym, ◌∙◌, false, ◌||◌, some, List, [], ◌∷◌, ◌++◌, length,
  get_elem?, ◌==◌, if◌then◌else◌,
}
use cn.Common.Outcome.{ok}
use cn.Instr.{fmt_of, decode_instruction}
use cn.Instr.Table.{InstrSpec, instr_table}
use cn.Instr.Assemble.{find_spec, assemble_spec, nmemonic_syntax, assemble_instruction}
use cn.Instr.Assemble.RoundTrip.{decode-assemble}
use cn.Instr.Assemble.Formats.{Fits}
use cn.Instr.Assemble.Extra.{assemble_spec-append}
use cn.Asm.{Labeldec}
use cn.Asm.Arity.{arity, operand-Remains}
use cn.Asm.Readable.{set_syntax_known}
use cn.Asm.Opcodes.{Pass, assemble, instruction_line, put_word}
use cn.Asm.Tokens.Lines.{instruction}
use cn.Asm.Tokens.Reading.{joined}
use cn.Dasm.{disassemble}
use cn.Dasm.Fields.{AreRead, done, next, print_fields-AreRead, operands-AreRead, AreRead-length}
use cn.Dasm.Operands.{IsRead}
use cn.Dasm.Words.{IsUnderstood}

remains-arity :
    (c : ℕ) (syntax text rest : List ℕ) (v : ℕ)
    → IsRead c syntax v text rest
    → arity false rest ≡ arity (c == b's' || c == b'u') syntax
remains-arity c syntax text rest v h = (rw (h.reads 0 []) at (operand-Remains 0 [] c syntax text)).0

AreRead-arity :
    {syntax values : List ℕ} {texts : List (List ℕ)}
    → AreRead syntax values texts
    → length values ≡ arity false syntax
unfolding arity
AreRead-arity done = refl
AreRead-arity (next {c} {syntax} {rest} {v} {values} {text} h hs) =
    ap suc (AreRead-arity hs ∙ remains-arity c syntax text rest v h)

nmemonic_syntax-found :
    (nmemonic : List ℕ) (spec : InstrSpec)
    → find_spec nmemonic instr_table ≡ some spec
    → nmemonic_syntax nmemonic ≡ some spec.syntax
unfolding nmemonic_syntax
nmemonic_syntax-found nmemonic spec e = rw e refl

assemble-found :
    (nmemonic values : List ℕ) (spec : InstrSpec) {w : ℕ}
    → find_spec nmemonic instr_table ≡ some spec
    → assemble_spec spec values ≡ some w
    → assemble nmemonic values ≡ ok w
unfolding assemble
assemble-found nmemonic values spec found e = ground arith

assemble_instruction-found :
    (nmemonic fields : List ℕ) (spec : InstrSpec)
    → find_spec nmemonic instr_table ≡ some spec
    → assemble_instruction nmemonic fields ≡ assemble_spec spec fields
unfolding assemble_instruction
assemble_instruction-found nmemonic fields spec found = rw found refl

-- The values that the syntax asks for give the word of all fields.
same_word :
    (nmemonic : List ℕ) (spec : InstrSpec) (values extra fields : List ℕ) {w w' : ℕ}
    → find_spec nmemonic instr_table ≡ some spec
    → values ++ extra ≡ fields
    → assemble_spec spec values ≡ some w
    → assemble_instruction nmemonic fields ≡ some w'
    → w' ≡ w
same_word nmemonic spec values extra fields found split e e' = cc (
  assemble_instruction-found nmemonic fields spec found,
  assemble_spec-append spec values extra e,
  ap (assemble_spec spec) split,
)

module _ {w : ℕ} (u : IsUnderstood w) where
  -- The text of a word.
  pub disassemble-joined : disassemble w ≡ ok (u.spec.nmemonic ++ 32 ∷ joined u.operands.texts)
  unfolding disassemble
  disassemble-joined =
      rw
        (
          u.decodes,
          u.row.resolved,
          nmemonic_syntax-found u.spec.nmemonic u.spec u.row.found,
          sym u.operands.fields,
        )
        (rw
          (print_fields-AreRead (length u.spec.syntax) u.operands.extra u.operands.reads
            (omega arith))
          refl)

  -- An instruction has at most three operands.
  pub three_texts : length u.operands.texts ≤ 3
  three_texts = omega (
    arith,
    AreRead-length u.operands.reads,
    AreRead-arity u.operands.reads,
    u.row.encodable.three,
  )

  instr_eq :
      record (u.instr) {
        opcode = u.spec.opcode;
        subcode = if u.spec.has_subcode then u.spec.subcode else 0;
      }
      ≡ u.instr
  instr_eq = ground (arith, u.row.opcode_eq, u.row.decoded_eq)

  spec_Fits : Fits (fmt_of u.spec.opcode) u.instr.field0 u.instr.field1 u.instr.field2
  spec_Fits = rw (sym u.row.opcode_eq) at u.fits

  -- The word of that text.
  pub assemble-values :
      (w' : ℕ) × (assemble u.spec.nmemonic u.operands.values ≡ ok w')
      × (decode_instruction w' ≡ decode_instruction w)
  assemble-values =
      let (w', e) = u.row.encodable.encodes u.operands.values (AreRead-arity u.operands.reads) in
      let (w'', e'', _, d'') =
        decode-assemble u.spec.nmemonic u.spec u.instr.field0 u.instr.field1 u.instr.field2
          u.row.found spec_Fits in
      let same =
        same_word u.spec.nmemonic u.spec u.operands.values u.operands.extra _ u.row.found
          u.operands.fields e e'' in
      (
        w',
        assemble-found u.spec.nmemonic u.operands.values u.spec u.row.found e,
        ap decode_instruction (sym same) ∙ d'' ∙ ap some instr_eq ∙ sym u.decodes,
      )

  -- The second pass on the line of that text.
  pub instruction_line-reads :
      (labels : List Labeldec) (linenum : ℕ) (p : Pass)
      → (w' : ℕ) × (instruction_line labels u.spec.nmemonic
            (instruction linenum u.spec.nmemonic u.operands.texts)
            p
          ≡ put_word w' (record p { syntax = some u.spec.syntax }))
        × (decode_instruction w' ≡ decode_instruction w)
  unfolding instruction_line
  instruction_line-reads labels linenum p =
      let (w', e, same) = assemble-values in
      (
        w',
        rw
            (
              set_syntax_known u.spec.nmemonic p u.spec u.row.found,
              operands-AreRead (length u.spec.syntax) p.offset labels u.operands.texts 0
                  u.operands.reads (omega arith) (omega (arith, three_texts))
                  (λ k. ap (get_elem? u.operands.texts) (omega arith)),
              e,
            )
            refl,
        same,
      )
