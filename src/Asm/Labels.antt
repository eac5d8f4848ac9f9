-- ===== src/Asm/Labels.antt =====
-- The two passes agree on where a line stands.
use cn.Common.{
  ℕ, ◌+◌, ◌≡◌, refl, ap, sym, ◌∙◌, arith, true, false, some, List, length, if◌then◌else◌,
  Bool-cases, Option-cases, inl, inr, get_elem?,
}
use cn.Common.Words.{u32}
use cn.Common.Outcome.{ok, defined, bind-ok}
use cn.Instr.Table.{codes}
use cn.Text.{same_text, strtol_int}
use cn.Text.Equality.{same_text-eq}
use cn.Asm.{Labeldec, Linedec, next_offset}
use cn.Asm.Opcodes.{
  Pass, put_word, data_line, data_word, operands, assemble, org_line, instruction_line, set_syntax,
  update_max, assemble_line, opcode_line,
}

-- The offset of pass 2 after a word.
put_word_offset :
    (word : ℕ) (p : Pass) {p' : Pass} → put_word word p ≡ ok p' → p'.offset ≡ u32 (p.offset + 1)
unfolding put_word
put_word_offset word p h = ground arith

update_max_offset : (p : Pass) {p' : Pass} → update_max p ≡ ok p' → p'.offset ≡ p.offset
unfolding update_max
update_max_offset p h = ground arith

data_line_offset :
    (labels : List Labeldec) (line : Linedec) (p : Pass) {p' : Pass}
    → data_line labels line p ≡ ok p'
    → p'.offset ≡ u32 (p.offset + 1)
unfolding data_line data_word
data_line_offset labels line p h = ground (arith, put_word_offset 0 p)

set_syntax_offset : (nmemonic : List ℕ) (p : Pass) → (set_syntax nmemonic p).offset ≡ p.offset
unfolding set_syntax
set_syntax_offset nmemonic p = ground arith

instruction_line_offset :
    (labels : List Labeldec) (nmemonic : List ℕ) (line : Linedec) (p : Pass) {p' : Pass}
    → instruction_line labels nmemonic line p ≡ ok p'
    → p'.offset ≡ u32 (p.offset + 1)
unfolding instruction_line
instruction_line_offset labels nmemonic line p h =
    let p' = set_syntax nmemonic p in
    let (syntax, _, h1) = bind-ok (defined p'.syntax) _ h in
    let (values, _, h2) =
      bind-ok (operands (length syntax) p.offset labels line.args 0 syntax) _ h1 in
    let (word, _, h3) = bind-ok (assemble nmemonic values) _ h2 in
    ground (arith, put_word_offset word p' h3, set_syntax_offset nmemonic p)

data_not_org :
    (nmemonic : List ℕ)
    → same_text nmemonic (codes ".data") ≡ true
    → same_text nmemonic (codes ".org") ≡ false
unfolding same_text
data_not_org nmemonic h = rw (same_text-eq nmemonic (codes ".data") h) refl

org_line_offset :
    (line : Linedec) (p : Pass) {p' : Pass}
    → org_line line p ≡ ok p'
    → (arg : List ℕ) × (get_elem? line.args 0 ≡ some arg) × (p'.offset ≡ strtol_int 0 arg)
unfolding org_line
org_line_offset line p h = elim (Option-cases (get_elem? line.args 0)) [
  | inl e ↦ absurd (ground arith)
  | inr (arg, e) ↦ (arg, e, ground arith)
]

module _ (labels : List Labeldec) (line : Linedec) (nmemonic : List ℕ) (p : Pass) where
  -- One line of `generate_opcodes` before `offset_max_update`.
  directive_offset :
      (q : Pass)
      → line.op ≡ some nmemonic
      → (if same_text nmemonic (codes ".data")
          then data_line labels line p
          else if same_text nmemonic (codes ".org")
          then org_line line p
          else instruction_line labels nmemonic line p)
        ≡ ok q
      → next_offset p.offset line ≡ ok q.offset
  unfolding next_offset
  directive_offset q e h = elim (Bool-cases (same_text nmemonic (codes ".data"))) [
    | inl d ↦
        rw (e, data_not_org nmemonic d) (ap ok (sym (data_line_offset labels line p (rw d at h))))
    | inr d ↦ elim (Bool-cases (same_text nmemonic (codes ".org"))) [
      | inl o ↦
          let (arg, ea, eo) = org_line_offset line p (rw (d, o) at h) in
          rw (e, o, ea) (ap ok (sym eo))
      | inr o ↦
          rw (e, o) (ap ok (sym (instruction_line_offset labels nmemonic line p (rw (d, o) at h))))
    ]
  ]

  assemble_line_offset :
      {p' : Pass}
      → line.op ≡ some nmemonic
      → assemble_line labels line nmemonic p ≡ ok p'
      → next_offset p.offset line ≡ ok p'.offset
  unfolding assemble_line
  assemble_line_offset e h =
      let (q, h1, h2) = bind-ok _ update_max h in
      directive_offset q e h1 ∙ ap ok (sym (update_max_offset q h2))

-- Both passes move the offset alike over a line that the second one accepts.
pub opcode_line_offset :
    (labels : List Labeldec) (line : Linedec) (p : Pass) {p' : Pass}
    → opcode_line labels line p ≡ ok p'
    → next_offset p.offset line ≡ ok p'.offset
unfolding opcode_line
opcode_line_offset labels line p h = elim (Option-cases line.op) [
  | inl e ↦ let same = (rw e at h) in unfold next_offset in rw e (cc)
  | inr (nmemonic, e) ↦ assemble_line_offset labels line nmemonic p e (rw e at h)
]
