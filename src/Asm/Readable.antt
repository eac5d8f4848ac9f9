-- ===== src/Asm/Readable.antt =====
-- What the second pass does to its buffer at a line.
use cn.Common.{
  ℕ, ◌^◌, ◌≤◌, ◌<◌, ◌≡◌, arith, true, false, none, some, List, length, get_elem?, if_branches, ltb,
  leb, ◌==◌, Bool-cases, Option-cases, inl, inr, ◌⊎◌,
}
use cn.Common.Words.{u16}
use cn.Common.Outcome.{ok, failed, defined, Defined, bind-Defined}
use cn.Instr.Table.{codes, InstrSpec, instr_table}
use cn.Instr.Assemble.{find_spec, assemble_spec, nmemonic_syntax}
use cn.Instr.Assemble.RoundTrip.{find_spec-All}
use cn.Text.{first, after_first, int_gt, same_text, strtol_int}
use cn.Asm.{Labeldec, Linedec, max_words, find_offset}
use cn.Asm.Arity.{arity, operands-Defined}
use cn.Asm.Arity.Table.{IsEncodable, table_IsEncodable}
use cn.Asm.Opcodes.{
  Pass, put_word, data_line, data_word, org_line, assemble, operands, instruction_line, set_syntax,
  update_max,
}

-- A line that the pass can work on: the address of an `.org` is not negative, a nmemonic is in the
-- table, and it has as many arguments as its syntax asks for.
pub record IsReadable (line : Linedec) : Type 0 where
  pub origin :
      (op arg : List ℕ)
      → line.op ≡ some op
      → same_text op (codes ".org") ≡ true
      → get_elem? line.args 0 ≡ some arg
      → strtol_int 0 arg < 2 ^ 31
  pub known :
      (op : List ℕ)
      → line.op ≡ some op
      → same_text op (codes ".data") ≡ false
      → same_text op (codes ".org") ≡ false
      → (spec : InstrSpec) × (find_spec op instr_table ≡ some spec)
        × (arity false spec.syntax ≤ length line.args)

-- Between two lines: the next word is within the buffer, and beyond the highest one the buffer is
-- as it was.
pub record IsWithin (outbuf : ℕ → ℕ) (p : Pass) : Type 0 where
  pub ordered : p.offset ≤ p.offset_max
  pub limited : p.offset_max < max_words
  pub untouched : (i : ℕ) → p.offset_max ≤ i → p.outbuf i ≡ outbuf i

-- The same before `offset_max_update`.
pub record IsWritten (outbuf : ℕ → ℕ) (p : Pass) : Type 0 where
  pub int : p.offset < 2 ^ 31
  pub limited : p.offset_max < max_words
  pub untouched : (i : ℕ) → p.offset_max ≤ i → p.offset ≤ i → p.outbuf i ≡ outbuf i

org_line-failed :
    (line : Linedec) (p : Pass) → get_elem? line.args 0 ≡ none → org_line line p ≡ failed
unfolding org_line
org_line-failed line p e = ground arith

org_line-ok :
    (line : Linedec) (p : Pass) (arg : List ℕ)
    → get_elem? line.args 0 ≡ some arg
    → org_line line p ≡ ok (record p { offset = strtol_int 0 arg })
unfolding org_line
org_line-ok line p arg e = ground arith

data_line_cases :
    (labels : List Labeldec) (line : Linedec) (p : Pass)
    → (data_line labels line p ≡ failed)
      ⊎ ((word : ℕ) × (data_line labels line p ≡ put_word word p))
unfolding data_line data_word
data_line_cases labels line p = elim (Option-cases (get_elem? line.args 0)) [
  | inl e ↦ inl (ground arith)
  | inr (arg, e) ↦ elim (Bool-cases (first arg == b'#')) [
    | inl hash ↦ inr (u16 (strtol_int 0 (after_first arg)), ground arith)
    | inr other ↦ elim (Bool-cases (first arg == b'@')) [
      | inl at ↦ inr (u16 (find_offset (after_first arg) labels), ground arith)
      | inr neither ↦ inl (ground arith)
    ]
  ]
]

pub set_syntax_known :
    (nmemonic : List ℕ) (p : Pass) (spec : InstrSpec)
    → find_spec nmemonic instr_table ≡ some spec
    → set_syntax nmemonic p ≡ record p { syntax = some spec.syntax }
unfolding set_syntax nmemonic_syntax
set_syntax_known nmemonic p spec e = ground arith

assemble_known :
    (nmemonic values : List ℕ) (spec : InstrSpec)
    → find_spec nmemonic instr_table ≡ some spec
    → assemble nmemonic values ≡ defined (assemble_spec spec values)
unfolding assemble
assemble_known nmemonic values spec e = ground arith

module _ (outbuf : ℕ → ℕ) where
  put_word-IsWritten :
      (word : ℕ) (p : Pass) → IsWithin outbuf p → Defined (IsWritten outbuf) (put_word word p)
  unfolding put_word
  put_word-IsWritten word p h =
      let inside : ltb p.offset max_words ≡ true = ground arith in
      rw inside (record {
        int = omega arith;
        limited = h.limited;
        untouched = λ i above next. ground (arith, h.untouched i);
      })

  pub update_max-IsWithin :
      (p : Pass) → IsWritten outbuf p → Defined (IsWithin outbuf) (update_max p)
  unfolding update_max
  update_max-IsWithin p h =
      if_branches (Defined (IsWithin outbuf)) (int_gt p.offset p.offset_max) _ _
        (λ more.
          if_branches (Defined (IsWithin outbuf)) (leb max_words p.offset) _ _ (λ _. tt)
            λ room. record {
              ordered = omega arith;
              limited = ground arith;
              untouched = λ i above. h.untouched i (ground arith) above;
            })
        λ less.
          let ordered : p.offset ≤ p.offset_max = ground arith in
          record {
            ordered = ordered;
            limited = h.limited;
            untouched = λ i above. h.untouched i above (omega arith);
          }

  -- Nothing is written by a line that only moves the offset.
  IsWithin-IsWritten : (p : Pass) → IsWithin outbuf p → IsWritten outbuf p
  IsWithin-IsWritten p h = record {
    int = omega arith;
    limited = h.limited;
    untouched = λ i above _. h.untouched i above;
  }

  pub data_line-IsWritten :
      (labels : List Labeldec) (line : Linedec) (p : Pass)
      → IsWithin outbuf p
      → Defined (IsWritten outbuf) (data_line labels line p)
  data_line-IsWritten labels line p h = elim (data_line_cases labels line p) [
    | inl e ↦ rw e tt
    | inr (word, e) ↦ rw e (put_word-IsWritten word p h)
  ]

  pub org_line-IsWritten :
      (line : Linedec) (p : Pass)
      → ((arg : List ℕ) → get_elem? line.args 0 ≡ some arg → strtol_int 0 arg < 2 ^ 31)
      → IsWithin outbuf p
      → Defined (IsWritten outbuf) (org_line line p)
  org_line-IsWritten line p origin h = elim (Option-cases (get_elem? line.args 0)) [
    | inl e ↦ rw (org_line-failed line p e) tt
    | inr (arg, e) ↦ rw (org_line-ok line p arg e) (record {
      int = origin arg e;
      limited = h.limited;
      untouched = λ i above _. h.untouched i above;
    })
  ]

  pub instruction_line-IsWritten :
      (labels : List Labeldec) (nmemonic : List ℕ) (line : Linedec) (p : Pass) (spec : InstrSpec)
      → find_spec nmemonic instr_table ≡ some spec
      → arity false spec.syntax ≤ length line.args
      → IsWithin outbuf p
      → Defined (IsWritten outbuf) (instruction_line labels nmemonic line p)
  unfolding instruction_line
  instruction_line-IsWritten labels nmemonic line p spec e enough h =
      let row = find_spec-All IsEncodable nmemonic instr_table spec table_IsEncodable e in
      rw (set_syntax_known nmemonic p spec e) (
        bind-Defined (λ values. length values ≡ arity false spec.syntax) _
          (operands (length spec.syntax) p.offset labels line.args 0 spec.syntax) _
          (operands-Defined (length spec.syntax) p.offset labels line.args 0 spec.syntax
            (omega arith) (omega (arith, row.three)) (omega arith))
          λ values _ sized.
            let (word, ew) = row.encodes values sized in
            rw (assemble_known nmemonic values spec e, ew)
              (put_word-IsWritten word (record p { syntax = some spec.syntax })
                (record { ordered = h.ordered; limited = h.limited; untouched = h.untouched })))
