-- ===== src/Asm/Tests.antt =====
-- Small sources, and the theorems about the passes applied to them.
use cn.Common.{ℕ, ◌≡◌, ◌≢◌, refl, arith, Option, none, some, List, [], ◌∷◌}
use cn.Common.Outcome.{ok, failed}
use cn.Instr.Table.{codes}
use cn.Text.{same_text, strtol_int}
use cn.Asm.{Labeldec, Linedec, generate_labels, find_offset, signed_operand, unsigned_operand}
use cn.Asm.Opcodes.{Pass, start, opcode_lines}
use cn.Asm.Resolve.{IsPlain, find_offset-opcode_lines}
use cn.Asm.Unresolved.{operand-missing}
use cn.Asm.Tokens.{tokenize}
use cn.Asm.Tokens.Total.{tokenize-some}

abbrev blank : ℕ → ℕ
blank i = 0

-- `a: .data #7`
abbrev first_line : Linedec
first_line = record {
  linenum = 1;
  label = some (codes "a");
  op = some (codes ".data");
  args = codes "#7" ∷ [];
}

-- `b: .data @a`
abbrev second_line : Linedec
second_line = record {
  linenum = 2;
  label = some (codes "b");
  op = some (codes ".data");
  args = codes "@a" ∷ [];
}

abbrev labels : List Labeldec
labels = record { name = codes "a"; offset = 0 } ∷ record { name = codes "b"; offset = 1 } ∷ []

labels_found : generate_labels 0 (first_line ∷ second_line ∷ []) ≡ ok labels
unfolding generate_labels same_text
labels_found = refl

first_run :
    (p : Pass) × (opcode_lines labels (first_line ∷ []) (start blank) ≡ ok p) × (p.offset ≡ 1)
unfolding opcode_lines same_text strtol_int
first_run = (_, refl, refl)

a_not_b : ◌≢◌ {A = Option (List ℕ)} (some (codes "a")) (some (codes "b"))
a_not_b = ground arith

b_IsPlain : IsPlain (codes "b")
b_IsPlain = record { no_dot = (ground arith, tt); short = omega arith }

find_offset-opcode_lines_example : find_offset (codes "b") labels ≡ first_run.0.offset
unfolding same_text
find_offset-opcode_lines_example =
    find_offset-opcode_lines (codes "b") second_line [] labels refl refl (first_line ∷ []) blank
      b_IsPlain (a_not_b, tt) labels_found first_run.1

-- `.org 0x10`
abbrev org_line : Linedec
org_line = record { linenum = 1; label = none; op = some (codes ".org"); args = codes "0x10" ∷ [] }

-- `add r1, r2, r3`
abbrev add_line : Linedec
add_line = record {
  linenum = 2;
  label = none;
  op = some (codes "add");
  args = codes "r1" ∷ codes "r2" ∷ codes "r3" ∷ [];
}

operand-missing_example :
    (signed_operand 0 labels 8 (some (codes "%loop")) ≡ failed)
    × (unsigned_operand labels 8 (some (codes "@loop")) ≡ ok 0xFFFFFFFF)
operand-missing_example =
    operand-missing (codes "loop") labels (record { no_dot = ground arith; short = omega arith })
      (ground arith, (ground arith, tt)) 0 8 (omega arith)

tokenize-some_example : (lines : List Linedec) × (tokenize 0 (codes "a: sleep") ≡ some lines)
tokenize-some_example = tokenize-some 0 (codes "a: sleep")
