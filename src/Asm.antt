-- ===== src/Asm.antt =====
-- The two passes of the assembler, asm.c: `generate_labels` and `generate_opcodes` over the
-- lines that Asm/Tokens makes of the input.
pub mod Tokens
mod Tests
pub mod Opcodes
pub mod Labels
pub mod Resolve
pub mod Unresolved
pub mod Arity
pub mod Readable
pub mod Bounds
use cn.Common.{
  ℕ, zero, suc, ◌+◌, ◌-◌, ◌^◌, Bool, true, false, ◌||◌, not, Option, none, some, List, [], ◌∷◌,
  ◌++◌, length, get_elem?, take, update, ltb, leb, ◌==◌, if◌then◌else◌, bit_and,
}
use cn.Common.Words.{u16, u32}
use cn.Common.Outcome.{Outcome, ok, failed, undefined, ◌>>=◌, ◌>>◌, defined, assert, fail_if}
use cn.Instr.{sra32}
use cn.Instr.Table.{codes, instr_table}
use cn.Instr.Assemble.{find_spec, assemble_spec, nmemonic_syntax, strtol}
use cn.Text.{first, after_first, same_text, strtol_int, int_gt, int_lt_neg}

abbrev pub max_words : ℕ
max_words = 65536

-- `labeldec_t` and `linedec_t`. The members `next` are the order of the lists; the members of
-- `args` that are not null come first.
pub record Labeldec : Type 0 where
  pub name : List ℕ
  pub offset : ℕ

pub record Linedec : Type 0 where
  pub linenum : ℕ
  pub label : Option (List ℕ)
  pub op : Option (List ℕ)
  pub args : List (List ℕ)

abbrev pub is_null {ℓ} : {A : Type ℓ} → Option A → Bool
is_null none = true
is_null (some a) = false

-- `op != NULL && strcmp(op, name) == 0`
abbrev pub op_is : Linedec → List ℕ → Bool
op_is line name = elim line.op [ none ↦ false | some op ↦ same_text op name ]

-- `offset` after a line of `generate_labels`, an `unsigned int`.
unfoldable pub next_offset : ℕ → Linedec → Outcome ℕ
next_offset offset line =
    if op_is line (codes ".org")
    then (do arg ← defined (get_elem? line.args 0); ok (strtol_int 0 arg))
    else ok (if is_null line.op then offset else u32 (offset + 1))

-- The label that a line of `generate_labels` appends, if any. A line with neither has no name to
-- copy.
unfoldable pub new_label : ℕ → Linedec → Outcome (List Labeldec)
new_label offset line = if op_is line (codes ".org") then ok [] else elim line.label [
  | none ↦ if is_null line.op then undefined else ok []
  | some name ↦ ok (record { name = name; offset = offset } ∷ [])
]

-- The loop of `generate_labels`.
unfoldable pub generate_labels : ℕ → List Linedec → Outcome (List Labeldec)
unfolding next_offset new_label
generate_labels offset [] = ok []
generate_labels offset (line ∷ lines) = do
  labels ← new_label offset line
  offset' ← next_offset offset line
  rest ← generate_labels offset' lines
  ok (labels ++ rest)

abbrev cut_before : ℕ → List ℕ → List ℕ × Option (List ℕ) → List ℕ × Option (List ℕ)
cut_before c text (label, some suffix) = (c ∷ label, some suffix)
cut_before c text (label, none) = if c == b'.' then ([], some text) else (c ∷ label, none)

-- The text before its last dot, and what follows that.
unfoldable pub cut_dot : List ℕ → List ℕ × Option (List ℕ)
cut_dot [] = ([], none)
cut_dot (c ∷ text) = cut_before c text (cut_dot text)

-- `ret` after the loop over the labels.
unfoldable pub lookup_label : List ℕ → List Labeldec → ℕ
lookup_label name [] = 2 ^ 32 - 1
lookup_label name (l ∷ labels) =
    let rest = lookup_label name labels in if same_text name l.name then l.offset else rest

-- The `h` or `l` after the dot.
unfoldable pub select_byte : Option (List ℕ) → ℕ → ℕ
select_byte none ret = ret
select_byte (some suffix) ret =
    let high = if first suffix == b'h' then sra32 ret 8 else ret in
    if first suffix == b'l' then bit_and high 0xFF else high

unfoldable pub find_offset : List ℕ → List Labeldec → ℕ
unfolding cut_dot lookup_label select_byte
find_offset find labels =
    let (label, suffix) = cut_dot (take 255 find) in select_byte suffix (lookup_label label labels)

-- The difference is taken modulo 2^32, also where the `int` overflows.
unfoldable pub find_reloff : ℕ → List ℕ → List Labeldec → ℕ
unfolding find_offset
find_reloff cur_off find labels =
    let found = find_offset find labels in
    if found == 2 ^ 32 - 1 then max_words + 1 else u32 (found + 2 ^ 32 - cur_off)

-- The cases `c`, `q`, `r` and `x`: a letter and a number of at most `limit`.
unfoldable pub register_operand : ℕ → ℕ → Option (List ℕ) → Outcome ℕ
register_operand letter limit arg = do
  text ← defined arg
  fail_if (not (first text == letter))
  let value = strtol_int 10 (after_first text)
  fail_if (int_gt value limit)
  ok value

-- The case `s`.
unfoldable pub signed_operand : ℕ → List Labeldec → ℕ → Option (List ℕ) → Outcome ℕ
signed_operand offset labels numbits arg = do
  text ← defined arg
  value ←
      (if first text == b'%'
        then ok (find_reloff offset (after_first text) labels)
        else if first text == b'#'
        then ok (strtol_int 0 (after_first text))
        else failed)
  fail_if (int_gt value (2 ^ (numbits - 1) - 1) || int_lt_neg value (2 ^ (numbits - 1)))
  ok value

-- The case `u`.
unfoldable pub unsigned_operand : List Labeldec → ℕ → Option (List ℕ) → Outcome ℕ
unsigned_operand labels numbits arg = do
  text ← defined arg
  value ←
      (if first text == b'@'
        then ok (find_offset (after_first text) labels)
        else if first text == b'#'
        then ok (strtol_int 0 (after_first text))
        else failed)
  fail_if (int_gt value (2 ^ numbits - 1))
  ok value

-- The switch over the letter `c` of the syntax: the value, and the rest of the syntax.
unfoldable pub operand : ℕ → List Labeldec → ℕ → List ℕ → Option (List ℕ) → Outcome (ℕ × List ℕ)
operand offset labels c syntax arg =
    let (numbits, rest) = strtol 0 syntax in
    if c == b'c'
    then (do value ← register_operand b'c' 0x7 arg; ok (value, syntax))
    else if c == b'q'
    then (do value ← register_operand b'q' 0x1F arg; ok (value, syntax))
    else if c == b'r'
    then (do value ← register_operand b'r' 0x7 arg; ok (value, syntax))
    else if c == b's'
    then (do value ← signed_operand offset labels numbits arg; ok (value, rest))
    else if c == b'u'
    then (do value ← unsigned_operand labels numbits arg; ok (value, rest))
    else if c == b'x'
    then (do value ← register_operand b'x' 0x1F arg; ok (value, syntax))
    else failed
