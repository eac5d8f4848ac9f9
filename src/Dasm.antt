-- ===== src/Dasm.antt =====
-- The disassembler, dasm.c: `disassemble` and the loop of `main` over the words.
mod Tests
pub mod Numbers
pub mod Operands
pub mod Fields
pub mod Rows
pub mod Words
pub mod Instructions
pub mod Lines
pub mod Reassemble
pub mod RoundTrip
use cn.Common.{
  ℕ, zero, suc, ◌+◌, ◌-◌, ◌/◌, ◌%◌, ◌^◌, Bool, true, false, not, ◌||◌, Option, none, some, List, [],
  ◌∷◌, ◌++◌, length, ltb, ◌==◌, if◌then◌else◌,
}
use cn.Common.Words.{u32}
use cn.Common.Outcome.{Outcome, ok, failed, undefined, ◌>>=◌, defined}
use cn.Instr.{Decoded, decode_instruction}
use cn.Instr.Table.{codes}
use cn.Instr.Assemble.{nmemonic_syntax, resolve_nmemonic, strtol}

-- The decimal digits of a number of at most `fuel` digits.
unfoldable pub decimal : ℕ → ℕ → List ℕ
decimal zero n = []
decimal (suc fuel) n =
    let more = decimal fuel (n / 10) in
    if ltb n 10 then (b'0' + n) ∷ [] else more ++ (b'0' + n % 10) ∷ []

-- `%u`: 2 ^ 32 has ten digits.
unfoldable pub print_unsigned : ℕ → List ℕ
unfolding decimal
print_unsigned n = decimal 10 n

-- `%d` of the pattern of an `int`.
unfoldable pub print_signed : ℕ → List ℕ
unfolding print_unsigned
print_signed n = if ltb n (2 ^ 31) then print_unsigned n else b'-' ∷ print_unsigned (2 ^ 32 - n)

abbrev pub hex_digit : ℕ → ℕ
hex_digit n = if ltb n 10 then b'0' + n else b'a' + (n - 10)

-- `0x%4.4x` of a word.
abbrev pub print_word : ℕ → List ℕ
print_word w =
    codes "0x"
    ++ hex_digit (w / 2 ^ 12 % 16)
      ∷ hex_digit (w / 2 ^ 8 % 16)
      ∷ hex_digit (w / 2 ^ 4 % 16)
      ∷ hex_digit (w % 16)
      ∷ []

-- The switch over the letter `c` of the syntax: what is printed, and the rest of the syntax.
unfoldable pub print_field : ℕ → List ℕ → ℕ → Outcome (List ℕ × List ℕ)
unfolding print_unsigned print_signed
print_field c syntax field =
    let (numbits, rest) = strtol 0 syntax in
    if c == b'c' || c == b'q' || c == b'r' || c == b'x'
    then ok (c ∷ print_unsigned field, syntax)
    else if c == b's'
    then ok (b'#' ∷ print_signed field, rest)
    else if c == b'u'
    then ok (b'#' ∷ print_unsigned field, rest)
    else failed

abbrev pub separator : List ℕ → List ℕ
separator [] = []
separator (c ∷ syntax) = codes ", "

-- The loop over the syntax, which takes a field for each letter; beyond the three of `fields` it
-- is undefined. Every letter takes fuel.
unfoldable pub print_fields : ℕ → List ℕ → List ℕ → Outcome (List ℕ)
unfolding print_field
print_fields fuel [] fields = ok []
print_fields zero (c ∷ syntax) fields = undefined
print_fields (suc fuel) (c ∷ syntax) [] = undefined
print_fields (suc fuel) (c ∷ syntax) (field ∷ fields) = do
  (text, rest) ← print_field c syntax field
  more ← print_fields fuel rest fields
  ok (text ++ (separator rest ++ more))

-- `disassemble`, for a buffer that holds the text. What a failed call would leave unset is
-- undefined.
unfoldable pub disassemble : ℕ → Outcome (List ℕ)
unfolding print_fields
disassemble instr = do
  d ← defined (decode_instruction instr)
  nmemonic ← defined (resolve_nmemonic d.opcode d.subcode)
  syntax ← defined (nmemonic_syntax nmemonic)
  operands ← print_fields (length syntax) syntax (d.field0 ∷ d.field1 ∷ d.field2 ∷ [])
  ok (nmemonic ++ (codes " " ++ operands))

-- The members `datamode` and `comment` of `cli_opts`, and what `main` prints for a word.
unfoldable pub print_line : Bool → Bool → ℕ → Outcome (List ℕ)
unfolding disassemble
print_line datamode comment word = do
  text ← (if datamode then ok (codes ".data " ++ print_word word) else disassemble word)
  remark ←
      (if comment
        then (if datamode
            then (do instr ← disassemble word; ok (codes " ; " ++ instr))
            else ok (codes " ; " ++ print_word word))
        else ok [])
  ok (text ++ (remark ++ 10 ∷ []))

-- `--n` of an `int`.
abbrev decrement : ℕ → ℕ
decrement n = u32 (n + 2 ^ 32 - 1)

-- The loop of `main` over the words of the input, with the members `start` and `len` of `opts`. An
-- input with an odd byte at its end is left out.
unfoldable pub print_lines : Bool → Bool → ℕ → ℕ → List ℕ → Outcome (List ℕ)
unfolding print_line
print_lines datamode comment start len [] = ok []
print_lines datamode comment start len (word ∷ words) =
    let passed = not (start == 0) || len == 0 in
    let start' = if start == 0 then start else decrement start in
    let rest = print_lines datamode comment start' (if passed then len else decrement len) words in
    let printed = (do line ← print_line datamode comment word; lines ← rest; ok (line ++ lines)) in
    if passed then rest else printed
