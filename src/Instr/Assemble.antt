-- ===== src/Instr/Assemble.antt =====
-- `nmemonic_syntax`, `assemble_instruction` and `resolve_nmemonic` of instructions.c.
pub mod Formats
pub mod Encodings
pub mod RoundTrip
pub mod Names
pub mod Extra
use cn.Common.{
  ◌>>=◌, ℕ, zero, suc, ◌+◌, ◌-◌, ◌*◌, Bool, true, false, not, ◌&&◌, Option, none, some, List, [],
  ◌∷◌, length, bit_and, bit_or, ◌==◌, leb, if◌then◌else◌,
}
use cn.Common.Words.{u16, ◌<<<◌}
use cn.Instr.{bitmask}
use cn.Instr.Table.{InstrSpec, instr_table}

abbrev to_lower : ℕ → ℕ
to_lower c = if leb b'A' c && leb c b'Z' then c + 32 else c

-- `strcasecmp(a, b) == 0`
unfoldable pub same_nmemonic : List ℕ → List ℕ → Bool
same_nmemonic [] [] = true
same_nmemonic (a ∷ xs) (b ∷ ys) = (to_lower a == to_lower b) && same_nmemonic xs ys
same_nmemonic _ _ = false

-- The search that opens the first two functions; `none` is the -1 at the end of the table.
unfoldable pub find_spec : List ℕ → List InstrSpec → Option InstrSpec
find_spec nmemonic [] = none
find_spec nmemonic (spec ∷ specs) =
    let rest = find_spec nmemonic specs in
    if same_nmemonic nmemonic spec.nmemonic then some spec else rest

unfoldable pub nmemonic_syntax : List ℕ → Option (List ℕ)
unfolding find_spec
nmemonic_syntax nmemonic = do spec ← find_spec nmemonic instr_table; some spec.syntax

-- `strtol(format, &format, 10)` on a text that begins with a digit or has no number: the value
-- and the text after it.
unfoldable pub strtol : ℕ → List ℕ → ℕ × List ℕ
strtol acc [] = (acc, [])
strtol acc (c ∷ text) =
    let rest = strtol (acc * 10 + (c - b'0')) text in
    if leb b'0' c && leb c b'9' then rest else (acc, c ∷ text)

-- One field of the format: `val` in the low `numbits` bits.
unfoldable pub put_field : ℕ → ℕ → ℕ → ℕ
put_field instr_local numbits val =
    u16 (bit_or (u16 (instr_local <<< numbits)) (bit_and val (bitmask numbits 0)))

-- The next of `fields`, or 0 for a blank.
unfoldable pub next_field : Bool → List ℕ → Option (ℕ × List ℕ)
next_field true fields = some (0, fields)
next_field false [] = none
next_field false (val ∷ fields) = some (val, fields)

-- The loop over the format. `none` is a failed `assert`, a read past the fields, or fuel that has
-- run out.
unfoldable pub put_fields : ℕ → List ℕ → List ℕ → ℕ → Option ℕ
unfolding next_field strtol
put_fields fuel [] fields instr_local = some instr_local
put_fields zero (c ∷ format) fields instr_local = none
put_fields (suc fuel) (c ∷ []) fields instr_local = none
put_fields (suc fuel) (c ∷ d ∷ format) fields instr_local = do
  (val, fields') ← next_field (c == b'_') fields
  let (numbits, format') = strtol 0 (d ∷ format)
  put_fields fuel format' fields' (put_field instr_local numbits val)

-- The part of `assemble_instruction` after the search.
unfoldable pub assemble_spec : InstrSpec → List ℕ → Option ℕ
unfolding put_fields
assemble_spec spec fields = do
  instr_local ← put_fields (length spec.format) spec.format fields spec.opcode
  some (
      if spec.has_subcode then u16 (bit_or (u16 (instr_local <<< 2)) spec.subcode) else instr_local)

unfoldable pub assemble_instruction : List ℕ → List ℕ → Option ℕ
unfolding find_spec assemble_spec
assemble_instruction nmemonic fields = do
  spec ← find_spec nmemonic instr_table
  assemble_spec spec fields

-- The first loop of `resolve_nmemonic`: the table from the first spec of the opcode on.
unfoldable pub from_opcode : ℕ → List InstrSpec → List InstrSpec
from_opcode opcode [] = []
from_opcode opcode (spec ∷ specs) =
    let rest = from_opcode opcode specs in if spec.opcode == opcode then spec ∷ specs else rest

-- The second loop, over the subcode.
unfoldable pub from_subcode : ℕ → List InstrSpec → List InstrSpec
from_subcode subcode [] = []
from_subcode subcode (spec ∷ specs) =
    let rest = from_subcode subcode specs in if spec.subcode == subcode then spec ∷ specs else rest

-- `none` is a failed `assert`.
unfoldable pub first_nmemonic : List InstrSpec → Option (List ℕ)
first_nmemonic [] = none
first_nmemonic (spec ∷ specs) = some spec.nmemonic

unfoldable pub resolve_from : ℕ → List InstrSpec → Option (List ℕ)
unfolding from_subcode first_nmemonic
resolve_from subcode [] = none
resolve_from subcode (spec ∷ specs) =
    first_nmemonic (if spec.has_subcode then from_subcode subcode (spec ∷ specs) else spec ∷ specs)

unfoldable pub resolve_nmemonic : ℕ → ℕ → Option (List ℕ)
unfolding from_opcode resolve_from
resolve_nmemonic opcode subcode = resolve_from subcode (from_opcode opcode instr_table)
