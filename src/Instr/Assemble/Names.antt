-- ===== src/Instr/Assemble/Names.antt =====
-- The nmemonic of an opcode and a subcode.
use cn.Common.{◌≡◌, refl, some, All, ◌&◌}
use cn.Instr.Table.{instr_table}
use cn.Instr.Assemble.{from_opcode, from_subcode, first_nmemonic, resolve_from, resolve_nmemonic}

-- `resolve_nmemonic` gives every row of the table back from its opcode and subcode.
pub resolve_nmemonic-All :
    All (λ spec. resolve_nmemonic spec.opcode spec.subcode ≡ some spec.nmemonic) instr_table
unfolding instr_table resolve_nmemonic from_opcode from_subcode first_nmemonic resolve_from
resolve_nmemonic-All =
    refl & refl & refl & refl & refl & refl & refl & refl & refl & refl & refl & refl & refl & refl
    & refl & refl & refl & refl & refl & refl & refl & refl & refl & refl & refl & refl & refl
    & refl & refl & refl & refl & refl & refl & refl & refl & refl & refl & refl & refl & refl
    & refl & refl & refl & refl & tt
