-- ===== src/Instr/Fields.antt =====
-- What `decode_instruction` yields, as arithmetic on the word.
use cn.Common.{ℕ, ◌+◌, ◌-◌, ◌/◌, ◌^◌, ◌≤◌, ◌<◌, ◌≡◌, arith, some, ltb, if◌then◌else◌, bit_and}
use cn.Common.Masks.{bit_and_mask}
use cn.Instr.{Decoded, fmt_of, sgnextend, decode_fields, decode_instruction}

-- The 32-bit pattern of the number that `n` bits stand for.
abbrev pub signed_field : ℕ → ℕ → ℕ
signed_field n v = if ltb v (2 ^ (n - 1)) then v else v + 2 ^ 32 - 2 ^ n

pub sgnextend-eleven : (v : ℕ) → v < 2 ^ 11 → sgnextend v 11 ≡ signed_field 11 v
unfolding sgnextend
sgnextend-eleven v h = ground arith

pub sgnextend-eight : (v : ℕ) → v < 2 ^ 8 → sgnextend v 8 ≡ signed_field 8 v
unfolding sgnextend
sgnextend-eight v h = ground arith

pub sgnextend-five : (v : ℕ) → v < 2 ^ 5 → sgnextend v 5 ≡ signed_field 5 v
unfolding sgnextend
sgnextend-five v h = ground arith

-- The ranges of the numbers that the core keeps from an instruction.
pub record HasNumbers (d : Decoded) : Type 0 where
  pub opcode : d.opcode < 32
  pub subcode : d.subcode < 4
  pub register : d.opcode ≤ 0x0E → d.field0 < 8
  pub address_register : 0x11 ≤ d.opcode → d.opcode ≤ 0x1B → d.field0 < 8
  pub control : 0x1E ≤ d.opcode → (d.field0 < 8) × (d.field1 < 32)
  pub coproc : 0x19 ≤ d.opcode → d.opcode ≤ 0x1B → (d.field1 < 8) × (d.field2 < 32)

module _ (instr : ℕ) {d : Decoded} where
  fmt_fields : (op : ℕ) → op < 32 → decode_fields (fmt_of op) op instr ≡ some d → HasNumbers d
  unfolding fmt_of decode_fields
  fmt_fields op h e =
      let m8 = bit_and_mask 3 (instr / 2 ^ 8) in
      let m5 = bit_and_mask 3 (instr / 2 ^ 5) in
      let q = bit_and_mask 5 instr in let c = bit_and_mask 2 instr in ground (arith, m8, m5, q, c)

  pub decode_instruction-HasNumbers : decode_instruction instr ≡ some d → HasNumbers d
  unfolding decode_instruction
  decode_instruction-HasNumbers e =
      fmt_fields (bit_and (instr / 2 ^ 11) 31) (omega (arith, bit_and_mask 5 (instr / 2 ^ 11))) e
