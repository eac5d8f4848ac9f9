-- ===== src/Core/Compute.antt =====
-- Opcodes 0x00 to 0x0D of `sim_core_exec`: register and immediate computation. A switch over a
-- two-bit subcode takes its last case where the first three tests fail.
use cn.Common.{◌>>=◌, ℕ, ◌==◌, if◌then◌else◌, bit_or}
use cn.Common.Words.{u16, ◌<<<◌}
use cn.Instr.{Decoded}
use cn.Core.{State, Output, gprup}
use cn.Core.Alu.{
  AluOp, or, nand, and, xor, add, sub, addc, subc, shl, shr, shra, rot, shl8or, alu_exec,
}
use cn.Core.Regs.{gpreg_read, Stage, finish}

abbrev alu_bit_op : ℕ → AluOp
alu_bit_op subcode =
    if subcode == 0x0
    then or
    else if subcode == 0x1
    then nand
    else if subcode == 0x2
    then and
    else xor

abbrev alu_math_op : ℕ → AluOp
alu_math_op subcode =
    if subcode == 0x0
    then add
    else if subcode == 0x1
    then sub
    else if subcode == 0x2
    then addc
    else subc

abbrev pub alu_shift_op : ℕ → AluOp
alu_shift_op subcode =
    if subcode == 0x0
    then shl
    else if subcode == 0x1
    then shr
    else if subcode == 0x2
    then shra
    else rot

-- `inter.regnum`, `inter.regval` and `inter.type` for a register update.
abbrev pub gpr_update : State → ℕ → ℕ → State
gpr_update s r v = record s { regnum = r; regval = v; type = gprup }

-- Opcodes 0x00, 0x01 and 0x02: two registers into a third.
unfoldable pub exec_alu : AluOp → Decoded → State → Output → Stage
exec_alu op d s output = do
  x ← gpreg_read s d.field1
  y ← gpreg_read s d.field2
  r ← alu_exec op x y
  finish (gpr_update s d.field0 r) output

-- Opcode 0x03: a register is shifted by a constant.
unfoldable pub exec_shift_immed : Decoded → State → Output → Stage
exec_shift_immed d s output = do
  x ← gpreg_read s d.field0
  r ← alu_exec (alu_shift_op d.subcode) x (u16 d.field1)
  finish (gpr_update s d.field0 r) output

-- Opcodes 0x05 to 0x0D: operation and second operand.
abbrev immed_op : ℕ → AluOp
immed_op opcode =
    if opcode == 0x05
    then shl8or
    else if opcode == 0x06
    then add
    else if opcode == 0x07
    then sub
    else if opcode == 0x08
    then or
    else if opcode == 0x09
    then and
    else if opcode == 0x0A
    then xor
    else if opcode == 0x0B
    then or
    else if opcode == 0x0C
    then and
    else xor

abbrev pub immed_arg : ℕ → ℕ → ℕ
immed_arg opcode field =
    if opcode == 0x09
    then u16 (bit_or field (0xFF <<< 8))
    else if opcode == 0x0B
    then u16 (field <<< 8)
    else if opcode == 0x0C
    then u16 (bit_or (field <<< 8) 0xFF)
    else if opcode == 0x0D
    then u16 (field <<< 8)
    else u16 field

unfoldable pub exec_immed : Decoded → State → Output → Stage
exec_immed d s output = do
  x ← gpreg_read s d.field0
  r ← alu_exec (immed_op d.opcode) x (immed_arg d.opcode d.field1)
  finish (gpr_update s d.field0 r) output

-- Opcode 0x04.
unfoldable pub exec_li : Decoded → State → Output → Stage
exec_li d s output = finish (gpr_update s d.field0 (u16 d.field1)) output

unfoldable pub exec_compute : Decoded → State → Output → Stage
unfolding exec_alu exec_shift_immed exec_immed exec_li
exec_compute d s output =
    if d.opcode == 0x00
    then exec_alu (alu_bit_op d.subcode) d s output
    else if d.opcode == 0x01
    then exec_alu (alu_math_op d.subcode) d s output
    else if d.opcode == 0x02
    then exec_alu (alu_shift_op d.subcode) d s output
    else if d.opcode == 0x03
    then exec_shift_immed d s output
    else if d.opcode == 0x04
    then exec_li d s output
    else exec_immed d s output
