-- ===== src/Core/Branch.antt =====
-- Opcodes 0x0F to 0x14 of `sim_core_exec`.
use cn.Common.{◌>>=◌, ◌+◌, ◌==◌, if◌then◌else◌, not}
use cn.Common.Words.{u16}
use cn.Instr.{Decoded}
use cn.Core.{State, Output, gprup, branch, brlink}
use cn.Core.Alu.{add, alu_exec}
use cn.Core.Regs.{gpreg_read, Stage, finish}

-- ba
unfoldable pub exec_ba : Decoded → State → Output → Stage
exec_ba d s output = do
  n ← alu_exec add s.pc (u16 d.field0)
  finish (record s { type = branch; nextpc = n }) output

-- bal
unfoldable pub exec_bal : Decoded → State → Output → Stage
exec_bal d s output = do
  n ← alu_exec add s.pc (u16 d.field0)
  finish (record s { regnum = 7; regval = u16 (s.pc + 1); nextpc = n; type = gprup }) output

-- The branch of bz and bnz that is taken.
abbrev pub branch_taken : Decoded → State → Output → Stage
branch_taken d s output = do
  n ← alu_exec add (u16 d.field1) s.pc
  finish (record s { nextpc = n; type = branch }) output

-- bz
unfoldable pub exec_bz : Decoded → State → Output → Stage
exec_bz d s output = do
  x ← gpreg_read s d.field0
  if x == 0 then branch_taken d s output else finish (record s { type = branch }) output

-- bnz
unfoldable pub exec_bnz : Decoded → State → Output → Stage
exec_bnz d s output = do
  x ← gpreg_read s d.field0
  if not (x == 0) then branch_taken d s output else finish (record s { type = branch }) output

-- jr
unfoldable pub exec_jr : Decoded → State → Output → Stage
exec_jr d s output = do
  x ← gpreg_read s d.field0
  n ← alu_exec add x (u16 d.field1)
  finish (record s { nextpc = n; type = branch }) output

-- jlr
unfoldable pub exec_jlr : Decoded → State → Output → Stage
exec_jlr d s output = do
  x ← gpreg_read s d.field0
  n ← alu_exec add x (u16 d.field1)
  finish (record s { regval = u16 (s.pc + 1); regnum = 7; nextpc = n; type = brlink }) output

unfoldable pub exec_branch : Decoded → State → Output → Stage
unfolding exec_ba exec_bal exec_bz exec_bnz exec_jr exec_jlr
exec_branch d s output =
    if d.opcode == 0x0F
    then exec_ba d s output
    else if d.opcode == 0x10
    then exec_bal d s output
    else if d.opcode == 0x11
    then exec_bz d s output
    else if d.opcode == 0x12
    then exec_bnz d s output
    else if d.opcode == 0x13
    then exec_jr d s output
    else exec_jlr d s output
