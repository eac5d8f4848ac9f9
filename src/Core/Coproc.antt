-- ===== src/Core/Coproc.antt =====
-- Opcodes 0x19 to 0x1B of `sim_core_exec`: the coprocessor bus.
use cn.Common.{◌>>=◌, ℕ, ◌==◌, if◌then◌else◌, bit_and}
use cn.Common.Words.{u8, ◌<<<◌}
use cn.Instr.{Decoded}
use cn.Core.{State, Output, CpOutput, read, write, exec, cpread, branch, umcpen, privophdl}
use cn.Core.Regs.{gpreg_read, in_user_mode, is_set, take_trap, Stage, finish}

-- `! cpmask & umcpen`: C applies the `!` first.
unfoldable pub cp_denied : Decoded → State → ℕ
cp_denied d s =
    let cpmask = u8 (0x1 <<< d.field1) in bit_and (if cpmask == 0 then 1 else 0) (s.ctl umcpen)

-- The check that opens the three cases.
unfoldable pub with_coproc : Decoded → State → Output → Stage → Stage
unfolding cp_denied
with_coproc d s output allowed =
    if in_user_mode s
    then (if is_set (cp_denied d s)
        then finish (take_trap (record s { nextpc = s.ctl privophdl })) output
        else allowed)
    else allowed

abbrev pub bus : Output → CpOutput → Output
bus output c = record output { coproc = c }

-- mfcp
unfoldable pub exec_mfcp : Decoded → State → Output → Stage
unfolding with_coproc
exec_mfcp d s output = with_coproc d s output (
    finish (record s { type = cpread; regnum = d.field0 })
      (bus output (record (output.coproc) { select = u8 d.field1; op = read; addr = u8 d.field2 })))

-- mtcp
unfoldable pub exec_mtcp : Decoded → State → Output → Stage
unfolding with_coproc
exec_mtcp d s output = with_coproc d s output (do
  x ← gpreg_read s d.field0
  finish (record s { type = branch })
      (bus output (record { select = u8 d.field1; op = write; addr = u8 d.field2; value = x })))

-- cpop
unfoldable pub exec_cpop : Decoded → State → Output → Stage
unfolding with_coproc
exec_cpop d s output = with_coproc d s output (do
  x ← gpreg_read s d.field0
  finish (record s { type = branch })
      (bus output (record (output.coproc) { select = u8 d.field1; op = exec; value = x })))

unfoldable pub exec_coproc : Decoded → State → Output → Stage
unfolding exec_mfcp exec_mtcp exec_cpop
exec_coproc d s output =
    if d.opcode == 0x19
    then exec_mfcp d s output
    else if d.opcode == 0x1A
    then exec_mtcp d s output
    else exec_cpop d s output
