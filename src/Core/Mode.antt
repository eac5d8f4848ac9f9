-- ===== src/Core/Mode.antt =====
-- Opcodes 0x0E and 0x1C to 0x1F of `sim_core_exec`: sleep, traps and the control registers.
use cn.Common.{◌>>=◌, ◌+◌, ◌==◌, if◌then◌else◌}
use cn.Common.Words.{u16}
use cn.Instr.{Decoded}
use cn.Core.{State, Output, gprup, sleep, trap, rfi, ctlup, swihdl, privophdl, epc}
use cn.Core.Regs.{gpreg_read, in_user_mode, take_trap, Stage, finish}
use cn.Core.Status.{set_swiarg, status_trap, status_rfi}

-- The check that opens the privileged cases.
abbrev pub privileged : State → Output → Stage → Stage
privileged s output allowed =
    if in_user_mode s
    then finish (take_trap (record s { nextpc = s.ctl privophdl })) output
    else allowed

-- sleep
unfoldable pub exec_sleep : Decoded → State → Output → Stage
exec_sleep d s output = privileged s output (finish (record s { type = sleep }) output)

-- int
unfoldable pub exec_int : Decoded → State → Output → Stage
exec_int d s output =
    finish
      (record s {
        regval = u16 (s.pc + 1);
        newstat = status_trap (set_swiarg s.newstat d.field0);
        nextpc = s.ctl swihdl;
        type = trap;
      })
      output

-- rfi
unfoldable pub exec_rfi : Decoded → State → Output → Stage
exec_rfi d s output =
    privileged s output
      (finish (record s { newstat = status_rfi s.newstat; nextpc = s.ctl epc; type = rfi }) output)

-- mfctl
unfoldable pub exec_mfctl : Decoded → State → Output → Stage
exec_mfctl d s output =
    privileged s output
      (finish (record s { regnum = d.field0; regval = s.ctl d.field1; type = gprup }) output)

-- mtctl
unfoldable pub exec_mtctl : Decoded → State → Output → Stage
exec_mtctl d s output = privileged s output (do
  x ← gpreg_read s d.field0
  finish (record s { regnum = d.field1; regval = x; type = ctlup }) output)

unfoldable pub exec_mode : Decoded → State → Output → Stage
unfolding exec_int exec_rfi exec_mfctl exec_mtctl
exec_mode d s output =
    if d.opcode == 0x1C
    then exec_int d s output
    else if d.opcode == 0x1D
    then exec_rfi d s output
    else if d.opcode == 0x1E
    then exec_mfctl d s output
    else exec_mtctl d s output
