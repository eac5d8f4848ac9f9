-- ===== src/Core/Exec.antt =====
-- `sim_core_exec` of sim_core.c: stalls, sleep, fetch, interrupts, decode and the dispatch.
use cn.Common.{ℕ, ◌+◌, true, false, none, some, ◌==◌, leb, if◌then◌else◌}
use cn.Common.Words.{u16}
use cn.Instr.{Decoded, decode_instruction}
use cn.Core.{State, Input, Output, failure, status, ifaulthdl, illophdl, exihdl}
use cn.Core.Regs.{check_pending_interrupt, take_trap, Stage, finish}
use cn.Core.Compute.{exec_compute}
use cn.Core.Branch.{exec_branch}
use cn.Core.Memory.{exec_memory}
use cn.Core.Coproc.{exec_coproc}
use cn.Core.Mode.{exec_sleep, exec_mode}

-- The switch over the opcode. The last branch is the fall-through of `default`.
unfoldable pub execute : Decoded → State → Output → Stage
execute d s output =
    if leb d.opcode 0x0D
    then exec_compute d s output
    else if d.opcode == 0x0E
    then exec_sleep d s output
    else if leb d.opcode 0x14
    then exec_branch d s output
    else if leb d.opcode 0x18
    then exec_memory d s output
    else if leb d.opcode 0x1B
    then exec_coproc d s output
    else if leb d.opcode 0x1F
    then exec_mode d s output
    else some (failure, s, output)

-- An interrupt that is pending goes to its handler.
unfoldable pub exec_interrupt : State → ℕ → State
exec_interrupt s i = take_trap (record s { nextpc = s.ctl (exihdl + i) })

unfoldable pub exec_decode : ℕ → State → Output → Stage
exec_decode instr_value s output = elim (decode_instruction instr_value) [
  | none ↦ finish (take_trap (record s { nextpc = s.ctl illophdl; regval = s.pc })) output
  | some d ↦ execute d (record s { newstat = s.ctl status; nextpc = u16 (s.pc + 1) }) output
]

unfoldable pub exec_fetched : State → Output → Input → Stage
exec_fetched s output input = elim (check_pending_interrupt s input) [
  | none ↦ exec_decode input.instr.value s output
  | some i ↦ finish (exec_interrupt s i) output
]

unfoldable pub exec_sleeping : State → Output → Input → Stage
exec_sleeping s output input = elim (check_pending_interrupt s input) [
  | none ↦ finish s output
  | some i ↦ finish (exec_interrupt s i) output
]

unfoldable pub sim_core_exec : State → Output → Input → Stage
unfolding exec_fetched exec_sleeping exec_interrupt
sim_core_exec s output input =
    if s.data_stall
    then finish s output
    else if s.sleeping
    then exec_sleeping s output input
    else if input.instr.valid
    then exec_fetched (record s { instr_stall = false }) output input
    else if input.instr.fault
    then finish (take_trap (record s { nextpc = s.ctl ifaulthdl; regval = s.pc })) output
    else finish (record s { instr_stall = true }) output
