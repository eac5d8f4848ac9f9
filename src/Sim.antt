-- ===== src/Sim.antt =====
-- The simulator of sim.c: a cycle of the core, the memory and the three coprocessors, and reset.
pub mod Isolation
pub mod Steps
pub mod Words
pub mod Devices
pub mod Serial
pub mod Valid
pub mod Runs
pub mod Reset
mod Tests
use cn.Common.{
  ◌>>=◌, ℕ, zero, suc, Bool, true, false, Option, none, some, List, [], ◌∷◌, ◌==◌, if◌then◌else◌,
}
use cn.Core.{
  CoprocOp, State, Input, Output, Result, success, failure, read, write, exec, state_init,
  input_init, output_init,
}
use cn.Core.Exec.{sim_core_exec}
use cn.Core.Update.{sim_core_update}
use cn.Memif.{MemifState, sim_memif_init, sim_memif_access}
use cn.CpIf.{CpHdr, sim_cp_hdr_reset, sim_cp_read, sim_cp_write}
use cn.Timer.{timer_state_data, timer_state_exec}
use cn.Nvram.{NvramState, nvram_state_reset, nvram_state_data, nvram_state_exec}
use cn.Uart.{UartState, uart_state_reset, uart_state_data, uart_state_exec}

-- The coprocessors of `coproc_info`, in its order.
pub record Coprocs : Type 0 where
  pub timer : CpHdr
  pub nvram : NvramState
  pub uart : UartState

-- The global variables of sim.c.
pub record System : Type 0 where
  pub core_state : State
  pub core_output : Output
  pub core_input : Input
  pub dmem_state : MemifState
  pub imem_state : MemifState
  pub physmem : List ℕ
  pub coprocs : Coprocs

abbrev pub physmem_numwords : ℕ
physmem_numwords = 65535

abbrev same_op : CoprocOp → CoprocOp → Bool
same_op CoprocOp.none CoprocOp.none = true
same_op CoprocOp.read CoprocOp.read = true
same_op CoprocOp.write CoprocOp.write = true
same_op CoprocOp.exec CoprocOp.exec = true
same_op _ _ = false

-- `sim_core_cp_op_pending` of sim_core.c; `none` is its -1.
unfoldable pub sim_core_cp_op_pending : CoprocOp → Output → Option ℕ
sim_core_cp_op_pending op output =
    if same_op output.coproc.op op then some output.coproc.select else none

-- The member `exec` of coprocessor `cpnum`, if there is one.
unfoldable pub exec_one : ℕ → Coprocs → Input → Output → Option (Coprocs × Input)
exec_one cpnum c core_input core_output =
    if cpnum == 0
    then (let (timer, core_input') = timer_state_exec c.timer core_input core_output in
        some (record c { timer = timer }, core_input'))
    else if cpnum == 1
    then (let (nvram, core_input') = nvram_state_exec c.nvram core_input core_output in
        some (record c { nvram = nvram }, core_input'))
    else if cpnum == 2
    then (do
      (uart, core_input') ← uart_state_exec c.uart core_input core_output
      some (record c { uart = uart }, core_input'))
    else some (c, core_input)

unfoldable pub coproc_exec : Coprocs → Input → Output → Option (Coprocs × Input)
unfolding sim_core_cp_op_pending exec_one
coproc_exec c core_input core_output = elim (sim_core_cp_op_pending exec core_output) [
  | none ↦ some (c, core_input)
  | some cpnum ↦ exec_one cpnum c core_input core_output
]

-- The loop over the members `data`.
unfoldable pub coproc_data : Coprocs → Input → Option (Coprocs × Input)
coproc_data c core_input = do
  let (timer, input1) = timer_state_data c.timer core_input
  (nvram, input2) ← nvram_state_data c.nvram input1
  let (uart, input3) = uart_state_data c.uart input2
  some (record { timer = timer; nvram = nvram; uart = uart }, input3)

-- The header of coprocessor `cpnum`.
unfoldable pub hdr_of : ℕ → Coprocs → Option CpHdr
hdr_of cpnum c =
    if cpnum == 0
    then some c.timer
    else if cpnum == 1
    then some c.nvram.hdr
    else if cpnum == 2
    then some c.uart.hdr
    else none

unfoldable pub with_hdr : ℕ → CpHdr → Coprocs → Coprocs
with_hdr cpnum hdr c =
    if cpnum == 0
    then record c { timer = hdr }
    else if cpnum == 1
    then record c { nvram = record (c.nvram) { hdr = hdr } }
    else if cpnum == 2
    then record c { uart = record (c.uart) { hdr = hdr } }
    else c

unfoldable pub coproc_read : Coprocs → Input → Output → Input
unfolding sim_core_cp_op_pending hdr_of
coproc_read c core_input core_output = elim (sim_core_cp_op_pending read core_output) [
  | none ↦ core_input
  | some cpnum ↦ elim (hdr_of cpnum c) [
    | none ↦ core_input
    | some hdr ↦ sim_cp_read hdr core_input core_output
  ]
]

unfoldable pub coproc_write : Coprocs → Output → Coprocs
unfolding sim_core_cp_op_pending hdr_of with_hdr
coproc_write c core_output = elim (sim_core_cp_op_pending write core_output) [
  | none ↦ c
  | some cpnum ↦ elim (hdr_of cpnum c) [
    | none ↦ c
    | some hdr ↦ with_hdr cpnum (sim_cp_write hdr core_output) c
  ]
]

-- `cycle`. No coprocessor has a member `fetch`, and the result of `sim_core_exec` is not looked
-- at. `none` is a behaviour that C leaves undefined.
unfoldable pub cycle : System → Option (Result × System)
cycle s = do
  (instr, imem_state, mem1) ←
      sim_memif_access s.core_input.instr s.core_output.instr s.imem_state s.physmem
  (_, core_state, core_output) ←
      sim_core_exec s.core_state s.core_output (record (s.core_input) { instr = instr })
  (coprocs1, input1) ← coproc_exec s.coprocs (record (s.core_input) { instr = instr }) core_output
  (coprocs2, input2) ← coproc_data coprocs1 input1
  (data_in, dmem_state, mem2) ←
      sim_memif_access input2.data_in core_output.data_out s.dmem_state mem1
  let input3 = coproc_read coprocs2 (record input2 { data_in = data_in }) core_output
  let coprocs3 = coproc_write coprocs2 core_output
  let (result, core_state', core_output') = sim_core_update core_state core_output input3
  some (
    result,
    record {
      core_state = core_state';
      core_output = core_output';
      core_input = input3;
      dmem_state = dmem_state;
      imem_state = imem_state;
      physmem = mem2;
      coprocs = coprocs3;
    },
  )

unfoldable pub reset_core : System → System
reset_core s = record s {
  core_state = state_init;
  core_output = output_init;
  core_input = input_init;
  dmem_state = sim_memif_init physmem_numwords;
  imem_state = sim_memif_init physmem_numwords;
}

abbrev pub zeros : ℕ → List ℕ
zeros zero = []
zeros (suc n) = 0 ∷ zeros n

unfoldable pub reset_mem : System → System
reset_mem s = record s { physmem = zeros physmem_numwords }

-- The loop of `reset` over the coprocessors. No member `reset` fails.
unfoldable pub reset_coprocs : Coprocs → Option Coprocs
reset_coprocs c = do
  uart ← uart_state_reset (record (c.uart) { hdr = sim_cp_hdr_reset c.uart.hdr })
  some (record {
    timer = sim_cp_hdr_reset c.timer;
    nvram = nvram_state_reset (record (c.nvram) { hdr = sim_cp_hdr_reset c.nvram.hdr });
    uart = uart;
  })

unfoldable pub reset : System → Option System
unfolding reset_core reset_mem reset_coprocs
reset s = do
  coprocs ← reset_coprocs s.coprocs
  some (reset_mem (reset_core (record s { coprocs = coprocs })))

-- The loop of `do_interp_step`, which stops at the first status that is not 0.
unfoldable pub steps : ℕ → System → Option (Result × System)
steps zero s = some (success, s)
steps (suc numsteps) s = do
  (result, s') ← cycle s
  elim result [ success ↦ steps numsteps s' | failure ↦ some (failure, s') ]
