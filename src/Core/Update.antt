-- ===== src/Core/Update.antt =====
-- `sim_core_update` of sim_core.c, with `update_propagate_signals`.
use cn.Common.{
  ℕ, zero, suc, ◌+◌, Bool, true, false, not, ◌&&◌, ◌||◌, bit_and, bit_or, ◌==◌, if◌then◌else◌,
  update,
}
use cn.Common.Words.{u16, complement, ◌<<<◌}
use cn.Core.{
  InterType, State, Input, Output, CoprocOp, Result, success, failure, num_extint, status, ipend,
  ienable, epc, epc_saved, dfaulthdl, counter_low, counter_high, gprup, branch, brlink, load,
  loadlnk, store, scond, ctlup, cpread, trap, rfi, sleep,
}
use cn.Core.Regs.{gpreg_write, in_user_mode, is_set}
use cn.Core.Status.{get_gie, set_ll, status_trap}

-- `SET_BIT`
unfoldable pub set_bit : ℕ → ℕ → Bool → ℕ
set_bit field bit val =
    u16 (bit_or (bit_and field (complement 32 (0x1 <<< bit))) ((if val then 1 else 0) <<< bit))

-- The loop over the interrupt pins, from `i` with `left` rounds to go.
unfoldable pub pend_from : Input → ℕ → ℕ → ℕ → ℕ
pend_from input zero i pend = pend
pend_from input (suc left) i pend =
    pend_from input left (suc i) (set_bit pend i (input.exint_sig i))

unfoldable pub propagate_signals : State → Output → Input → State × Output
unfolding set_bit pend_from in_user_mode
propagate_signals s output input =
    let pend = pend_from input num_extint 0 (s.ctl ipend) in
    let pend' = set_bit (set_bit pend 14 input.instr.fault) 15 input.data_in.fault in
    (record s { ctl = update s.ctl ipend pend' }, record output { user_mode = in_user_mode s })

abbrev pub Updated : Type 0
Updated = Result × State × Output

-- What stands behind the label `counter`.
unfoldable pub count_cycle : Result → State → Output → Updated
count_cycle result s output =
    let low = u16 (s.ctl counter_low + 1) in
    let counted = update s.ctl counter_low low in
    let high = if low == 0 then u16 (s.ctl counter_high + 1) else s.ctl counter_high in
    (
      result,
      record s { ctl = update counted counter_high high },
      record output { coproc = record (output.coproc) { op = CoprocOp.none } },
    )

-- The way out of the switch by `break`.
unfoldable pub advance : State → Output → Updated
unfolding count_cycle
advance s output =
    count_cycle success (record s { pc = s.nextpc })
      (record output { instr = record (output.instr) { addr = s.nextpc; request = true } })

abbrev pub write_ctl : State → ℕ → ℕ → State
write_ctl s i v = record s { ctl = update s.ctl i v }

abbrev pub no_data_request : Output → Output
no_data_request output = record output { data_out = record (output.data_out) { request = false } }

abbrev pub no_instr_request : Output → Output
no_instr_request output = record output { instr = record (output.instr) { request = false } }

-- The last branch of the four memory cases: the access is complete.
unfoldable pub update_load : State → Input → State
update_load s input =
    gpreg_write (write_ctl s status (set_ll (s.ctl status) 0)) s.regnum input.data_in.value

unfoldable pub update_loadlnk : State → Input → State
update_loadlnk s input =
    gpreg_write (write_ctl s status (set_ll (s.ctl status) 1)) s.regnum input.data_in.value

unfoldable pub update_store : State → Input → State
update_store s input = write_ctl s status (set_ll (s.ctl status) 0)

unfoldable pub update_scond : State → Input → State
update_scond s input = gpreg_write (write_ctl s status (set_ll (s.ctl status) 0)) s.regnum 1

-- The second branch: a data fault.
unfoldable pub data_fault : State → State
data_fault s = record s { newstat = status_trap s.newstat; nextpc = s.ctl dfaulthdl }

-- The three branches of a memory case.
unfoldable pub update_memory : (State → Input → State) → State → Output → Input → Updated
unfolding count_cycle advance data_fault
update_memory complete s output input =
    if not input.data_in.valid && not input.data_in.fault
    then count_cycle success (record s { data_stall = true }) (no_instr_request output)
    else if input.data_in.fault
    then advance (record (data_fault s) { data_stall = false }) output
    else advance (record (complete s input) { data_stall = false }) (no_data_request output)

unfoldable pub update_trap : State → State
update_trap s = record s {
  ctl = update (update s.ctl epc_saved (s.ctl epc)) epc s.regval;
  sleeping = false;
}

unfoldable pub update_sleep : State → Output → Updated
unfolding count_cycle
update_sleep s output =
    let unwakeable = not (is_set (get_gie (s.ctl status))) || not (is_set (s.ctl ienable)) in
    count_cycle (if unwakeable then failure else success)
      (record s { sleeping = true; pc = s.nextpc }) (no_instr_request output)

-- The switch over `inter.type`, after `newstat` has become the status.
unfoldable pub update_by_type : InterType → State → Output → Input → Updated
unfolding update_load update_loadlnk update_store update_scond update_memory update_trap
    update_sleep
update_by_type gprup s output input = advance (gpreg_write s s.regnum s.regval) output
update_by_type branch s output input = advance s output
update_by_type brlink s output input = advance (gpreg_write s 7 s.regval) output
update_by_type load s output input = update_memory update_load s output input
update_by_type loadlnk s output input = update_memory update_loadlnk s output input
update_by_type store s output input = update_memory update_store s output input
update_by_type scond s output input = update_memory update_scond s output input
update_by_type ctlup s output input = advance (write_ctl s s.regnum s.regval) output
update_by_type cpread s output input = advance (gpreg_write s s.regnum input.coproc) output
update_by_type trap s output input = advance (update_trap s) output
update_by_type rfi s output input = advance (write_ctl s epc (s.ctl epc_saved)) output
update_by_type sleep s output input = update_sleep s output

abbrev pub is_trap : State → Bool
is_trap s = elim s.type [ trap ↦ true | _ ↦ false ]

unfoldable pub update_core : State → Output → Input → Updated
unfolding count_cycle update_by_type
update_core s output input =
    if s.instr_stall
    then count_cycle success s output
    else if s.sleeping && not (is_trap s)
    then (success, s, output)
    else update_by_type s.type (write_ctl s status s.newstat) output input

unfoldable pub sim_core_update : State → Output → Input → Updated
unfolding propagate_signals update_core
sim_core_update s output input =
    let (s', output') = propagate_signals s output input in update_core s' output' input
