-- ===== src/Nvram.antt =====
-- sim_cp_nvram.c and sim_cp_nvram.h, but for opening and mapping the image.
pub mod Commands
mod Tests
use cn.Common.{
  ◌>>=◌, ℕ, ◌+◌, ◌-◌, ◌*◌, ◌/◌, ◌^◌, Bool, true, false, not, Option, none, some, List, get_elem?,
  set, length, bit_and, ltb, ◌==◌, if◌then◌else◌, update,
}
use cn.Common.Words.{u16, u32, ◌<<<◌, ◌>>>◌}
use cn.Core.{Input, Output}
use cn.Core.Regs.{is_set}
use cn.CpIf.{CpHdr, signal}

-- The constants of sim_cp_nvram.h.
abbrev pub reg_ctl : ℕ
reg_ctl = 0

abbrev pub reg_status : ℕ
reg_status = 1

abbrev pub reg_addr_lo : ℕ
reg_addr_lo = 2

abbrev pub reg_addr_hi : ℕ
reg_addr_hi = 3

abbrev pub reg_val : ℕ
reg_val = 4

abbrev pub ctl_read_int : ℕ
ctl_read_int = 0x1

abbrev pub ctl_write_int : ℕ
ctl_write_int = 0x2

abbrev pub status_idle : ℕ
status_idle = 0

abbrev pub status_read_ok : ℕ
status_read_ok = 2

abbrev pub status_read_err : ℕ
status_read_err = 3

abbrev pub status_write_ok : ℕ
status_write_ok = 5

abbrev pub status_write_err : ℕ
status_write_err = 6

abbrev pub instr_noop : ℕ
instr_noop = 0

abbrev pub instr_read : ℕ
instr_read = 1

abbrev pub instr_write : ℕ
instr_write = 2

abbrev pub instr_ack : ℕ
instr_ack = 3

abbrev pub instr_getlen_lo : ℕ
instr_getlen_lo = 4

abbrev pub instr_getlen_hi : ℕ
instr_getlen_hi = 5

abbrev pub delay_cycles : ℕ
delay_cycles = 3

-- `sim_cp_nvram_state_t`. `image` is what `data` points to, in words, and `datalen` its length in bytes.
pub record NvramState : Type 0 where
  pub hdr : CpHdr
  pub image : List ℕ
  pub datalen : ℕ
  pub delay : ℕ
  pub inst_pend : ℕ
  pub addr_pend : ℕ
  pub val_pend : ℕ

abbrev pub reg : NvramState → ℕ → ℕ
reg state r = state.hdr.regs r

abbrev pub write_reg : NvramState → ℕ → ℕ → NvramState
write_reg state r v = record state { hdr = record (state.hdr) { regs = update state.hdr.regs r v } }

unfoldable pub nvram_state_reset : NvramState → NvramState
nvram_state_reset state = record state {
  delay = 0;
  inst_pend = instr_noop;
  addr_pend = 0;
  val_pend = 0;
}

-- The end of the two cases of `nvram_state_data`: the interrupt that a bit of CTL asks for.
unfoldable pub complete : NvramState → Input → ℕ → NvramState × Input
complete state core_input ctl_int = (
  record state { inst_pend = instr_noop },
  if is_set (bit_and (reg state reg_ctl) ctl_int)
      then signal state.hdr core_input true
      else core_input,
)

-- `none` would be an access outside of the image.
unfoldable pub data_read : NvramState → Option NvramState
data_read state =
    if ltb state.addr_pend (state.datalen >>> 1)
    then (do
      word ← get_elem? state.image state.addr_pend
      some (write_reg (write_reg state reg_val word) reg_status status_read_ok))
    else some (write_reg state reg_status status_read_err)

unfoldable pub data_write : NvramState → Option NvramState
data_write state =
    if ltb state.addr_pend (state.datalen >>> 1)
    then (if ltb state.addr_pend (length state.image)
        then some (
            write_reg (record state { image = set state.image state.addr_pend state.val_pend })
              reg_status status_write_ok)
        else none)
    else some (write_reg state reg_status status_write_err)

-- The switch over the pending instruction.
unfoldable pub finish_pending : NvramState → Input → Option (NvramState × Input)
unfolding complete data_read data_write
finish_pending state core_input =
    if state.inst_pend == instr_read
    then (do state' ← data_read state; some (complete state' core_input ctl_read_int))
    else if state.inst_pend == instr_write
    then (do state' ← data_write state; some (complete state' core_input ctl_write_int))
    else some (record state { delay = 0; inst_pend = instr_noop }, core_input)

unfoldable pub nvram_state_data : NvramState → Input → Option (NvramState × Input)
unfolding finish_pending
nvram_state_data state core_input =
    if state.delay == 0
    then some (state, core_input)
    else (let state' = record state { delay = state.delay - 1 } in
        if not (state'.delay == 0)
        then some (state', core_input)
        else finish_pending state' core_input)

-- `addr` of `nvram_state_exec`, a `uint32_t`.
unfoldable pub nvram_addr : NvramState → ℕ
nvram_addr state = u32 (reg state reg_addr_lo + (reg state reg_addr_hi <<< 16))

unfoldable pub exec_read : NvramState → NvramState
unfolding nvram_addr
exec_read state =
    if not (reg state reg_status == status_idle)
    then state
    else if ltb (nvram_addr state) state.datalen
    then record state {
      inst_pend = instr_read;
      addr_pend = u16 (nvram_addr state);
      delay = delay_cycles;
    }
    else write_reg state reg_status status_read_err

unfoldable pub exec_write : NvramState → NvramState
unfolding nvram_addr
exec_write state =
    if not (reg state reg_status == status_idle)
    then state
    else if ltb (nvram_addr state) state.datalen
    then record state {
      inst_pend = instr_write;
      addr_pend = u16 (nvram_addr state);
      val_pend = reg state reg_val;
      delay = delay_cycles;
    }
    else write_reg state reg_status status_write_err

unfoldable pub nvram_state_exec : NvramState → Input → Output → NvramState × Input
unfolding exec_read exec_write
nvram_state_exec state core_input core_output =
    let instr = core_output.coproc.value in
    if not (state.delay == 0)
    then (state, core_input)
    else if instr == instr_read
    then (exec_read state, core_input)
    else if instr == instr_write
    then (exec_write state, core_input)
    else if instr == instr_ack
    then (write_reg state reg_status status_idle, signal state.hdr core_input false)
    else if instr == instr_getlen_lo
    then (write_reg state reg_val (bit_and state.datalen 0xFFFF), core_input)
    else if instr == instr_getlen_hi
    then (write_reg state reg_val (u16 (state.datalen >>> 16)), core_input)
    else (state, core_input)
