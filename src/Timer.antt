-- ===== src/Timer.antt =====
-- sim_cp_timer.c and sim_cp_timer.h.
pub mod Ticks
mod Tests
use cn.Common.{ℕ, ◌+◌, ◌-◌, ◌^◌, Bool, true, false, not, ◌==◌, if◌then◌else◌, update}
use cn.Common.Words.{u16}
use cn.Core.{Input, Output}
use cn.Core.Regs.{is_set}
use cn.CpIf.{CpHdr, signal}
use cn.Utils.{field_getbits16, field_setbits16}

abbrev pub instr_iack : ℕ
instr_iack = 1

abbrev pub reg_ctl : ℕ
reg_ctl = 0

abbrev pub reg_ctl_en_start : ℕ
reg_ctl_en_start = 0

abbrev pub reg_ctl_en_len : ℕ
reg_ctl_en_len = 1

abbrev pub reg_cycle_lo : ℕ
reg_cycle_lo = 1

abbrev pub reg_cycle_hi : ℕ
reg_cycle_hi = 2

-- `TIMER_GET_ENABLED`
unfoldable pub get_enabled : CpHdr → ℕ
get_enabled hdr = field_getbits16 (hdr.regs reg_ctl) reg_ctl_en_start reg_ctl_en_len

-- `TIMER_SET_ENABLED`
unfoldable pub set_enabled : CpHdr → ℕ → CpHdr
set_enabled hdr en_val = record hdr {
  regs =
      update hdr.regs reg_ctl
        (field_setbits16 (hdr.regs reg_ctl) reg_ctl_en_start reg_ctl_en_len en_val);
}

-- `--` of a register.
abbrev pub decrement : CpHdr → ℕ → CpHdr
decrement hdr r = record hdr { regs = update hdr.regs r (u16 (hdr.regs r + 2 ^ 16 - 1)) }

unfoldable pub timer_state_data : CpHdr → Input → CpHdr × Input
unfolding get_enabled set_enabled
timer_state_data hdr core_input =
    if is_set (get_enabled hdr)
    then (let counted = decrement hdr reg_cycle_lo in
        if counted.regs reg_cycle_lo == 0
        then (if counted.regs reg_cycle_hi == 0
            then (set_enabled counted 0, signal counted core_input true)
            else (decrement counted reg_cycle_hi, core_input))
        else (counted, core_input))
    else (hdr, core_input)

unfoldable pub timer_state_exec : CpHdr → Input → Output → CpHdr × Input
timer_state_exec hdr core_input core_output =
    if core_output.coproc.value == instr_iack
    then (hdr, signal hdr core_input false)
    else (hdr, core_input)
