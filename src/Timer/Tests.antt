-- ===== src/Timer/Tests.antt =====
-- A timer that is started, and the theorem about its ticks applied to it.
use cn.Common.{◌<◌, ◌≤◌, ◌≡◌, true, refl, arith, update}
use cn.Core.{input_init}
use cn.CpIf.{CpHdr, signal}
use cn.Utils.{field_getbits16, bitmask16}
use cn.Timer.{get_enabled}
use cn.Timer.Ticks.{remaining, ticks, IsRunning, ticks-fires}

-- Coprocessor 2, with three cycles to go.
abbrev started : CpHdr
started = record { cpnum = 2; regs = update (update (λ _. 0) 0 1) 1 3 }

started-IsRunning : IsRunning started
unfolding get_enabled field_getbits16 bitmask16
started-IsRunning = record { enabled = refl; ctl = omega arith; lo = omega arith; hi = omega arith }

ticks-fires_example :
    (2 < remaining started → (ticks 2 (started, input_init)).1 ≡ input_init)
    × (remaining started ≤ 2 → (ticks 2 (started, input_init)).1 ≡ signal started input_init true)
ticks-fires_example = ticks-fires 2 started input_init started-IsRunning
