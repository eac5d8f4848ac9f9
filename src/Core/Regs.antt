-- ===== src/Core/Regs.antt =====
-- The register files, the interrupt inputs, and the label `trap` of sim_core.c.
use cn.Common.{
  ℕ, zero, suc, Bool, not, ◌&&◌, Option, none, some, bit_and, ◌==◌, if◌then◌else◌, ltb, update,
}
use cn.Common.Words.{◌<<<◌}
use cn.Core.{num_gpregs, State, Input, Output, Result, success, trap, status, ienable, num_extint}
use cn.Core.Status.{get_um, get_gie, status_trap}

-- C's reading of a number as a condition.
abbrev pub is_set : ℕ → Bool
is_set n = not (n == 0)

unfoldable pub in_user_mode : State → Bool
in_user_mode s = is_set (get_um (s.ctl status))

-- The register `regnum` of the file of the mode; `gpr_user` is the beginning of `ctl.array`.
unfoldable pub gpr_value : State → ℕ → ℕ
unfolding in_user_mode
gpr_value s regnum = if in_user_mode s then s.ctl regnum else s.gpr_super regnum

-- `none` is a read past the end of the file, which C leaves undefined.
unfoldable pub gpreg_read : State → ℕ → Option ℕ
unfolding gpr_value
gpreg_read s regnum = if ltb regnum num_gpregs then some (gpr_value s regnum) else none

unfoldable pub gpreg_write : State → ℕ → ℕ → State
unfolding in_user_mode
gpreg_write s regnum regval =
    if in_user_mode s
    then record s { ctl = update s.ctl regnum regval }
    else record s { gpr_super = update s.gpr_super regnum regval }

abbrev pub test_bit : ℕ → ℕ → Bool
test_bit field bit = is_set (bit_and field (0x1 <<< bit))

-- The test of the loop of `check_pending_interrupt`.
unfoldable pub interrupt_enabled : State → Input → ℕ → Bool
interrupt_enabled s input i =
    input.exint_sig i && test_bit (s.ctl ienable) i && is_set (get_gie (s.ctl status))

-- The loop from `i` with `left` rounds to go; `none` is the -1 after the last.
unfoldable pub check_from : State → Input → ℕ → ℕ → Option ℕ
check_from s input zero i = none
check_from s input (suc left) i =
    let rest = check_from s input left (suc i) in
    if interrupt_enabled s input i then some i else rest

unfoldable pub check_pending_interrupt : State → Input → Option ℕ
unfolding check_from
check_pending_interrupt s input = check_from s input num_extint 0

-- What stands behind the label `trap` of `sim_core_exec`.
unfoldable pub take_trap : State → State
take_trap s = record s { newstat = status_trap s.newstat; regval = s.pc; type = trap }

-- The result of a stage: `none` where C leaves the behaviour undefined.
abbrev pub Stage : Type 0
Stage = Option (Result × State × Output)

abbrev pub finish : State → Output → Stage
finish s output = some (success, s, output)
