-- ===== src/Core/Tests.antt =====
-- Concrete cores, and the theorems about the core applied to them.
use cn.Common.{ℕ, ◌%◌, ◌^◌, ◌≡◌, ◌+◌, ◌*◌, true, false, some, arith, refl, update}
use cn.Common.Words.{IsWord}
use cn.Instr.{Decoded}
use cn.Core.{
  State, Input, load, status, epc, dfaulthdl, privophdl, state_init, input_init, output_init,
}
use cn.Core.Status.{
  get_um, get_gie, get_ll, get_rumode, get_umsave, get_swiarg, status_trap, status_rfi,
}
use cn.Core.Status.Nesting.{status_trap_fields, status_rfi-status_trap}
use cn.Core.Alu.{add, addc, sub, subc, rot, alu_exec}
use cn.Core.Alu.Arithmetic.{alu_exec_carry, alu_exec-rot, rotated}
use cn.Core.Interrupts.{IsLowest, check_pending_interrupt-IsLowest}
use cn.Core.Regs.{check_pending_interrupt}
use cn.Core.Coproc.{exec_coproc}
use cn.Core.Exec.{sim_core_exec}
use cn.Core.Update.{sim_core_update}
use cn.Core.Valid.{IsValid, IsOutput, IsInput, Keeps, AreValid}
use cn.Core.Valid.Exec.{sim_core_exec-AreValid}
use cn.Core.Valid.Update.{sim_core_update-AreValid}
use cn.Core.Isolation.{RunsUser, After, Contained}
use cn.Core.Isolation.Exec.{sim_core_exec-After}
use cn.Core.Isolation.Cycle.{cycle-Contained}
use cn.Core.Faults.{
  Selected, Waits, exec_coproc-Selected, sim_core_update-data_fault, fetch_fault-lost,
}

-- A core in user mode with interrupts on, before the instruction at 0x0123.
abbrev user_core : State
user_core = record state_init {
  pc = 0x0123;
  ctl = update (update (update (λ i. i % 32) status 0xC000) privophdl 0x0200) dfaulthdl 0x0300;
}

-- The pins that bring it `mtctl`, which is privileged.
abbrev mtctl_input : Input
mtctl_input = record input_init { instr = record { value = 0xF90A; valid = true; fault = false } }

-- The same core on its way through a load.
abbrev loading_core : State
loading_core = record user_core { type = load; regnum = 3; newstat = 0xC000; nextpc = 0x0124 }

-- The same core, after a fetch that was not answered.
abbrev stalled_core : State
stalled_core = record user_core { instr_stall = true }

abbrev fault_input : Input
fault_input = record input_init {
  instr = record { value = 0; valid = false; fault = true };
  data_in = record { value = 0; valid = false; fault = true };
}

abbrev mfcp : Decoded
mfcp = record { opcode = 0x19; subcode = 0; field0 = 1; field1 = 5; field2 = 9 }

ctl-IsWord : (i : ℕ) → IsWord (user_core.ctl i)
ctl-IsWord i = ground arith

user_core-IsValid : IsValid user_core
user_core-IsValid = record {
  pc = omega arith;
  gpr_super = λ i. omega arith;
  ctl = ctl-IsWord;
  regval = omega arith;
  newstat = omega arith;
  nextpc = omega arith;
  regnum = omega arith;
}

output_init-IsOutput : IsOutput output_init
output_init-IsOutput = record {
  data_out = (omega arith, omega arith);
  instr = (omega arith, omega arith);
  select = omega arith;
  addr = omega arith;
  value = omega arith;
}

mtctl_input-IsInput : IsInput mtctl_input
mtctl_input-IsInput = record { data_in = omega arith; coproc = omega arith }

user_core-RunsUser : RunsUser user_core
unfolding get_um
user_core-RunsUser = record { mode = refl; awake = refl; waits = λ e. absurd (ground arith) }

cycle-Contained_example :
    Keeps
      (λ t output. Contained user_core (sim_core_update t output fault_input).1)
      (sim_core_exec user_core output_init mtctl_input)
cycle-Contained_example =
    cycle-Contained user_core output_init mtctl_input fault_input user_core-IsValid
      output_init-IsOutput user_core-RunsUser

sim_core_exec-After_example :
    Keeps (λ t output. After user_core t) (sim_core_exec user_core output_init mtctl_input)
sim_core_exec-After_example =
    sim_core_exec-After user_core output_init mtctl_input user_core-IsValid user_core-RunsUser

sim_core_exec-AreValid_example : Keeps AreValid (sim_core_exec user_core output_init mtctl_input)
sim_core_exec-AreValid_example =
    sim_core_exec-AreValid user_core output_init mtctl_input user_core-IsValid output_init-IsOutput

sim_core_update-AreValid_example :
    let (r, s', output') = sim_core_update user_core output_init mtctl_input in AreValid s' output'
sim_core_update-AreValid_example =
    sim_core_update-AreValid user_core output_init mtctl_input user_core-IsValid
      output_init-IsOutput mtctl_input-IsInput

exec_coproc-Selected_example : Keeps (Selected mfcp) (exec_coproc mfcp user_core output_init)
exec_coproc-Selected_example = exec_coproc-Selected mfcp user_core output_init (omega arith)

sim_core_update-data_fault_example :
    let t = (sim_core_update loading_core output_init fault_input).1 in
    (t.pc ≡ 0x0300) × (t.ctl status ≡ 0xC000) × (t.ctl epc ≡ 8)
sim_core_update-data_fault_example =
    sim_core_update-data_fault loading_core output_init fault_input tt refl refl refl

fetch_fault-lost_example :
    Keeps
      (λ t _. Waits stalled_core (sim_core_update t output_init mtctl_input).1)
      (sim_core_exec stalled_core output_init fault_input)
fetch_fault-lost_example =
    fetch_fault-lost stalled_core output_init output_init fault_input mtctl_input refl refl refl
      refl refl

check_pending_interrupt-IsLowest_example :
    IsLowest user_core mtctl_input (check_pending_interrupt user_core mtctl_input)
check_pending_interrupt-IsLowest_example = check_pending_interrupt-IsLowest user_core mtctl_input

status_trap_fields_example :
    let t = status_trap 0xE123 in
    (get_um t ≡ 0)
    × (get_gie t ≡ 0)
    × (get_ll t ≡ 0)
    × (get_rumode t ≡ get_um 0xE123)
    × (get_umsave t ≡ get_rumode 0xE123)
    × (get_swiarg t ≡ get_swiarg 0xE123)
status_trap_fields_example = status_trap_fields 0xE123 (omega arith)

status_rfi-status_trap_example :
    let r = status_rfi (status_trap 0xE123) in
    (get_um r ≡ get_um 0xE123)
    × (get_rumode r ≡ get_rumode 0xE123)
    × (get_swiarg r ≡ get_swiarg 0xE123)
    × (get_ll r ≡ 0)
    × (get_gie r ≡ 1)
status_rfi-status_trap_example = status_rfi-status_trap 0xE123 (omega arith)

alu_exec_carry_example :
    ((s c : ℕ) × (alu_exec add 0xFFFF 0x0003 ≡ some s)
      × (alu_exec addc 0xFFFF 0x0003 ≡ some c)
      × (0x10002 ≡ c * 2 ^ 16 + s)
      × IsWord s)
    × ((d b : ℕ) × (alu_exec sub 0xFFFF 0x0003 ≡ some d)
        × (alu_exec subc 0xFFFF 0x0003 ≡ some b)
        × (0xFFFF + b * 2 ^ 16 ≡ 0x0003 + d)
        × IsWord d)
alu_exec_carry_example = alu_exec_carry 0xFFFF 0x0003 (omega arith) (omega arith)

alu_exec-rot_example :
    (alu_exec rot 0x8421 5 ≡ some (rotated 0x8421 5)) × (rotated (rotated 0x8421 5) 11 ≡ 0x8421)
alu_exec-rot_example = alu_exec-rot 0x8421 5 (omega arith)
