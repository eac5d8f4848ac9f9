-- ===== src/Sim/Tests.antt =====
-- A simulator with a program in user mode, and the theorems about it applied to it.
use cn.Common.{ℕ, [], ◌∷◌, true, false, ◌%◌, refl, arith, Option, none, some, update, ◌≡◌}
use cn.Common.Words.{IsWord}
use cn.Core.{
  State, Result, success, status, dfaulthdl, privophdl, state_init, input_init, output_init,
}
use cn.Core.Status.{get_um}
use cn.Core.Valid.{IsValid, IsOutput}
use cn.Core.Isolation.{RunsUser}
use cn.Core.Exec.{sim_core_exec}
use cn.Core.Update.{sim_core_update}
use cn.Nvram.{nvram_state_data}
use cn.Memif.{sim_memif_init, sim_memif_access}
use cn.CpIf.{CpHdr}
use cn.Sim.{System, cycle, coproc_exec, coproc_data}
use cn.Sim.Isolation.{CoreContained, system_cycle-Contained}
use cn.Sim.Valid.{IsSystem}
use cn.Sim.Runs.{begin, more, Confined, UserRun-Confined}

abbrev user_core : State
user_core = record state_init {
  pc = 0x0001;
  ctl = update (update (update (λ i. i % 32) status 0xC000) privophdl 0x0200) dfaulthdl 0x0300;
}

abbrev hdr : ℕ → CpHdr
hdr n = record { cpnum = n; regs = λ i. i % 2 }

-- The fetched word is `mtctl`, which is privileged.
abbrev running : System
running = record {
  core_state = user_core;
  core_output = record output_init { instr = record (output_init.instr) { addr = 1 } };
  core_input = record input_init { instr = record { value = 0xF90A; valid = true; fault = false } };
  dmem_state = sim_memif_init 4;
  imem_state = sim_memif_init 4;
  physmem = 0 ∷ 0xF90A ∷ 0xF90A ∷ 0 ∷ [];
  coprocs = record {
    timer = hdr 0;
    nvram = record {
      hdr = hdr 1;
      image = 10 ∷ 11 ∷ [];
      datalen = 4;
      delay = 0;
      inst_pend = 0;
      addr_pend = 0;
      val_pend = 0;
    };
    uart = record {
      hdr = hdr 2;
      fifo_en = true;
      fifo_len = 16;
      in_box = 65 ∷ [];
      out_box = [];
      tx_raised = false;
      rx_raised = false;
    };
  };
}

ctl-IsWord : (i : ℕ) → IsWord (user_core.ctl i)
ctl-IsWord i = ground arith

user_core-IsValid : IsValid user_core
user_core-IsValid = record {
  pc = omega arith;
  gpr_super = λ i. omega arith;
  ctl = ctl-IsWord;
  regval = omega arith;
  newstat = omega arith;
  nextpc = omega arith;
  regnum = omega arith;
}

core_output-IsOutput : IsOutput running.core_output
core_output-IsOutput = record {
  data_out = (omega arith, omega arith);
  instr = (omega arith, omega arith);
  select = omega arith;
  addr = omega arith;
  value = omega arith;
}

user_core-RunsUser : RunsUser user_core
unfolding get_um
user_core-RunsUser = record { mode = refl; awake = refl; waits = λ e. absurd (ground arith) }

system_cycle-Contained_example : CoreContained running.core_state (cycle running)
system_cycle-Contained_example =
    system_cycle-Contained running user_core-IsValid core_output-IsOutput user_core-RunsUser

running-IsSystem : IsSystem running
running-IsSystem = record {
  core = user_core-IsValid;
  output = core_output-IsOutput;
  input = record { data_in = omega arith; instr = omega arith; coproc = omega arith };
  memory = (omega arith, (omega arith, (omega arith, (omega arith, tt))));
  coprocs = record {
    timer = λ i. omega arith;
    nvram = record {
      regs = λ i. omega arith;
      image = (omega arith, (omega arith, tt));
      val_pend = omega arith;
    };
    uart = record { regs = λ i. omega arith; in_box = (omega arith, tt) };
  };
}

abbrev system_of : Option (Result × System) → System
system_of none = running
system_of (some (_, s)) = s

first_cycle : cycle running ≡ some (success, system_of (cycle running))
unfolding cycle sim_memif_access sim_core_exec coproc_exec coproc_data nvram_state_data
    sim_core_update
first_cycle = refl

UserRun-Confined_example : Confined running (system_of (cycle running))
UserRun-Confined_example =
    UserRun-Confined running-IsSystem user_core-RunsUser (more begin user_core-RunsUser first_cycle)
