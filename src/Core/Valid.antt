-- ===== src/Core/Valid.antt =====
-- What always holds of the core: every register and pin holds a word of its width, and every
-- number that indexes a register file is in the bounds of that file.
pub mod Rules
pub mod Stages
pub mod Bus
pub mod Exec
pub mod Update
use cn.Common.{ℕ, ◌<◌, Option, none, some}
use cn.Common.Words.{IsWord}
use cn.Core.{
  State, Input, Output, MemOutput, InterType, gprup, loadlnk, load, scond, cpread, num_gpregs,
  num_ctlregs, num_cpregs,
}
use cn.Core.Regs.{Stage}

-- The size of the register file that `inter.regnum` indexes in `sim_core_update`.
abbrev pub regnum_bound : InterType → ℕ
regnum_bound gprup = num_gpregs
regnum_bound load = num_gpregs
regnum_bound loadlnk = num_gpregs
regnum_bound scond = num_gpregs
regnum_bound cpread = num_gpregs
regnum_bound _ = num_ctlregs

pub record IsValid (s : State) : Type 0 where
  pub pc : IsWord s.pc
  pub gpr_super : (i : ℕ) → IsWord (s.gpr_super i)
  pub ctl : (i : ℕ) → IsWord (s.ctl i)
  pub regval : IsWord s.regval
  pub newstat : IsWord s.newstat
  pub nextpc : IsWord s.nextpc
  pub regnum : s.regnum < regnum_bound s.type

abbrev pub IsMemOutput : MemOutput → Type 0
IsMemOutput m = IsWord m.value × IsWord m.addr

pub record IsOutput (o : Output) : Type 0 where
  pub data_out : IsMemOutput o.data_out
  pub instr : IsMemOutput o.instr
  pub select : o.coproc.select < 8
  pub addr : o.coproc.addr < num_cpregs
  pub value : IsWord o.coproc.value

pub record IsInput (input : Input) : Type 0 where
  pub data_in : IsWord input.data_in.value
  pub coproc : IsWord input.coproc

-- A stage that is defined ends in such a state and such pins.
abbrev pub Keeps : (State → Output → Type 0) → Stage → Type 0
Keeps P none = Unit {0}
Keeps P (some (r, s, output)) = P s output

abbrev pub AreValid : State → Output → Type 0
AreValid s output = IsValid s × IsOutput output
