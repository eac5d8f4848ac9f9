-- ===== src/Core.antt =====
-- sim_core.h: the pins of the core and its registers. The registers of a file are a function of
-- their number; the members of `inter` are fields of the state. The trace output is left out.
pub mod Status
pub mod Alu
pub mod Regs
pub mod Compute
pub mod Branch
pub mod Memory
pub mod Coproc
pub mod Mode
pub mod Exec
pub mod Update
pub mod Interrupts
pub mod Valid
pub mod Isolation
pub mod Defined
pub mod Faults
mod Tests
use cn.Common.{ℕ, Bool, true, false}

pub data CoprocOp : Type 0 where
  none read write exec : CoprocOp

pub record MemInput : Type 0 where
  pub value : ℕ
  pub valid : Bool
  pub fault : Bool

pub record MemOutput : Type 0 where
  pub value : ℕ
  pub addr : ℕ
  pub read : Bool
  pub request : Bool

pub record CpOutput : Type 0 where
  pub select : ℕ
  pub op : CoprocOp
  pub addr : ℕ
  pub value : ℕ

-- `coproc` is the one member, `value`, of `sim_core_cp_input_t`.
pub record Input : Type 0 where
  pub data_in : MemInput
  pub instr : MemInput
  pub coproc : ℕ
  pub exint_sig : ℕ → Bool
  pub ll_inval : Bool

pub record Output : Type 0 where
  pub data_out : MemOutput
  pub instr : MemOutput
  pub coproc : CpOutput
  pub user_mode : Bool

-- What `sim_core_update` has to do for the instruction that `sim_core_exec` ran.
pub data InterType : Type 0 where
  gprup branch brlink load loadlnk store scond ctlup cpread trap rfi sleep : InterType

-- `ctl` is the union: the members of `named` are the numbers of the module `Ctl`.
pub record State : Type 0 where
  pub pc : ℕ
  pub gpr_super : ℕ → ℕ
  pub ctl : ℕ → ℕ
  pub sleeping : Bool
  pub regnum : ℕ
  pub regval : ℕ
  pub newstat : ℕ
  pub nextpc : ℕ
  pub instr_stall : Bool
  pub data_stall : Bool
  pub type : InterType

-- The `int` that the functions return: 0 or -1.
pub data Result : Type 0 where
  success failure : Result

abbrev pub num_gpregs : ℕ
num_gpregs = 8

abbrev pub num_ctlregs : ℕ
num_ctlregs = 32

abbrev pub num_extint : ℕ
num_extint = 8

abbrev pub num_cpregs : ℕ
num_cpregs = 32

-- Offsets of the members of `ctl.named` in `ctl.array`; `gpr_user` starts at 0.
abbrev pub epc : ℕ
epc = 8

abbrev pub epc_saved : ℕ
epc_saved = 9

abbrev pub status : ℕ
status = 10

abbrev pub ifaulthdl : ℕ
ifaulthdl = 11

abbrev pub dfaulthdl : ℕ
dfaulthdl = 12

abbrev pub swihdl : ℕ
swihdl = 13

abbrev pub illophdl : ℕ
illophdl = 14

abbrev pub privophdl : ℕ
privophdl = 15

abbrev pub exihdl : ℕ
exihdl = 16

abbrev pub ienable : ℕ
ienable = 24

abbrev pub ipend : ℕ
ipend = 25

abbrev pub umcpen : ℕ
umcpen = 27

abbrev pub counter_low : ℕ
counter_low = 28

abbrev pub counter_high : ℕ
counter_high = 29

-- `memset(p, 0, sizeof(*p))` of each of the three structures.
abbrev pub state_init : State
state_init = record {
  pc = 0;
  gpr_super = λ _. 0;
  ctl = λ _. 0;
  sleeping = false;
  regnum = 0;
  regval = 0;
  newstat = 0;
  nextpc = 0;
  instr_stall = false;
  data_stall = false;
  type = gprup;
}

abbrev mem_input_zero : MemInput
mem_input_zero = record { value = 0; valid = false; fault = false }

abbrev mem_output_zero : MemOutput
mem_output_zero = record { value = 0; addr = 0; read = false; request = false }

abbrev pub input_init : Input
input_init = record {
  data_in = mem_input_zero;
  instr = mem_input_zero;
  coproc = 0;
  exint_sig = λ _. false;
  ll_inval = false;
}

abbrev pub output_init : Output
output_init = record {
  data_out = mem_output_zero;
  instr = mem_output_zero;
  coproc = record { select = 0; op = CoprocOp.none; addr = 0; value = 0 };
  user_mode = false;
}
