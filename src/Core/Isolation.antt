-- ===== src/Core/Isolation.antt =====
-- What a program in user mode can do to the supervisor's registers.
pub mod Opcodes
pub mod Exec
pub mod Update
pub mod Cycle
use cn.Common.{ℕ, ◌≡◌, ◌≤◌, ◌<◌, ◌⊎◌, true, false, Bool}
use cn.Core.{
  State, InterType, trap, ctlup, rfi, sleep, load, loadlnk, store, scond, gprup, ifaulthdl, ienable,
  status, umcpen, epc,
}
use cn.Core.Status.{get_um}

-- Where a trap may lead: the number of a control register that holds a handler's address.
abbrev pub IsHandler : ℕ → Type 0
IsHandler k = (ifaulthdl ≤ k) × (k < ienable)

-- The control registers of the supervisor that no trap changes: the handlers, `ienable`, `iack`
-- and `umcpen`.
abbrev pub IsProtected : ℕ → Type 0
IsProtected k = (IsHandler k) ⊎ (k ≡ ienable) ⊎ (k ≡ 26) ⊎ (k ≡ umcpen)

-- What the first stage may leave for the second: a trap into a handler, in supervisor mode, or
-- an instruction of user mode that is not privileged.
abbrev pub Allowed : (ℕ → ℕ) → InterType → ℕ → ℕ → Type 0
Allowed ctl trap ns np = (get_um ns ≡ 0) × (k : ℕ) × IsHandler k × (np ≡ ctl k)
Allowed ctl ctlup ns np = ⊥
Allowed ctl rfi ns np = ⊥
Allowed ctl sleep ns np = ⊥
Allowed ctl _ ns np = get_um ns ≡ 1

-- The kinds of instruction that wait for the data memory.
abbrev pub IsAccess : InterType → Type 0
IsAccess load = Unit {0}
IsAccess loadlnk = Unit {0}
IsAccess store = Unit {0}
IsAccess scond = Unit {0}
IsAccess _ = ⊥

-- The core runs a program in user mode; where it waits for the data memory, the instruction that
-- waits is one of user mode.
pub record RunsUser (s : State) : Type 0 where
  pub mode : get_um (s.ctl status) ≡ 1
  pub awake : s.sleeping ≡ false
  pub waits : s.data_stall ≡ true → IsAccess s.type × (get_um s.newstat ≡ 1)

-- What the first stage leaves, of the registers that it found.
pub record AfterRegs (gpr_super ctl : ℕ → ℕ) (data_stall : Bool) (t : State) : Type 0 where
  pub same_super : t.gpr_super ≡ gpr_super
  pub same_ctl : t.ctl ≡ ctl
  pub awake : t.sleeping ≡ false
  pub same_stall : t.data_stall ≡ data_stall
  pub waits : t.data_stall ≡ true → IsAccess t.type × (get_um t.newstat ≡ 1)
  pub allowed : (t.instr_stall ≡ true) ⊎ Allowed ctl t.type t.newstat t.nextpc

-- `t` comes after `s` in the first stage.
abbrev pub After : State → State → Type 0
After s t = AfterRegs s.gpr_super s.ctl s.data_stall t

-- The supervisor's registers are those of before.
pub record Guards (gpr_super ctl : ℕ → ℕ) (t : State) : Type 0 where
  pub same_super : t.gpr_super ≡ gpr_super
  pub protected : (k : ℕ) → IsProtected k → t.ctl k ≡ ctl k

-- The core has entered a handler in supervisor mode.
abbrev pub Entered : (ℕ → ℕ) → State → Type 0
Entered ctl t = (get_um (t.ctl status) ≡ 0) × (k : ℕ) × IsHandler k × (t.pc ≡ ctl k)

-- What a program in user mode can bring about.
abbrev pub Contained : State → State → Type 0
Contained s t = Guards s.gpr_super s.ctl t × (RunsUser t ⊎ Entered s.ctl t)
