-- ===== src/Core/Valid/Rules.antt =====
-- Rules for proofs that a part of `sim_core_exec` keeps the core valid.
use cn.Common.{
  ◌>>=◌, ℕ, Bool, true, false, refl, ◌<◌, ◌≤◌, ◌≡◌, arith, inl, inr, Option-cases, none, some, ltb,
  if◌then◌else◌,
}
use cn.Common.Words.{IsWord, u16}
use cn.Core.{num_gpregs, State, Output, InterType, trap, gprup, ctlup}
use cn.Core.Status.{status_trap, set_swiarg, status_rfi, set_ll}
use cn.Core.Status.Fields.{status_trap_lem, status_rfi_lem, set_swiarg_lem, set_ll_lem}
use cn.Core.Alu.{AluOp, alu_exec}
use cn.Core.Alu.Words.{alu_exec-IsWord}
use cn.Core.Regs.{gpr_value, gpreg_read, take_trap, Stage}
use cn.Core.Valid.{regnum_bound, IsValid, Keeps}

pub gpr_value-IsWord : (s : State) (r : ℕ) → IsValid s → IsWord (gpr_value s r)
unfolding gpr_value
gpr_value-IsWord s r v = ground (arith, v.ctl r, v.gpr_super r)

pub status_trap-IsWord : (stat : ℕ) → IsWord stat → IsWord (status_trap stat)
status_trap-IsWord stat h = omega (arith, status_trap_lem stat h)

pub status_rfi-IsWord : (stat : ℕ) → IsWord stat → IsWord (status_rfi stat)
status_rfi-IsWord stat h = omega (arith, status_rfi_lem stat h)

pub set_ll-IsWord : (stat val : ℕ) → IsWord stat → IsWord (set_ll stat val)
set_ll-IsWord stat val h = omega (arith, set_ll_lem stat val h)

pub set_swiarg-IsWord : (stat val : ℕ) → IsWord stat → IsWord (set_swiarg stat val)
set_swiarg-IsWord stat val h = omega (arith, set_swiarg_lem stat val h)

pub u16-IsWord : (n : ℕ) → IsWord (u16 n)
u16-IsWord n = omega arith

pub regnum_bound-le : (t : InterType) → regnum_bound t ≤ 32
regnum_bound-le gprup = omega arith
regnum_bound-le ctlup = omega arith
regnum_bound-le _ = omega arith

pub regnum-lt : (s : State) → IsValid s → s.regnum < 32
regnum-lt s v = omega (arith, v.regnum, regnum_bound-le s.type)

-- New values for the state between the two stages.
pub with_inter :
    (s : State) (n rv ns np : ℕ) (t : InterType)
    → IsValid s
    → n < regnum_bound t
    → IsWord rv
    → IsWord ns
    → IsWord np
    → IsValid (record s { regnum = n; regval = rv; newstat = ns; nextpc = np; type = t })
with_inter s n rv ns np t v hn hrv hns hnp = record {
  pc = v.pc;
  gpr_super = v.gpr_super;
  ctl = v.ctl;
  regval = hrv;
  newstat = hns;
  nextpc = hnp;
  regnum = hn;
}

pub take_trap-IsValid : (s : State) → IsValid s → IsValid (take_trap s)
unfolding take_trap
take_trap-IsValid s v =
    with_inter s _ _ _ _ trap v (regnum-lt s v) v.pc (status_trap-IsWord s.newstat v.newstat)
      v.nextpc

-- The rest of a stage after a register has been read.
pub gpreg_read-Keeps :
    (P : State → Output → Type 0) (s : State) (regnum : ℕ) (rest : ℕ → Stage)
    → IsValid s
    → ((x : ℕ) → IsWord x → Keeps P (rest x))
    → Keeps P (gpreg_read s regnum >>= rest)
unfolding gpreg_read
gpreg_read-Keeps P s regnum rest v keep =
    within (ltb regnum num_gpregs) (gpr_value s regnum) (gpr_value-IsWord s regnum v)
  where
    within : (b : Bool) (x : ℕ) → IsWord x → Keeps P ((if b then some x else none) >>= rest)
    within true x h = keep x h
    within false x h = tt

-- The stage is defined only where the register is there.
pub gpreg_read-then :
    (P : State → Output → Type 0) (s : State) (regnum : ℕ) (rest : ℕ → Stage)
    → ((x : ℕ) → Keeps P (rest x))
    → Keeps P (gpreg_read s regnum >>= rest)
gpreg_read-then P s regnum rest keep = elim (Option-cases (gpreg_read s regnum)) [
  | inl e ↦ rw e tt
  | inr (x, e) ↦ rw e (keep x)
]

-- The rest of a stage after the ALU has computed a word.
pub alu_exec-Keeps :
    (P : State → Output → Type 0) (op : AluOp) (x y : ℕ) (rest : ℕ → Stage)
    → IsWord x
    → IsWord y
    → ((r : ℕ) → IsWord r → Keeps P (rest r))
    → Keeps P (alu_exec op x y >>= rest)
alu_exec-Keeps P op x y rest hx hy keep = elim (Option-cases (alu_exec op x y)) [
  | inl e ↦ rw e tt
  | inr (r, e) ↦ rw e (keep r (alu_exec-IsWord op x y hx hy e))
]

pub if-Keeps :
    (P : State → Output → Type 0) (b : Bool) (x y : Stage)
    → (b ≡ true → Keeps P x)
    → (b ≡ false → Keeps P y)
    → Keeps P (if b then x else y)
if-Keeps P true x y hx hy = hx refl
if-Keeps P false x y hx hy = hy refl
