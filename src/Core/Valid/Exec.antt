-- ===== src/Core/Valid/Exec.antt =====
-- `sim_core_exec` keeps the core valid.
use cn.Common.{ℕ, Bool, ◌+◌, arith, inl, inr, ◌==◌, leb, Option-cases}
use cn.Common.Words.{IsWord}
use cn.Instr.{Decoded, decode_instruction}
use cn.Instr.Fields.{HasNumbers, decode_instruction-HasNumbers}
use cn.Core.{State, Input, Output, status, ifaulthdl, illophdl, exihdl}
use cn.Core.Regs.{check_pending_interrupt, take_trap}
use cn.Core.Exec.{execute, exec_interrupt, exec_decode, exec_fetched, exec_sleeping, sim_core_exec}
use cn.Core.Valid.{IsValid, IsOutput, Keeps, AreValid}
use cn.Core.Valid.Rules.{with_inter, take_trap-IsValid, u16-IsWord, if-Keeps}
use cn.Core.Valid.Stages.{exec_compute-AreValid, exec_branch-AreValid}
use cn.Core.Valid.Bus.{
  exec_memory-AreValid, exec_coproc-AreValid, exec_sleep-AreValid, exec_mode-AreValid,
}

execute-AreValid :
    (d : Decoded) (s : State) (output : Output)
    → HasNumbers d
    → IsValid s
    → IsOutput output
    → Keeps AreValid (execute d s output)
unfolding execute
execute-AreValid d s output isd v o =
    if-Keeps AreValid (leb d.opcode 0x0D) _ _
      (λ e. exec_compute-AreValid d s output v o (isd.register (ground arith)))
      λ e1.
        if-Keeps AreValid (d.opcode == 0x0E) _ _ (λ e. exec_sleep-AreValid d s output v o)
          λ e2.
            if-Keeps AreValid (leb d.opcode 0x14) _ _ (λ e. exec_branch-AreValid d s output v o)
              λ e3.
                if-Keeps AreValid (leb d.opcode 0x18) _ _
                  (λ e.
                    exec_memory-AreValid d s output v o
                      (isd.address_register (ground arith) (ground arith)))
                  λ e4.
                    if-Keeps AreValid (leb d.opcode 0x1B) _ _
                      (λ e.
                        let fields = isd.coproc (ground arith) (ground arith) in
                        exec_coproc-AreValid d s output v o
                          (isd.address_register (ground arith) (ground arith)) fields.0 fields.1)
                      λ e5.
                        if-Keeps AreValid (leb d.opcode 0x1F) _ _
                          (λ e. exec_mode-AreValid d s output v o isd.control (ground arith))
                          λ e6. (v, o)

module _ (s : State) (output : Output) (input : Input) (v : IsValid s) (o : IsOutput output) where
  trapped :
      (np rv : ℕ)
      → IsWord np
      → IsWord rv
      → AreValid (take_trap (record s { nextpc = np; regval = rv })) output
  trapped np rv h hr =
      (take_trap-IsValid _ (with_inter s _ rv _ np s.type v v.regnum hr v.newstat h), o)

  interrupted : (i : ℕ) → AreValid (exec_interrupt s i) output
  unfolding exec_interrupt
  interrupted i = trapped _ _ (v.ctl (exihdl + i)) v.regval

  decoded : (w : ℕ) → Keeps AreValid (exec_decode w s output)
  unfolding exec_decode
  decoded w = elim (Option-cases (decode_instruction w)) [
    | inl e ↦ rw (e, Keeps) (trapped _ _ (v.ctl illophdl) v.pc)
    | inr (d, e) ↦
        rw (e, Keeps)
          (execute-AreValid d _ output (decode_instruction-HasNumbers w e)
            (with_inter s _ _ _ _ s.type v v.regnum v.regval (v.ctl status) (u16-IsWord _)) o)
  ]

  fetched : Keeps AreValid (exec_fetched s output input)
  unfolding exec_fetched
  fetched = elim (Option-cases (check_pending_interrupt s input)) [
    | inl e ↦ rw (e, Keeps) (decoded input.instr.value)
    | inr (i, e) ↦ rw (e, Keeps) (interrupted i)
  ]

  sleeping : Keeps AreValid (exec_sleeping s output input)
  unfolding exec_sleeping
  sleeping = elim (Option-cases (check_pending_interrupt s input)) [
    | inl e ↦ rw (e, Keeps) (v, o)
    | inr (i, e) ↦ rw (e, Keeps) (interrupted i)
  ]

pub with_stall : (s : State) (b : Bool) → IsValid s → IsValid (record s { instr_stall = b })
with_stall s b v = record {
  pc = v.pc;
  gpr_super = v.gpr_super;
  ctl = v.ctl;
  regval = v.regval;
  newstat = v.newstat;
  nextpc = v.nextpc;
  regnum = v.regnum;
}

-- From a valid core with valid pins `sim_core_exec`, where C defines what it does, ends in a
-- valid core with valid pins: all registers hold words, and the register number, coprocessor
-- number and coprocessor register number that it leaves are in the bounds of their arrays.
pub sim_core_exec-AreValid :
    (s : State) (output : Output) (input : Input)
    → IsValid s
    → IsOutput output
    → Keeps AreValid (sim_core_exec s output input)
unfolding sim_core_exec
sim_core_exec-AreValid s output input v o =
    if-Keeps AreValid s.data_stall _ _ (λ _. (v, o))
      λ _.
        if-Keeps AreValid s.sleeping _ _ (λ _. sleeping s output input v o)
          λ _.
            if-Keeps AreValid input.instr.valid _ _
              (λ _. fetched _ output input (with_stall s _ v) o)
              λ _.
                if-Keeps AreValid input.instr.fault _ _
                  (λ _. trapped s output input v o _ _ (v.ctl ifaulthdl) v.pc)
                  λ _. (with_stall s _ v, o)
