-- ===== src/Core/Faults.antt =====
-- Memory faults and coprocessor privileges of sim_core.c, as the code treats them.
use native.Mathlib.Nat.{one-le-pow, pow-le-pow_right}
use cn.Common.Masks.{zero-bit_and}
use cn.Common.{
  ◌>>=◌, ℕ, if_branches, ◌≤◌, ◌^◌, true, false, ◌≡◌, ◌<◌, ◌≢◌, refl, sym, arith, not, ◌&&◌, ◌==◌,
}
use cn.Common.Words.{u8}
use cn.Instr.{Decoded}
use cn.Core.{
  State, Input, Output, InterType, CoprocOp, status, epc, dfaulthdl, ifaulthdl, umcpen, load,
  loadlnk, store, scond,
}
use cn.Core.Regs.{gpreg_read, in_user_mode, is_set, take_trap, Stage}
use cn.Core.Coproc.{cp_denied, with_coproc, exec_coproc}
use cn.Core.Exec.{sim_core_exec}
use cn.Core.Update.{
  Updated, propagate_signals, advance, update_memory, update_by_type, is_trap, update_core,
  sim_core_update, write_ctl, count_cycle, data_fault, update_load, update_loadlnk, update_store,
  update_scond,
}
use cn.Core.Valid.{Keeps}
use cn.Core.Valid.Rules.{gpreg_read-then, if-Keeps}
use cn.Core.Isolation.{IsAccess}

-- The mask of a coprocessor number is never zero, so `! cpmask` is.
cp_denied-never : (d : Decoded) (s : State) → d.field1 < 8 → is_set (cp_denied d s) ≡ false
unfolding cp_denied
cp_denied-never d s h =
    let low : 1 ≤ 2 ^ d.field1 = one-le-pow d.field1 2 (omega arith) in
    let high : 2 ^ d.field1 ≤ 2 ^ 7 = pow-le-pow_right (omega arith) {j = 7} (omega arith) in
    ground (arith, low, high, zero-bit_and (s.ctl umcpen))

-- What reaches the coprocessor.
abbrev pub Selected : Decoded → State → Output → Type 0
Selected d t output = (output.coproc.op ≢ CoprocOp.none) × (output.coproc.select ≡ d.field1)

module _ (d : Decoded) (s : State) (output : Output) (h : d.field1 < 8) where
  passed :
      (rest : Stage) → Keeps (Selected d) rest → Keeps (Selected d) (with_coproc d s output rest)
  unfolding with_coproc
  passed rest keep =
      if-Keeps (Selected d) (in_user_mode s) _ _
        (λ _.
          if-Keeps (Selected d) (is_set (cp_denied d s)) _ _
            (λ e. absurd (ground (arith, cp_denied-never d s h))) (λ _. keep))
        (λ _. keep)

  reading :
      (rest : ℕ → Stage)
      → ((x : ℕ) → Keeps (Selected d) (rest x))
      → Keeps (Selected d) (gpreg_read s d.field0 >>= rest)
  reading rest keep = gpreg_read-then (Selected d) s d.field0 rest keep

  -- A coprocessor instruction goes out to the coprocessor that it names in user mode too,
  -- whatever the enable bits in `umcpen` are: the test for the privilege never fails.
  pub exec_coproc-Selected : Keeps (Selected d) (exec_coproc d s output)
  unfolding exec_coproc
  exec_coproc-Selected =
      let selected : d.field1 ≡ u8 d.field1 = omega arith in
      if-Keeps (Selected d) (d.opcode == 0x19) _ _ (λ _. passed _ (ground arith, sym selected))
        λ _.
          if-Keeps (Selected d) (d.opcode == 0x1A) _ _
            (λ _. passed _ (reading _ λ x. (ground arith, sym selected)))
            λ _. passed _ (reading _ λ x. (ground arith, sym selected))

-- At the handler, with the status and the `epc` of before.
abbrev Faulted : State → State → Type 0
Faulted s t = (t.pc ≡ s.ctl dfaulthdl) × (t.ctl status ≡ s.ctl status) × (t.ctl epc ≡ s.ctl epc)

module _ (s : State) (output : Output) (input : Input) (fault : input.data_in.fault ≡ true) where
  update_memory-Faulted :
      (complete : State → Input → State) → Faulted s (update_memory complete s output input).1
  unfolding update_memory advance count_cycle data_fault
  update_memory-Faulted complete = ground (arith, fault)

  update_by_type-Faulted :
      (t : InterType) → IsAccess t → Faulted s (update_by_type t s output input).1
  unfolding update_by_type
  update_by_type-Faulted load a = update_memory-Faulted update_load
  update_by_type-Faulted loadlnk a = update_memory-Faulted update_loadlnk
  update_by_type-Faulted store a = update_memory-Faulted update_store
  update_by_type-Faulted scond a = update_memory-Faulted update_scond
  update_by_type-Faulted _ a = absurd a

-- A data fault takes the processor to the handler in `dfaulthdl` in the mode of the instruction
-- that faulted, with neither the status that a trap sets nor the address of the instruction
-- saved: the trap is entered only in `newstat`, after that has become the status.
pub sim_core_update-data_fault :
    (s : State) (output : Output) (input : Input)
    → IsAccess s.type
    → s.instr_stall ≡ false
    → s.sleeping ≡ false
    → input.data_in.fault ≡ true
    → let t = (sim_core_update s output input).1 in
      (t.pc ≡ s.ctl dfaulthdl) × (t.ctl status ≡ s.newstat) × (t.ctl epc ≡ s.ctl epc)
unfolding sim_core_update propagate_signals update_core
sim_core_update-data_fault s output input access going awake fault =
    if_branches At s.instr_stall _ _ (λ e. absurd (ground arith))
      λ _.
        if_branches At (s.sleeping && not (is_trap s)) _ _ (λ e. absurd (ground arith))
          λ _.
            update_by_type-Faulted (write_ctl (propagate_signals s output input).0 status s.newstat)
              (propagate_signals s output input).1 input fault s.type access
  where
    At : Updated → Type 0
    At (r, t, _) = (t.pc ≡ s.ctl dfaulthdl) × (t.ctl status ≡ s.newstat) × (t.ctl epc ≡ s.ctl epc)

-- The core waits for an instruction where it was.
abbrev pub Waits : State → State → Type 0
Waits s t = (t.pc ≡ s.pc) × (t.ctl status ≡ s.ctl status) × (t.instr_stall ≡ true)

update_core-Waits :
    (t : State) (output : Output) (input : Input)
    → t.instr_stall ≡ true
    → Waits t (sim_core_update t output input).1
unfolding sim_core_update propagate_signals update_core count_cycle
update_core-Waits t output input e =
    if_branches (λ (u : Updated). Waits t u.1) t.instr_stall _ _ (λ _. (refl, refl, e))
      (λ e'. absurd (ground arith))

-- A fault that answers the fetch of an instruction after a cycle without an answer is lost: the
-- core stays where it is, in the status that it has, and goes on waiting.
pub fetch_fault-lost :
    (s : State) (output output' : Output) (input late_input : Input)
    → s.instr_stall ≡ true
    → s.data_stall ≡ false
    → s.sleeping ≡ false
    → input.instr.valid ≡ false
    → input.instr.fault ≡ true
    → Keeps (λ t _. Waits s (sim_core_update t output' late_input).1) (sim_core_exec s output input)
unfolding sim_core_exec take_trap
fetch_fault-lost s output output' input late_input stalled e0 e1 e2 fault =
    let Lost : State → Output → Type 0 = λ t _. Waits s (sim_core_update t output' late_input).1 in
    if-Keeps Lost s.data_stall _ _ (λ e. absurd (ground arith))
      λ _.
        if-Keeps Lost s.sleeping _ _ (λ e. absurd (ground arith))
          λ _.
            if-Keeps Lost input.instr.valid _ _ (λ e. absurd (ground arith))
              λ _.
                if-Keeps Lost input.instr.fault _ _
                  (λ _.
                    update_core-Waits
                      (take_trap (record s { nextpc = s.ctl ifaulthdl; regval = s.pc })) output'
                      late_input stalled)
                  (λ e. absurd (ground arith))
