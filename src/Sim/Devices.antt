-- ===== src/Sim/Devices.antt =====
-- The nvram and the UART hold words, and put words on the pins of the core.
use cn.Common.{
  Holds, bind-Holds, ℕ, ◌-◌, arith, true, false, not, All, All-get_elem?, All-set, get_elem?,
  length, ltb, ◌==◌, bit_and, if_branches,
}
use cn.Common.Words.{IsWord, ◌>>>◌}
use cn.Common.Masks.{bit_and_mask}
use cn.Core.{Input, Output}
use cn.Core.Regs.{is_set}
use cn.Core.Valid.Rules.{u16-IsWord}
use cn.Nvram
use cn.Nvram.{
  NvramState, data_read, data_write, complete, finish_pending, nvram_addr, nvram_state_data,
  exec_read, exec_write, nvram_state_exec,
}
use cn.Sim.Words.{IsPins, HasWords, update-IsWord, signal-IsPins}

pub record NvramWords (state : NvramState) : Type 0 where
  pub regs : HasWords state.hdr
  pub image : All IsWord state.image
  pub val_pend : IsWord state.val_pend

abbrev pub NvramKept : NvramState × Input → Type 0
NvramKept (state, input) = NvramWords state × IsPins input

module _ {state : NvramState} (h : NvramWords state) where
  nvram_write_reg : (r v : ℕ) → IsWord v → NvramWords (Nvram.write_reg state r v)
  nvram_write_reg r v hv = record {
    regs = update-IsWord state.hdr.regs r v h.regs hv;
    image = h.image;
    val_pend = h.val_pend;
  }

  complete-Kept :
      (input : Input) (ctl_int : ℕ) → IsPins input → NvramKept (complete state input ctl_int)
  unfolding complete
  complete-Kept input ctl_int p = (
    record { regs = h.regs; image = h.image; val_pend = h.val_pend },
    if_branches IsPins (is_set (bit_and (Nvram.reg state Nvram.reg_ctl) ctl_int)) _ _
        (λ _. signal-IsPins state.hdr input true p) λ _. p,
  )

  exec_read-Words : NvramWords (exec_read state)
  unfolding exec_read
  exec_read-Words =
      if_branches NvramWords (not (Nvram.reg state Nvram.reg_status == Nvram.status_idle)) _ _
        (λ _. h)
        λ _.
          if_branches NvramWords (ltb (nvram_addr state) state.datalen) _ _
            (λ _. record { regs = h.regs; image = h.image; val_pend = h.val_pend })
            λ _. nvram_write_reg _ _ (omega arith)

  exec_write-Words : NvramWords (exec_write state)
  unfolding exec_write
  exec_write-Words =
      if_branches NvramWords (not (Nvram.reg state Nvram.reg_status == Nvram.status_idle)) _ _
        (λ _. h)
        λ _.
          if_branches NvramWords (ltb (nvram_addr state) state.datalen) _ _
            (λ _. record { regs = h.regs; image = h.image; val_pend = h.regs Nvram.reg_val })
            λ _. nvram_write_reg _ _ (omega arith)

data_read-Words : {state : NvramState} → NvramWords state → Holds NvramWords (data_read state)
unfolding data_read
data_read-Words {state} h =
    if_branches (Holds NvramWords) (ltb state.addr_pend (state.datalen >>> 1)) _ _
      (λ _. bind-Holds NvramWords (get_elem? state.image state.addr_pend) _ λ word e.
        nvram_write_reg
          (nvram_write_reg h Nvram.reg_val word
            (All-get_elem? IsWord state.image state.addr_pend h.image e))
          _ _ (omega arith))
      λ _. nvram_write_reg h _ _ (omega arith)

data_write-Words : {state : NvramState} → NvramWords state → Holds NvramWords (data_write state)
unfolding data_write
data_write-Words {state} h =
    if_branches (Holds NvramWords) (ltb state.addr_pend (state.datalen >>> 1)) _ _
      (λ _.
        if_branches (Holds NvramWords) (ltb state.addr_pend (length state.image)) _ _
          (λ _.
            nvram_write_reg
              (record {
                regs = h.regs;
                image =
                    All-set IsWord state.image state.addr_pend state.val_pend h.image h.val_pend;
                val_pend = h.val_pend;
              })
              _ _ (omega arith))
          λ _. tt)
      λ _. nvram_write_reg h _ _ (omega arith)

finish_pending-Kept :
    {state : NvramState} (input : Input)
    → NvramWords state
    → IsPins input
    → Holds NvramKept (finish_pending state input)
unfolding finish_pending
finish_pending-Kept {state} input h p =
    if_branches (Holds NvramKept) (state.inst_pend == Nvram.instr_read) _ _
      (λ _.
        bind-Holds NvramKept (data_read state) _
          λ s e. complete-Kept (rw e at (data_read-Words h)) input _ p)
      λ _.
        if_branches (Holds NvramKept) (state.inst_pend == Nvram.instr_write) _ _
          (λ _.
            bind-Holds NvramKept (data_write state) _
              λ s e. complete-Kept (rw e at (data_write-Words h)) input _ p)
          λ _. (record { regs = h.regs; image = h.image; val_pend = h.val_pend }, p)

pub nvram_state_data-Kept :
    (state : NvramState) (input : Input)
    → NvramWords state
    → IsPins input
    → Holds NvramKept (nvram_state_data state input)
unfolding nvram_state_data
nvram_state_data-Kept state input h p =
    if_branches (Holds NvramKept) (state.delay == 0) _ _ (λ _. (h, p))
      λ _.
        let counted : NvramWords (record state { delay = state.delay - 1 }) = record {
          regs = h.regs;
          image = h.image;
          val_pend = h.val_pend;
        } in
        if_branches (Holds NvramKept) (not (state.delay - 1 == 0)) _ _ (λ _. (counted, p))
          λ _. finish_pending-Kept input counted p

pub nvram_state_exec-Kept :
    (state : NvramState) (input : Input) (output : Output)
    → NvramWords state
    → IsPins input
    → NvramKept (nvram_state_exec state input output)
unfolding nvram_state_exec
nvram_state_exec-Kept state input output h p =
    let instr = output.coproc.value in
    if_branches NvramKept (not (state.delay == 0)) _ _ (λ _. (h, p))
      λ _.
        if_branches NvramKept (instr == Nvram.instr_read) _ _ (λ _. (exec_read-Words h, p))
          λ _.
            if_branches NvramKept (instr == Nvram.instr_write) _ _ (λ _. (exec_write-Words h, p))
              λ _.
                if_branches NvramKept (instr == Nvram.instr_ack) _ _
                  (λ _.
                    (nvram_write_reg h _ _ (omega arith), signal-IsPins state.hdr input false p))
                  λ _.
                    if_branches NvramKept (instr == Nvram.instr_getlen_lo) _ _
                      (λ _.
                        (nvram_write_reg h _ _ (omega (arith, bit_and_mask 16 state.datalen)), p))
                      λ _.
                        if_branches NvramKept (instr == Nvram.instr_getlen_hi) _ _
                          (λ _. (nvram_write_reg h _ _ (u16-IsWord _), p)) λ _. (h, p)
