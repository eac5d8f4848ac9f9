-- ===== src/Sim/Words.antt =====
-- The parts of the simulator around the core hold words, and put words on its pins.
use cn.Common.{
  Holds, bind-Holds, ℕ, arith, Bool, true, false, not, List, All, All-get_elem?, All-set, get_elem?,
  length, update, ltb, ◌==◌, if_branches,
}
use cn.Common.Words.{IsWord}
use cn.Common.Bits.{bit_and-lt, bit_or-lt}
use cn.Core.{Input, Output, MemInput, MemOutput}
use cn.CpIf.{CpHdr, signal}
use cn.Memif.{MemifState, perform, begin_access, sim_memif_access}
use cn.Core.Regs.{is_set}
use cn.Core.Valid.Rules.{u16-IsWord}
use cn.Timer.{
  decrement, reg_ctl, reg_cycle_lo, reg_cycle_hi, timer_state_data, timer_state_exec, set_enabled,
  get_enabled,
}
use cn.Utils.{field_setbits16, bitmask16}

-- The pins of the core that hold words.
pub record IsPins (input : Input) : Type 0 where
  pub data_in : IsWord input.data_in.value
  pub instr : IsWord input.instr.value
  pub coproc : IsWord input.coproc

abbrev pub HasWords : CpHdr → Type 0
HasWords hdr = (i : ℕ) → IsWord (hdr.regs i)

pub update-IsWord :
    (regs : ℕ → ℕ) (r v : ℕ)
    → ((i : ℕ) → IsWord (regs i))
    → IsWord v
    → (i : ℕ) → IsWord (update regs r v i)
update-IsWord regs r v h hv i = if_branches IsWord (r == i) v (regs i) (λ _. hv) (λ _. h i)

pub signal-IsPins :
    (hdr : CpHdr) (input : Input) (level : Bool) → IsPins input → IsPins (signal hdr input level)
signal-IsPins hdr input level h = record { data_in = h.data_in; instr = h.instr; coproc = h.coproc }

-- What an access to the memory gives.
abbrev pub AccessWords : MemInput × MemifState × List ℕ → Type 0
AccessWords (input, m, mem) = IsWord input.value × All IsWord mem

perform-Words :
    (input : MemInput) (o : MemOutput) (m : MemifState) (mem : List ℕ)
    → IsWord input.value
    → IsWord o.value
    → All IsWord mem
    → Holds AccessWords (perform input o m mem)
unfolding perform
perform-Words input o m mem hi ho hm =
    if_branches (Holds AccessWords) (ltb m.memlen o.addr) _ _ (λ _. (hi, hm))
      λ _.
        if_branches (Holds AccessWords) o.read _ _
          (λ _.
            bind-Holds AccessWords (get_elem? mem o.addr) _
              λ v e. (All-get_elem? IsWord mem o.addr hm e, hm))
          λ _.
            if_branches (Holds AccessWords) (ltb o.addr (length mem)) _ _
              (λ _. (hi, All-set IsWord mem o.addr o.value hm ho)) λ _. tt

pub sim_memif_access-Words :
    (input : MemInput) (o : MemOutput) (m : MemifState) (mem : List ℕ)
    → IsWord input.value
    → IsWord o.value
    → All IsWord mem
    → Holds AccessWords (sim_memif_access input o m mem)
unfolding sim_memif_access
sim_memif_access-Words input o m mem hi ho hm =
    if_branches (Holds AccessWords) o.request _ _
      (λ _.
        if_branches (Holds AccessWords) (not ((begin_access m).delay == 0)) _ _ (λ _. (hi, hm))
          λ _.
            perform-Words (record input { fault = false; valid = false }) o (begin_access m) mem hi
              ho hm)
      λ _. (hi, hm)

-- A coprocessor's registers and the pins that it drives.
abbrev pub TimerWords : CpHdr × Input → Type 0
TimerWords (hdr, input) = HasWords hdr × IsPins input

field_setbits16-IsWord :
    (field start num val : ℕ) → IsWord field → IsWord (field_setbits16 field start num val)
unfolding field_setbits16 bitmask16
field_setbits16-IsWord field start num val h =
    bit_or-lt 16 _ _ (bit_and-lt 16 field _ h (omega arith))
      (bit_and-lt 16 _ _ (omega arith) (omega arith))

set_enabled-HasWords : (hdr : CpHdr) (en_val : ℕ) → HasWords hdr → HasWords (set_enabled hdr en_val)
unfolding set_enabled
set_enabled-HasWords hdr en_val h =
    update-IsWord hdr.regs reg_ctl _ h
      (field_setbits16-IsWord (hdr.regs reg_ctl) 0 1 en_val (h reg_ctl))

pub timer_state_data-Words :
    (hdr : CpHdr) (input : Input)
    → HasWords hdr
    → IsPins input
    → TimerWords (timer_state_data hdr input)
unfolding timer_state_data
timer_state_data-Words hdr input h p =
    let counted = decrement hdr reg_cycle_lo in
    let hc = update-IsWord hdr.regs reg_cycle_lo _ h (u16-IsWord _) in
    if_branches TimerWords (is_set (get_enabled hdr)) _ _
      (λ _.
        if_branches TimerWords (counted.regs reg_cycle_lo == 0) _ _
          (λ _.
            if_branches TimerWords (counted.regs reg_cycle_hi == 0) _ _
              (λ _. (set_enabled-HasWords counted 0 hc, signal-IsPins counted input true p))
              λ _. (update-IsWord counted.regs reg_cycle_hi _ hc (u16-IsWord _), p))
          λ _. (hc, p))
      λ _. (h, p)

pub timer_state_exec-Words :
    (hdr : CpHdr) (input : Input) (output : Output)
    → HasWords hdr
    → IsPins input
    → TimerWords (timer_state_exec hdr input output)
unfolding timer_state_exec
timer_state_exec-Words hdr input output h p =
    if_branches TimerWords (output.coproc.value == 1) _ _
      (λ _. (h, signal-IsPins hdr input false p)) λ _. (h, p)
