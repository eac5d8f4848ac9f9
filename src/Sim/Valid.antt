-- ===== src/Sim/Valid.antt =====
-- What always holds of the whole simulator.
use cn.Common.{Holds, bind-Holds, ℕ, none, some, All, Option-cases, inl, inr, if_branches, ◌==◌}
use cn.Common.Words.{IsWord}
use cn.Core.{Input, Output, Result, exec, read, write}
use cn.Core.Exec.{sim_core_exec}
use cn.Core.Valid.{IsValid, IsOutput}
use cn.Core.Valid.Exec.{sim_core_exec-AreValid}
use cn.Core.Valid.Update.{sim_core_update-AreValid}
use cn.CpIf.{CpHdr, sim_cp_read, sim_cp_write}
use cn.Memif.{sim_memif_access}
use cn.Sim.{
  System, Coprocs, sim_core_cp_op_pending, exec_one, coproc_exec, coproc_data, hdr_of, with_hdr,
  coproc_read, coproc_write, cycle,
}
use cn.Timer.{timer_state_data}
use cn.Nvram.{nvram_state_data}
use cn.Uart.{uart_state_exec}
use cn.Sim.Words.{
  IsPins, HasWords, update-IsWord, sim_memif_access-Words, timer_state_data-Words,
  timer_state_exec-Words,
}
use cn.Sim.Devices.{NvramWords, nvram_state_data-Kept, nvram_state_exec-Kept}
use cn.Sim.Serial.{UartWords, uart_state_data-Kept, uart_state_exec-Kept}

pub record CoprocWords (c : Coprocs) : Type 0 where
  pub timer : HasWords c.timer
  pub nvram : NvramWords c.nvram
  pub uart : UartWords c.uart

-- The core is valid, and the memory, the coprocessors and the pins hold words.
pub record IsSystem (s : System) : Type 0 where
  pub core : IsValid s.core_state
  pub output : IsOutput s.core_output
  pub input : IsPins s.core_input
  pub memory : All IsWord s.physmem
  pub coprocs : CoprocWords s.coprocs

abbrev CoprocsKept : Coprocs × Input → Type 0
CoprocsKept (c, input) = CoprocWords c × IsPins input

exec_one-Kept :
    (cpnum : ℕ) (c : Coprocs) (input : Input) (output : Output)
    → CoprocWords c
    → IsPins input
    → Holds CoprocsKept (exec_one cpnum c input output)
unfolding exec_one
exec_one-Kept cpnum c input output h p =
    if_branches (Holds CoprocsKept) (cpnum == 0) _ _
      (λ _.
        let (ht, pt) = timer_state_exec-Words c.timer input output h.timer p in
        (record { timer = ht; nvram = h.nvram; uart = h.uart }, pt))
      λ _.
        if_branches (Holds CoprocsKept) (cpnum == 1) _ _
          (λ _.
            let (hn, pn) = nvram_state_exec-Kept c.nvram input output h.nvram p in
            (record { timer = h.timer; nvram = hn; uart = h.uart }, pn))
          λ _.
            if_branches (Holds CoprocsKept) (cpnum == 2) _ _
              (λ _. bind-Holds CoprocsKept (uart_state_exec c.uart input output) _ λ a e.
                let (hu, pu) = (rw e at (uart_state_exec-Kept c.uart input output h.uart p)) in
                (record { timer = h.timer; nvram = h.nvram; uart = hu }, pu))
              λ _. (h, p)

coproc_exec-Kept :
    (c : Coprocs) (input : Input) (output : Output)
    → CoprocWords c
    → IsPins input
    → Holds CoprocsKept (coproc_exec c input output)
unfolding coproc_exec
coproc_exec-Kept c input output h p =
    elim (sim_core_cp_op_pending exec output)
      as (λ o.
        Holds CoprocsKept
          (elim o [ none ↦ some (c, input) | some cpnum ↦ exec_one cpnum c input output ])) [
            | none ↦ (h, p)
            | some cpnum ↦ exec_one-Kept cpnum c input output h p
          ]

coproc_data-Kept :
    (c : Coprocs) (input : Input)
    → CoprocWords c
    → IsPins input
    → Holds CoprocsKept (coproc_data c input)
unfolding coproc_data
coproc_data-Kept c input h p =
    let (ht, pt) = timer_state_data-Words c.timer input h.timer p in
    bind-Holds CoprocsKept (nvram_state_data c.nvram (timer_state_data c.timer input).1) _ λ a e.
      let (hn, pn) = (rw e at (nvram_state_data-Kept c.nvram _ h.nvram pt)) in
      let (hu, pu) = uart_state_data-Kept c.uart a.1 h.uart pn in
      (record { timer = ht; nvram = hn; uart = hu }, pu)

hdr_of-HasWords : (cpnum : ℕ) (c : Coprocs) → CoprocWords c → Holds HasWords (hdr_of cpnum c)
unfolding hdr_of
hdr_of-HasWords cpnum c h =
    if_branches (Holds HasWords) (cpnum == 0) _ _ (λ _. h.timer)
      λ _.
        if_branches (Holds HasWords) (cpnum == 1) _ _ (λ _. h.nvram.regs)
          λ _. if_branches (Holds HasWords) (cpnum == 2) _ _ (λ _. h.uart.regs) λ _. tt

with_hdr-Words :
    (cpnum : ℕ) (hdr : CpHdr) (c : Coprocs)
    → CoprocWords c
    → HasWords hdr
    → CoprocWords (with_hdr cpnum hdr c)
unfolding with_hdr
with_hdr-Words cpnum hdr c h hh =
    if_branches CoprocWords (cpnum == 0) _ _
      (λ _. record { timer = hh; nvram = h.nvram; uart = h.uart })
      λ _.
        if_branches CoprocWords (cpnum == 1) _ _
          (λ _. record {
            timer = h.timer;
            nvram = record { regs = hh; image = h.nvram.image; val_pend = h.nvram.val_pend };
            uart = h.uart;
          })
          λ _.
            if_branches CoprocWords (cpnum == 2) _ _
              (λ _. record {
                timer = h.timer;
                nvram = h.nvram;
                uart = record { regs = hh; in_box = h.uart.in_box };
              })
              λ _. h

coproc_read-IsPins :
    (c : Coprocs) (input : Input) (output : Output)
    → CoprocWords c
    → IsPins input
    → IsPins (coproc_read c input output)
unfolding coproc_read sim_cp_read
coproc_read-IsPins c input output h p = elim (Option-cases (sim_core_cp_op_pending read output)) [
  | inl e ↦ rw (e, coproc_read) p
  | inr (cpnum, e) ↦ elim (Option-cases (hdr_of cpnum c)) [
    | inl e2 ↦ rw (e, e2, coproc_read) p
    | inr (hdr, e2) ↦
        let words = (rw e2 at (hdr_of-HasWords cpnum c h)) in
        let read_pins : IsPins (sim_cp_read hdr input output) = record {
          data_in = p.data_in;
          instr = p.instr;
          coproc = words output.coproc.addr;
        } in
        rw (e, e2, coproc_read) read_pins
  ]
]

coproc_write-Words :
    (c : Coprocs) (output : Output)
    → CoprocWords c
    → IsOutput output
    → CoprocWords (coproc_write c output)
unfolding coproc_write sim_cp_write
coproc_write-Words c output h o = elim (Option-cases (sim_core_cp_op_pending write output)) [
  | inl e ↦ rw (e, coproc_write) h
  | inr (cpnum, e) ↦ elim (Option-cases (hdr_of cpnum c)) [
    | inl e2 ↦ rw (e, e2, coproc_write) h
    | inr (hdr, e2) ↦
        let words = (rw e2 at (hdr_of-HasWords cpnum c h)) in
        let written =
          with_hdr-Words cpnum (sim_cp_write hdr output) c h
            (update-IsWord hdr.regs output.coproc.addr output.coproc.value words o.value) in
        rw (e, e2, coproc_write) written
  ]
]

-- In a cycle that C defines the core's state and outputs stay within their bounds, and the memory,
-- the registers of the coprocessors, the image of the nvram and the pins hold 16-bit words.
pub cycle-IsSystem : (s : System) → IsSystem s → Holds (λ (result, after). IsSystem after) (cycle s)
unfolding cycle
cycle-IsSystem s h =
    bind-Holds P (sim_memif_access s.core_input.instr s.core_output.instr s.imem_state s.physmem) _
      λ a e1.
        let (ha, ma) =
          (rw e1 at (
            sim_memif_access-Words s.core_input.instr s.core_output.instr s.imem_state s.physmem
              h.input.instr h.output.instr.0 h.memory)) in
        let fetched = record (s.core_input) { instr = a.0 } in
        let pins : IsPins fetched = record {
          data_in = h.input.data_in;
          instr = ha;
          coproc = h.input.coproc;
        } in
        bind-Holds P (sim_core_exec s.core_state s.core_output fetched) _ λ b e2.
          let (vb, ob) =
            (rw e2 at
              (sim_core_exec-AreValid s.core_state s.core_output fetched h.core h.output)) in
          bind-Holds P (coproc_exec s.coprocs fetched b.2) _ λ c e3.
            let (hc, pc) = (rw e3 at (coproc_exec-Kept s.coprocs fetched b.2 h.coprocs pins)) in
            bind-Holds P (coproc_data c.0 c.1) _ λ d e4.
              let (hd, pd) = (rw e4 at (coproc_data-Kept c.0 c.1 hc pc)) in
              bind-Holds P (sim_memif_access d.1.data_in b.2.data_out s.dmem_state a.2) _ λ m e5.
                let (hm, mm) =
                  (rw e5 at (
                    sim_memif_access-Words d.1.data_in b.2.data_out s.dmem_state a.2 pd.data_in
                      ob.data_out.0 ma)) in
                let accessed : IsPins (record (d.1) { data_in = m.0 }) = record {
                  data_in = hm;
                  instr = pd.instr;
                  coproc = pd.coproc;
                } in
                let late = coproc_read-IsPins d.0 _ b.2 hd accessed in
                let (vu, ou) =
                  sim_core_update-AreValid b.1 b.2 _ vb ob
                    (record { data_in = late.data_in; coproc = late.coproc }) in
                record {
                  core = vu;
                  output = ou;
                  input = late;
                  memory = mm;
                  coprocs = coproc_write-Words d.0 b.2 hd ob;
                }
  where
    P : Result × System → Type 0
    P (result, after) = IsSystem after
