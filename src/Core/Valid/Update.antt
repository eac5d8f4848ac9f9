-- ===== src/Core/Valid/Update.antt =====
-- `sim_core_update` keeps the core valid.
use cn.Common.{ℕ, Bool, true, false, zero, suc, arith, not, ◌&&◌, ◌||◌, if◌then◌else◌, update}
use cn.Common.Words.{IsWord}
use cn.Core.{
  State, Input, Output, InterType, Result, success, failure, status, ienable, ipend, dfaulthdl, epc,
  epc_saved, counter_low, counter_high, gprup, branch, brlink, load, loadlnk, store, scond, ctlup,
  cpread, trap, rfi, sleep,
}
use cn.Core.Status.{set_ll, get_gie}
use cn.Core.Regs.{gpreg_write, in_user_mode, is_set}
use cn.Core.Update.{
  Updated, set_bit, pend_from, propagate_signals, count_cycle, advance, write_ctl, update_load,
  update_loadlnk, update_store, update_scond, update_memory, update_trap, update_sleep,
  update_by_type, is_trap, update_core, sim_core_update,
}
use cn.Core.Valid.{IsValid, IsOutput, IsInput, AreValid}
use cn.Core.Valid.Rules.{u16-IsWord, set_ll-IsWord, status_trap-IsWord}

abbrev Ends : Updated → Type 0
Ends (r, s, output) = AreValid s output

if-Ends : (b : Bool) (x y : Updated) → Ends x → Ends y → Ends (if b then x else y)
if-Ends true x y hx hy = hx
if-Ends false x y hx hy = hy

-- New values for the registers.
with_regs :
    (s : State) (gpr ctl : ℕ → ℕ) (pc np ns : ℕ) (sleeping data_stall : Bool)
    → IsValid s
    → ((i : ℕ) → IsWord (gpr i))
    → ((i : ℕ) → IsWord (ctl i))
    → IsWord pc
    → IsWord np
    → IsWord ns
    → IsValid (record s {
      gpr_super = gpr;
      ctl = ctl;
      pc = pc;
      nextpc = np;
      newstat = ns;
      sleeping = sleeping;
      data_stall = data_stall;
    })
with_regs s gpr ctl pc np ns sleeping data_stall v hg hc hp hn hs = record {
  pc = hp;
  gpr_super = hg;
  ctl = hc;
  regval = v.regval;
  newstat = hs;
  nextpc = hn;
  regnum = v.regnum;
}

update-IsWord :
    (f : ℕ → ℕ) (i x : ℕ) → ((j : ℕ) → IsWord (f j)) → IsWord x → (j : ℕ) → IsWord (update f i x j)
update-IsWord f i x hf hx j = ground (arith, hf j)

pub write_ctl-IsValid : (s : State) (i x : ℕ) → IsValid s → IsWord x → IsValid (write_ctl s i x)
write_ctl-IsValid s i x v hx =
    with_regs s _ _ _ _ _ _ _ v v.gpr_super (update-IsWord s.ctl i x v.ctl hx) v.pc v.nextpc
      v.newstat

if-IsValid : (b : Bool) (x y : State) → IsValid x → IsValid y → IsValid (if b then x else y)
if-IsValid true x y hx hy = hx
if-IsValid false x y hx hy = hy

gpreg_write-IsValid : (s : State) (r x : ℕ) → IsValid s → IsWord x → IsValid (gpreg_write s r x)
unfolding gpreg_write
gpreg_write-IsValid s r x v hx =
    let user =
      with_regs s _ _ _ _ _ _ _ v v.gpr_super (update-IsWord s.ctl r x v.ctl hx) v.pc v.nextpc
        v.newstat in
    let super =
      with_regs s _ _ _ _ _ _ _ v (update-IsWord s.gpr_super r x v.gpr_super hx) v.ctl v.pc v.nextpc
        v.newstat in
    if-IsValid (in_user_mode s) _ _ user super

pend_from-IsWord :
    (input : Input) (left i pend : ℕ) → IsWord pend → IsWord (pend_from input left i pend)
unfolding pend_from set_bit
pend_from-IsWord input zero i pend h = h
pend_from-IsWord input (suc left) i pend h = pend_from-IsWord input left (suc i) _ (u16-IsWord _)

count_cycle-Ends :
    (r : Result) (s : State) (output : Output)
    → IsValid s
    → IsOutput output
    → Ends (count_cycle r s output)
unfolding count_cycle
count_cycle-Ends r s output v o = (
  with_regs s _ _ _ _ _ _ _ v v.gpr_super
      (update-IsWord _ counter_high _ (update-IsWord s.ctl counter_low _ v.ctl (u16-IsWord _))
        (ground (arith, v.ctl counter_high)))
      v.pc v.nextpc v.newstat,
  record {
    data_out = o.data_out;
    instr = o.instr;
    select = o.select;
    addr = o.addr;
    value = o.value;
  },
)

with_pins :
    (output : Output) (addr : ℕ) (d i : Bool)
    → IsOutput output
    → IsWord addr
    → IsOutput (record output {
      data_out = record (output.data_out) { request = d };
      instr = record (output.instr) { addr = addr; request = i };
    })
with_pins output addr d i o h = record {
  data_out = o.data_out;
  instr = (o.instr.0, h);
  select = o.select;
  addr = o.addr;
  value = o.value;
}

advance-Ends : (s : State) (output : Output) → IsValid s → IsOutput output → Ends (advance s output)
unfolding advance
advance-Ends s output v o =
    count_cycle-Ends success _ _
      (with_regs s _ _ _ _ _ _ _ v v.gpr_super v.ctl v.nextpc v.nextpc v.newstat)
      (with_pins output s.nextpc output.data_out.request true o v.nextpc)

module _ (s : State) (output : Output) (input : Input) (v : IsValid s) (o : IsOutput output)
    (i : IsInput input) where
  update_memory-Ends :
      (complete : State → Input → State)
      → IsValid (complete s input)
      → Ends (update_memory complete s output input)
  unfolding update_memory
  update_memory-Ends complete h =
      if-Ends (not input.data_in.valid && not input.data_in.fault) _ _
        (count_cycle-Ends success _ _
          (with_regs s _ _ _ _ _ _ true v v.gpr_super v.ctl v.pc v.nextpc v.newstat)
          (with_pins output output.instr.addr output.data_out.request false o o.instr.1))
        (if-Ends input.data_in.fault _ _
          (advance-Ends _ _
            (with_regs s _ _ _ _ _ _ false v v.gpr_super v.ctl v.pc (v.ctl dfaulthdl)
              (status_trap-IsWord _ v.newstat))
            o)
          (advance-Ends _ _
            (with_regs (complete s input) _ _ _ _ _ _ false h h.gpr_super h.ctl h.pc h.nextpc
              h.newstat)
            (with_pins output output.instr.addr false output.instr.request o o.instr.1)))

  with_ll : (val : ℕ) → IsValid (write_ctl s status (set_ll (s.ctl status) val))
  with_ll val = write_ctl-IsValid s status _ v (set_ll-IsWord _ val (v.ctl status))

  update_trap-IsValid : IsValid (update_trap s)
  unfolding update_trap
  update_trap-IsValid =
      with_regs s _ _ _ _ _ _ _ v v.gpr_super
        (update-IsWord _ epc _ (update-IsWord s.ctl epc_saved _ v.ctl (v.ctl epc)) v.regval) v.pc
        v.nextpc v.newstat

  unwakeable : Bool
  unwakeable = not (is_set (get_gie (s.ctl status))) || not (is_set (s.ctl ienable))

  update_sleep-Ends : Ends (update_sleep s output)
  unfolding update_sleep unwakeable
  update_sleep-Ends =
      count_cycle-Ends (if unwakeable then failure else success) _ _
        (with_regs s _ _ _ _ _ _ _ v v.gpr_super v.ctl v.nextpc v.nextpc v.newstat)
        (with_pins output output.instr.addr output.data_out.request false o o.instr.1)

  update_by_type-Ends : (t : InterType) → Ends (update_by_type t s output input)
  unfolding update_by_type
  update_by_type-Ends gprup =
      advance-Ends _ _ (gpreg_write-IsValid s s.regnum s.regval v v.regval) o
  update_by_type-Ends branch = advance-Ends s output v o
  update_by_type-Ends brlink = advance-Ends _ _ (gpreg_write-IsValid s 7 s.regval v v.regval) o
  update_by_type-Ends load =
      update_memory-Ends update_load (gpreg_write-IsValid _ s.regnum _ (with_ll 0) i.data_in)
  update_by_type-Ends loadlnk =
      update_memory-Ends update_loadlnk (gpreg_write-IsValid _ s.regnum _ (with_ll 1) i.data_in)
  update_by_type-Ends store = update_memory-Ends update_store (with_ll 0)
  update_by_type-Ends scond =
      update_memory-Ends update_scond (gpreg_write-IsValid _ s.regnum 1 (with_ll 0) (omega arith))
  update_by_type-Ends ctlup = advance-Ends _ _ (write_ctl-IsValid s s.regnum s.regval v v.regval) o
  update_by_type-Ends cpread = advance-Ends _ _ (gpreg_write-IsValid s s.regnum _ v i.coproc) o
  update_by_type-Ends trap = advance-Ends _ _ update_trap-IsValid o
  update_by_type-Ends rfi = advance-Ends _ _ (write_ctl-IsValid s epc _ v (v.ctl epc_saved)) o
  update_by_type-Ends sleep = update_sleep-Ends

update_core-Ends :
    (s : State) (output : Output) (input : Input)
    → IsValid s
    → IsOutput output
    → IsInput input
    → Ends (update_core s output input)
unfolding update_core
update_core-Ends s output input v o i =
    if-Ends s.instr_stall _ _ (count_cycle-Ends success s output v o) (
      if-Ends (s.sleeping && not (is_trap s)) _ _ (v, o)
        (update_by_type-Ends _ output input (write_ctl-IsValid s status _ v v.newstat) o i s.type))

-- From a valid core, valid pins and words on the input pins `sim_core_update` ends in a valid
-- core with valid pins, whatever kind of instruction is pending and whether or not the memory
-- has answered.
pub sim_core_update-AreValid :
    (s : State) (output : Output) (input : Input)
    → IsValid s
    → IsOutput output
    → IsInput input
    → let (r, s', output') = sim_core_update s output input in AreValid s' output'
unfolding sim_core_update propagate_signals
sim_core_update-AreValid s output input v o i =
    update_core-Ends _ _ input (write_ctl-IsValid s ipend _ v (u16-IsWord _))
      (record {
        data_out = o.data_out;
        instr = o.instr;
        select = o.select;
        addr = o.addr;
        value = o.value;
      })
      i
