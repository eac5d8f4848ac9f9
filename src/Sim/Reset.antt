-- ===== src/Sim/Reset.antt =====
-- A reset, and any number of cycles, keep the simulator within its bounds.
use cn.Common.{Holds, bind-Holds, ℕ, zero, suc, arith, All, some}
use cn.Common.Words.{IsWord}
use cn.Core.{Result, success, failure, num_cpregs}
use cn.CpIf.{CpHdr, clear_regs, sim_cp_hdr_reset}
use cn.Nvram.{nvram_state_reset}
use cn.Uart.Boxes.{uart_state_reset-empty}
use cn.Sim.{
  System, Coprocs, physmem_numwords, zeros, reset_core, reset_mem, reset_coprocs, reset, cycle,
  steps,
}
use cn.Sim.Words.{HasWords, update-IsWord}
use cn.Sim.Valid.{CoprocWords, IsSystem, cycle-IsSystem}

-- The simulator after cycles that C defines.
abbrev pub RunsOn : Result × System → Type 0
RunsOn (result, s) = IsSystem s

go_on :
    (n : ℕ) (a : Result × System)
    → ((s : System) → IsSystem s → Holds RunsOn (steps n s))
    → RunsOn a
    → Holds RunsOn (elim a.0 [ success ↦ steps n a.1 | failure ↦ some (failure, a.1) ])
go_on n (success, s) later h = later s h
go_on n (failure, s) later h = h

pub steps-IsSystem : (n : ℕ) (s : System) → IsSystem s → Holds RunsOn (steps n s)
unfolding steps
steps-IsSystem zero s h = h
steps-IsSystem (suc n) s h =
    bind-Holds RunsOn (cycle s) _ λ a e. go_on n a (steps-IsSystem n) (rw e at (cycle-IsSystem s h))

clear_regs-IsWord :
    (left : ℕ) (regs : ℕ → ℕ)
    → ((i : ℕ) → IsWord (regs i))
    → (i : ℕ) → IsWord (clear_regs left regs i)
unfolding clear_regs
clear_regs-IsWord zero regs h = h
clear_regs-IsWord (suc left) regs h =
    update-IsWord (clear_regs left regs) left 0 (clear_regs-IsWord left regs h) (omega arith)

reset_regs : (hdr : CpHdr) → HasWords hdr → HasWords (sim_cp_hdr_reset hdr)
unfolding sim_cp_hdr_reset
reset_regs hdr h = clear_regs-IsWord num_cpregs hdr.regs h

reset_coprocs-Words : (c : Coprocs) → CoprocWords c → Holds CoprocWords (reset_coprocs c)
unfolding reset_coprocs nvram_state_reset
reset_coprocs-Words c h =
    rw (uart_state_reset-empty (record (c.uart) { hdr = sim_cp_hdr_reset c.uart.hdr })) (record {
      timer = reset_regs c.timer h.timer;
      nvram = record {
        regs = reset_regs c.nvram.hdr h.nvram.regs;
        image = h.nvram.image;
        val_pend = omega arith;
      };
      uart = record { regs = reset_regs c.uart.hdr h.uart.regs; in_box = tt };
    })

zeros-All : (n : ℕ) → All IsWord (zeros n)
zeros-All zero = tt
zeros-All (suc n) = (omega arith, zeros-All n)

-- Of a core at reset, whatever the memory and the coprocessors are.
pub reset_core-IsSystem :
    (s : System) → All IsWord s.physmem → CoprocWords s.coprocs → IsSystem (reset_core s)
unfolding reset_core
reset_core-IsSystem s hm hc = record {
  core = record {
    pc = omega arith;
    gpr_super = λ i. omega arith;
    ctl = λ i. omega arith;
    regval = omega arith;
    newstat = omega arith;
    nextpc = omega arith;
    regnum = omega arith;
  };
  output = record {
    data_out = (omega arith, omega arith);
    instr = (omega arith, omega arith);
    select = omega arith;
    addr = omega arith;
    value = omega arith;
  };
  input = record { data_in = omega arith; instr = omega arith; coproc = omega arith };
  memory = hm;
  coprocs = hc;
}

pub reset_mem-IsSystem : (s : System) → IsSystem s → IsSystem (reset_mem s)
unfolding reset_mem
reset_mem-IsSystem s h = record {
  core = h.core;
  output = h.output;
  input = h.input;
  memory = zeros-All physmem_numwords;
  coprocs = h.coprocs;
}

pub reset-IsSystem :
    (s : System) → All IsWord s.physmem → CoprocWords s.coprocs → Holds IsSystem (reset s)
unfolding reset
reset-IsSystem s hm hc = bind-Holds IsSystem (reset_coprocs s.coprocs) _ λ c e.
    let words = (rw e at (reset_coprocs-Words s.coprocs hc)) in
    reset_mem-IsSystem _ (reset_core-IsSystem (record s { coprocs = c }) hm words)
