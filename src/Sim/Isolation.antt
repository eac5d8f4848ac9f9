-- ===== src/Sim/Isolation.antt =====
-- A cycle of the whole simulator with a program in user mode.
use cn.Common.{Holds, bind-Holds, Option}
use cn.Core.{State, Result}
use cn.Core.Exec.{sim_core_exec}
use cn.Core.Valid.{IsValid, IsOutput}
use cn.Core.Isolation.{RunsUser, Contained}
use cn.Core.Isolation.Cycle.{cycle-Contained}
use cn.Memif.{sim_memif_access}
use cn.Sim.{System, coproc_exec, coproc_data, coproc_read, cycle}

-- The core after a cycle that C defines.
abbrev pub CoreContained : State → Option (Result × System) → Type 0
CoreContained s = Holds (λ (result, after). Contained s after.core_state)

-- With any contents of the memory and any state of the coprocessors and of their threads, a cycle
-- of the simulator that C defines, of a core in user mode, leaves the supervisor's registers as
-- they were, and the core in user mode or in a handler.
pub system_cycle-Contained :
    (s : System)
    → IsValid s.core_state
    → IsOutput s.core_output
    → RunsUser s.core_state
    → CoreContained s.core_state (cycle s)
unfolding cycle
system_cycle-Contained s v o u =
    bind-Holds P (sim_memif_access s.core_input.instr s.core_output.instr s.imem_state s.physmem) _
      λ a _.
        let fetched = record (s.core_input) { instr = a.0 } in
        bind-Holds P (sim_core_exec s.core_state s.core_output fetched) _ λ b e.
          bind-Holds P (coproc_exec s.coprocs fetched b.2) _ λ c _.
            bind-Holds P (coproc_data c.0 c.1) _ λ d _.
              bind-Holds P (sim_memif_access d.1.data_in b.2.data_out s.dmem_state a.2) _ λ m _.
                let late = coproc_read d.0 (record (d.1) { data_in = m.0 }) b.2 in
                rw e at (cycle-Contained s.core_state s.core_output fetched late v o u)
  where
    P : Result × System → Type 0
    P (result, after) = Contained s.core_state after.core_state
