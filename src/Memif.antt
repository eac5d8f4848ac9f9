-- ===== src/Memif.antt =====
-- sim_memif.c and sim_memif.h: the delayed access of the core to the memory.
pub mod Latency
pub mod Bounds
mod Tests
use cn.Common.{
  ◌>>=◌, ℕ, ◌+◌, ◌-◌, ◌%◌, ◌^◌, Bool, true, false, not, Option, none, some, List, set, get_elem?,
  length, ltb, leb, ◌==◌, if◌then◌else◌,
}
use cn.Common.Words.{u8}
use cn.Core.{MemInput, MemOutput}

-- The fields of `sim_memif_state_t`. The array that `physmem` points to is one that two such
-- states share, so it is an argument and a result of the access.
pub record MemifState : Type 0 where
  pub memlen : ℕ
  pub delay : ℕ
  pub quiescent : Bool

abbrev pub memif_delay : ℕ
memif_delay = 1

abbrev pub sim_memif_init : ℕ → MemifState
sim_memif_init memlen = record { memlen = memlen; delay = 0; quiescent = true }

abbrev pub Access : Type 0
Access = Option (MemInput × MemifState × List ℕ)

abbrev faulted : MemInput → MemInput
faulted core_input = record core_input { valid = false; fault = true }

abbrev answered : MemInput → MemInput
answered core_input = record core_input { valid = true; fault = false }

-- The access proper, after the delay. `none` stands for an access outside of the array, which C
-- leaves undefined.
unfoldable pub perform : MemInput → MemOutput → MemifState → List ℕ → Access
perform core_input core_output mem_state physmem =
    let done = record mem_state { quiescent = true } in
    if ltb mem_state.memlen core_output.addr
    then some (faulted core_input, done, physmem)
    else if core_output.read
    then (do
      value ← get_elem? physmem core_output.addr
      some (answered (record core_input { value = value }), done, physmem))
    else if ltb core_output.addr (length physmem)
    then some (answered core_input, done, set physmem core_output.addr core_output.value)
    else none

-- The start of the delay, at the first call for a request.
unfoldable pub begin_access : MemifState → MemifState
begin_access mem_state =
    if mem_state.quiescent
    then record mem_state { delay = memif_delay; quiescent = false }
    else mem_state

unfoldable pub sim_memif_access : MemInput → MemOutput → MemifState → List ℕ → Access
unfolding perform begin_access
sim_memif_access core_input core_output mem_state physmem =
    let idle = record core_input { fault = false; valid = false } in
    let begun = begin_access mem_state in
    if core_output.request
    then (if not (begun.delay == 0)
        then some (idle, record begun { delay = begun.delay - 1 }, physmem)
        else perform idle core_output begun physmem)
    else some (idle, mem_state, physmem)

unfoldable pub sim_memif_tick : MemifState → MemifState
sim_memif_tick mem_state =
    if not mem_state.quiescent
    then record mem_state { delay = u8 (mem_state.delay + 2 ^ 8 - 1) }
    else mem_state
