-- ===== src/CpIf.antt =====
-- sim_cp_if.c and sim_cp_if.h: what all coprocessors share. The pins that `core_input` and
-- `core_output` point to are arguments.
pub mod Args
use cn.Common.{ℕ, Bool, zero, suc, update}
use cn.Core.{Input, Output, num_cpregs}

-- `sim_cp_state_hdr_t`, without the arguments of the command line and the trace level.
pub record CpHdr : Type 0 where
  pub cpnum : ℕ
  pub regs : ℕ → ℕ

-- The loop of `sim_cp_hdr_reset` over the first `left` registers.
unfoldable pub clear_regs : ℕ → (ℕ → ℕ) → ℕ → ℕ
clear_regs zero regs = regs
clear_regs (suc left) regs = update (clear_regs left regs) left 0

unfoldable pub sim_cp_hdr_reset : CpHdr → CpHdr
unfolding clear_regs
sim_cp_hdr_reset hdr = record hdr { regs = clear_regs num_cpregs hdr.regs }

unfoldable pub sim_cp_read : CpHdr → Input → Output → Input
sim_cp_read hdr core_input core_output = record core_input {
  coproc = hdr.regs core_output.coproc.addr;
}

unfoldable pub sim_cp_write : CpHdr → Output → CpHdr
sim_cp_write hdr core_output = record hdr {
  regs = update hdr.regs core_output.coproc.addr core_output.coproc.value;
}

-- `hdr->core_input->exint_sig[hdr->cpnum] = level`
abbrev pub signal : CpHdr → Input → Bool → Input
signal hdr core_input level = record core_input {
  exint_sig = update core_input.exint_sig hdr.cpnum level;
}
