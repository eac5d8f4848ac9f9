-- ===== src/Core/Memory.antt =====
-- Opcodes 0x15 to 0x18 of `sim_core_exec`: the data memory pins.
use cn.Common.{◌>>=◌, ℕ, true, false, ◌==◌, if◌then◌else◌}
use cn.Common.Words.{u16}
use cn.Instr.{Decoded}
use cn.Core.{State, Output, loadlnk, load, store, scond, gprup, status}
use cn.Core.Alu.{add, alu_exec}
use cn.Core.Regs.{gpreg_read, is_set, Stage, finish}
use cn.Core.Status.{set_ll, get_ll}

abbrev pub load_request : Output → ℕ → Output
load_request output addr = record output {
  data_out = record (output.data_out) { addr = addr; read = true; request = true };
}

abbrev pub store_request : Output → ℕ → ℕ → Output
store_request output addr value = record output {
  data_out = record { value = value; addr = addr; read = false; request = true };
}

-- ll
unfoldable pub exec_ll : Decoded → State → Output → Stage
exec_ll d s output = do
  x ← gpreg_read s d.field1
  a ← alu_exec add x (u16 d.field2)
  finish (record s { regnum = d.field0; newstat = set_ll s.newstat 1; type = loadlnk })
      (load_request output a)

-- ldw
unfoldable pub exec_ldw : Decoded → State → Output → Stage
exec_ldw d s output = do
  x ← gpreg_read s d.field1
  a ← alu_exec add x (u16 d.field2)
  finish (record s { regnum = d.field0; type = load }) (load_request output a)

-- stw
unfoldable pub exec_stw : Decoded → State → Output → Stage
exec_stw d s output = do
  x ← gpreg_read s d.field1
  a ← alu_exec add x (u16 d.field2)
  value ← gpreg_read s d.field0
  finish (record s { type = store }) (store_request output a value)

-- sc
unfoldable pub exec_sc : Decoded → State → Output → Stage
exec_sc d s output =
    if is_set (get_ll (s.ctl status))
    then (do
      x ← gpreg_read s d.field1
      a ← alu_exec add x (u16 d.field2)
      value ← gpreg_read s d.field0
      finish (record s { regnum = d.field0; regval = 1; type = scond })
          (store_request output a value))
    else finish (record s { regnum = d.field0; regval = 0; type = gprup }) output

unfoldable pub exec_memory : Decoded → State → Output → Stage
unfolding exec_ll exec_ldw exec_stw exec_sc
exec_memory d s output =
    if d.opcode == 0x15
    then exec_ll d s output
    else if d.opcode == 0x16
    then exec_ldw d s output
    else if d.opcode == 0x17
    then exec_stw d s output
    else exec_sc d s output
