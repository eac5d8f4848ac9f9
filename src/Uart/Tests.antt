-- ===== src/Uart/Tests.antt =====
-- A UART with two characters in and one out, and the theorems about it applied to it.
use cn.Common.{
  ℕ, ◌+◌, ◌/◌, ◌%◌, ◌≤◌, ◌<◌, ◌≡◌, true, false, none, some, List, [], ◌∷◌, length, ltb, ◌==◌,
  if◌then◌else◌,
}
use cn.Core.{input_init}
use cn.Uart.{UartState, clear, reg, reg_status, exec_instr, uart_state_data}
use cn.Uart.Boxes.{exec_instr-clear}
use cn.Uart.Signals.{uart_state_data-status}

abbrev busy : UartState
busy = record {
  hdr = record { cpnum = 3; regs = λ _. 3 };
  fifo_en = true;
  fifo_len = 16;
  in_box = 65 ∷ 66 ∷ [];
  out_box = 67 ∷ [];
  tx_raised = false;
  rx_raised = false;
}

exec_instr-clear_example :
    (2 ≤ 1
      → (box : List ℕ) × (exec_instr clear busy input_init
          ≡ some (record busy { out_box = box }, input_init))
        × (length box + 2 ≡ 1))
    × (1 < 2 → exec_instr clear busy input_init ≡ none)
exec_instr-clear_example = exec_instr-clear busy input_init

uart_state_data-status_example :
    let s' = (uart_state_data busy input_init).0 in
    (reg s' reg_status / 2 % 2 ≡ (if 2 == 0 then 0 else 1))
    × (reg s' reg_status % 2 ≡ (if ltb 1 16 then 1 else 0))
uart_state_data-status_example = uart_state_data-status busy input_init
