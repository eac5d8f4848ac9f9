-- ===== src/Sim/Serial.antt =====
-- The UART holds words, and puts words on the pins of the core.
use cn.Common.{
  Holds, bind-Holds, ◌>>=◌, ℕ, ◌^◌, ◌<◌, arith, true, false, not, ◌&&◌, some, List, [], ◌∷◌, All,
  length, ltb, ◌==◌, bit_and, bit_or, if_branches,
}
use cn.Common.Words.{IsWord, complement}
use cn.Common.Bits.{bit_and-lt, bit_or-lt}
use cn.Core.{Input, Output}
use cn.Core.Regs.{is_set}
use cn.Core.Valid.Rules.{u16-IsWord}
use cn.Uart
use cn.Uart.{
  UartState, UartInstr, msg_get, char_value, data_rx, data_tx, uart_state_data, exec_recv,
  exec_instr, instr_of, uart_state_exec, drop_messages, noop, send, recv, txused, rxused, reset_tx,
  reset_rx, clear, fifos_on, fifos_off, int_ack,
}
use cn.Sim.Words.{IsPins, HasWords, update-IsWord, signal-IsPins}

pub record UartWords (state : UartState) : Type 0 where
  pub regs : HasWords state.hdr
  pub in_box : All (λ c. c < 2 ^ 8) state.in_box

abbrev pub UartKept : UartState × Input → Type 0
UartKept (state, input) = UartWords state × IsPins input

module _ {state : UartState} (h : UartWords state) where
  uart_write_reg : (r v : ℕ) → IsWord v → UartWords (Uart.write_reg state r v)
  uart_write_reg r v hv = record {
    regs = update-IsWord state.hdr.regs r v h.regs hv;
    in_box = h.in_box;
  }

  set_bit :
      (mask : ℕ)
      → IsWord mask
      → UartWords
          (Uart.write_reg state Uart.reg_status (bit_or (Uart.reg state Uart.reg_status) mask))
  set_bit mask hm = uart_write_reg _ _ (bit_or-lt 16 _ mask (h.regs Uart.reg_status) hm)

  clear_bit :
      (mask : ℕ)
      → UartWords (
          Uart.write_reg state Uart.reg_status
            (bit_and (Uart.reg state Uart.reg_status) (complement 16 mask)))
  clear_bit mask =
      uart_write_reg _ _
        (bit_and-lt 16 _ (complement 16 mask) (h.regs Uart.reg_status) (omega arith))

  data_rx-Kept : (input : Input) → IsPins input → UartKept (data_rx state input)
  unfolding data_rx
  data_rx-Kept input p =
      let some_in = set_bit Uart.reg_status_rx_avail (omega arith) in
      if_branches UartKept (not (length state.in_box == 0)) _ _
        (λ _.
          if_branches UartKept
            (not state.rx_raised
              && is_set (bit_and (Uart.reg state Uart.reg_ctl) Uart.reg_ctl_rx_avail_int))
            _ _
            (λ _. (
              record { regs = some_in.regs; in_box = some_in.in_box },
              signal-IsPins state.hdr input true p,
            ))
            λ _. (some_in, p))
        λ _. (clear_bit Uart.reg_status_rx_avail, p)

  data_tx-Kept : (input : Input) → IsPins input → UartKept (data_tx state input)
  unfolding data_tx
  data_tx-Kept input p =
      let space = set_bit Uart.reg_status_tx_space (omega arith) in
      if_branches UartKept (ltb (length state.out_box) state.fifo_len) _ _
        (λ _.
          if_branches UartKept
            (not state.tx_raised
              && is_set (bit_and (Uart.reg state Uart.reg_ctl) Uart.reg_ctl_tx_space_int))
            _ _
            (λ _. (
              record { regs = space.regs; in_box = space.in_box },
              signal-IsPins state.hdr input true p,
            ))
            λ _. (space, p))
        λ _. (clear_bit Uart.reg_status_tx_space, p)

pub uart_state_data-Kept :
    (state : UartState) (input : Input)
    → UartWords state
    → IsPins input
    → UartKept (uart_state_data state input)
unfolding uart_state_data
uart_state_data-Kept state input h p = let (h', p') = data_rx-Kept h input p in data_tx-Kept h' _ p'

char_value-IsWord : (c : ℕ) → c < 2 ^ 8 → IsWord (char_value c)
unfolding char_value
char_value-IsWord c h = ground arith

exec_recv-Words : (state : UartState) → UartWords state → Holds UartWords (exec_recv state)
unfolding exec_recv
exec_recv-Words state h = received state.in_box h.in_box
  where
    received :
        (box : List ℕ)
        → All (λ c. c < 2 ^ 8) box
        → Holds UartWords (
            msg_get box >>= λ (c, in_box).
            some (Uart.write_reg (record state { in_box = in_box }) Uart.reg_val (char_value c)))
    received [] all = tt
    received (c ∷ box) (hc, all) =
        uart_write_reg
          (let kept : UartWords (record state { in_box = box }) = record {
            regs = h.regs;
            in_box = all;
          } in
            kept)
          _ _ (char_value-IsWord c hc)

exec_instr-Kept :
    (instr : UartInstr) (state : UartState) (input : Input)
    → UartWords state
    → IsPins input
    → Holds UartKept (exec_instr instr state input)
unfolding exec_instr
exec_instr-Kept noop state input h p = (h, p)
exec_instr-Kept send state input h p = (
  if_branches UartWords (ltb (length state.out_box) state.fifo_len) _ _
      (λ _. record { regs = h.regs; in_box = h.in_box }) λ _. h,
  p,
)
exec_instr-Kept recv state input h p =
    if_branches (Holds UartKept) (not (length state.in_box == 0)) _ _
      (λ _. bind-Holds UartKept (exec_recv state) _ λ s e. (rw e at (exec_recv-Words state h), p))
      λ _. (h, p)
exec_instr-Kept txused state input h p = (uart_write_reg h _ _ (u16-IsWord _), p)
exec_instr-Kept rxused state input h p = (uart_write_reg h _ _ (u16-IsWord _), p)
exec_instr-Kept reset_tx state input h p = (record { regs = h.regs; in_box = h.in_box }, p)
exec_instr-Kept reset_rx state input h p = (record { regs = h.regs; in_box = h.in_box }, p)
exec_instr-Kept clear state input h p =
    bind-Holds UartKept (drop_messages (length state.in_box) state.out_box) _
      λ out_box _. (record { regs = h.regs; in_box = h.in_box }, p)
exec_instr-Kept fifos_on state input h p = (record { regs = h.regs; in_box = h.in_box }, p)
exec_instr-Kept fifos_off state input h p = (record { regs = h.regs; in_box = h.in_box }, p)
exec_instr-Kept int_ack state input h p = (h, signal-IsPins state.hdr input false p)

pub uart_state_exec-Kept :
    (state : UartState) (input : Input) (output : Output)
    → UartWords state
    → IsPins input
    → Holds UartKept (uart_state_exec state input output)
unfolding uart_state_exec
uart_state_exec-Kept state input output = exec_instr-Kept (instr_of output.coproc.value) state input
