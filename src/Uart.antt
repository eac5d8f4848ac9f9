-- ===== src/Uart.antt =====
-- sim_cp_uart.c and sim_cp_uart.h, but for the options and the files. A box is the list of the
-- characters of its messages (Mbox/Fifo shows that mbox.c keeps it so); taking a message from an
-- empty box, which gives the header of the list, is `none`. A `char` is signed, of 8 bits.
pub mod Boxes
pub mod Signals
pub mod Threads
mod Tests
use cn.Common.{
  ◌>>=◌, ℕ, zero, suc, ◌+◌, Bool, true, false, not, ◌&&◌, Option, none, some, List, [], ◌∷◌, ◌++◌,
  length, bit_and, bit_or, ltb, ◌==◌, if◌then◌else◌, update,
}
use cn.Common.Words.{u8, u16, complement}
use cn.Core.{Input, Output}
use cn.Core.Regs.{is_set}
use cn.CpIf.{CpHdr, signal}

abbrev pub reg_ctl : ℕ
reg_ctl = 0

abbrev pub reg_ctl_tx_space_int : ℕ
reg_ctl_tx_space_int = 1

abbrev pub reg_ctl_rx_avail_int : ℕ
reg_ctl_rx_avail_int = 2

abbrev pub reg_status : ℕ
reg_status = 1

abbrev pub reg_status_tx_space : ℕ
reg_status_tx_space = 1

abbrev pub reg_status_rx_avail : ℕ
reg_status_rx_avail = 2

abbrev pub reg_val : ℕ
reg_val = 2

-- `CP_UART_INSTR_*`; NOOP and all numbers past the last do nothing.
pub data UartInstr : Type 0 where
  noop send recv txused rxused reset_tx reset_rx clear fifos_on fifos_off int_ack : UartInstr

-- The members of `sim_cp_uart_state_t` that the coprocessor works with.
pub record UartState : Type 0 where
  pub hdr : CpHdr
  pub fifo_en : Bool
  pub fifo_len : ℕ
  pub in_box : List ℕ
  pub out_box : List ℕ
  pub tx_raised : Bool
  pub rx_raised : Bool

abbrev pub reg : UartState → ℕ → ℕ
reg state r = state.hdr.regs r

abbrev pub write_reg : UartState → ℕ → ℕ → UartState
write_reg state r v = record state { hdr = record (state.hdr) { regs = update state.hdr.regs r v } }

-- The value of a `char` in a `uint16_t`.
unfoldable pub char_value : ℕ → ℕ
char_value c = if ltb c 0x80 then c else c + 0xFF00

unfoldable pub msg_get : List ℕ → Option (ℕ × List ℕ)
msg_get [] = none
msg_get (c ∷ box) = some (c, box)

-- The loops that take `n` messages and free them.
unfoldable pub drop_messages : ℕ → List ℕ → Option (List ℕ)
unfolding msg_get
drop_messages zero box = some box
drop_messages (suc n) box = do (c, box') ← msg_get box; drop_messages n box'

-- Without a turn of the other threads in between (Uart/Threads).
unfoldable pub uart_state_reset : UartState → Option UartState
unfolding drop_messages
uart_state_reset state = do
  in_box ← drop_messages (length state.in_box) state.in_box
  out_box ← drop_messages (length state.out_box) state.out_box
  some (record state { in_box = in_box; out_box = out_box })

-- The two halves of `uart_state_data`.
unfoldable pub data_rx : UartState → Input → UartState × Input
data_rx state core_input =
    if not (length state.in_box == 0)
    then (let state' =
          write_reg state reg_status (bit_or (reg state reg_status) reg_status_rx_avail) in
        if not state.rx_raised && is_set (bit_and (reg state reg_ctl) reg_ctl_rx_avail_int)
        then (record state' { rx_raised = true }, signal state.hdr core_input true)
        else (state', core_input))
    else (
      write_reg state reg_status
          (bit_and (reg state reg_status) (complement 16 reg_status_rx_avail)),
      core_input,
    )

unfoldable pub data_tx : UartState → Input → UartState × Input
data_tx state core_input =
    if ltb (length state.out_box) state.fifo_len
    then (let state' =
          write_reg state reg_status (bit_or (reg state reg_status) reg_status_tx_space) in
        if not state.tx_raised && is_set (bit_and (reg state reg_ctl) reg_ctl_tx_space_int)
        then (record state' { tx_raised = true }, signal state.hdr core_input true)
        else (state', core_input))
    else (
      write_reg state reg_status
          (bit_and (reg state reg_status) (complement 16 reg_status_tx_space)),
      core_input,
    )

unfoldable pub uart_state_data : UartState → Input → UartState × Input
unfolding data_rx data_tx
uart_state_data state core_input =
    let (state', core_input') = data_rx state core_input in data_tx state' core_input'

unfoldable pub instr_of : ℕ → UartInstr
instr_of value =
    if value == 1
    then send
    else if value == 2
    then recv
    else if value == 3
    then txused
    else if value == 4
    then rxused
    else if value == 5
    then reset_tx
    else if value == 6
    then reset_rx
    else if value == 7
    then clear
    else if value == 8
    then fifos_on
    else if value == 9
    then fifos_off
    else if value == 10
    then int_ack
    else noop

unfoldable pub exec_recv : UartState → Option UartState
unfolding msg_get char_value
exec_recv state = do
  (c, in_box) ← msg_get state.in_box
  some (write_reg (record state { in_box = in_box }) reg_val (char_value c))

-- The switch of `uart_state_exec`.
unfoldable pub exec_instr : UartInstr → UartState → Input → Option (UartState × Input)
unfolding exec_recv drop_messages
exec_instr noop state core_input = some (state, core_input)
exec_instr send state core_input = some (
  if ltb (length state.out_box) state.fifo_len
      then record state { out_box = state.out_box ++ (u8 (reg state reg_val) ∷ []) }
      else state,
  core_input,
)
exec_instr recv state core_input =
    if not (length state.in_box == 0)
    then (do state' ← exec_recv state; some (state', core_input))
    else some (state, core_input)
exec_instr txused state core_input =
    some (write_reg state reg_val (u16 (length state.out_box)), core_input)
exec_instr rxused state core_input =
    some (write_reg state reg_val (u16 (length state.in_box)), core_input)
exec_instr reset_tx state core_input = some (record state { tx_raised = false }, core_input)
exec_instr reset_rx state core_input = some (record state { rx_raised = false }, core_input)
exec_instr clear state core_input = do
  out_box ← drop_messages (length state.in_box) state.out_box
  some (record state { out_box = out_box }, core_input)
exec_instr fifos_on state core_input = some (record state { fifo_en = true }, core_input)
exec_instr fifos_off state core_input = some (record state { fifo_en = false }, core_input)
exec_instr int_ack state core_input = some (state, signal state.hdr core_input false)

unfoldable pub uart_state_exec : UartState → Input → Output → Option (UartState × Input)
unfolding instr_of exec_instr
uart_state_exec state core_input core_output =
    exec_instr (instr_of core_output.coproc.value) state core_input
