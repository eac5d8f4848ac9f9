-- ===== src/Uart/Threads.antt =====
-- The three threads that share the boxes of the UART: the simulator, in uart_state_exec,
-- uart_state_data and uart_state_reset, and the receiver and the transmitter of sim_cp_uart.c. A
-- box is locked for one call of mbox.c at a time, so that a turn of a thread is one such call and
-- what the thread does by itself up to the next one. `none` is a mbox_msg_get from an empty box.
pub mod Safe
pub mod Turns
pub mod Race
mod Tests
use cn.Common.{
  ◌>>=◌, ℕ, zero, suc, Bool, ◌&&◌, ◌||◌, not, Option, none, some, List, [], ◌∷◌, ◌++◌, length, ltb,
  ◌==◌, if◌then◌else◌,
}
use cn.Common.Words.{u8}
use cn.Core.{Input}
use cn.Uart.{
  UartState, UartInstr, send, recv, clear, reg, reg_val, write_reg, msg_get, char_value, exec_instr,
  data_rx, data_tx,
}

-- What the simulator has still to do: a character to post, a message to take, or messages to take
-- from one of the boxes. `emptying_in` is the first loop of `uart_state_reset`, `emptying_out` its
-- second one and the loop of `clear`.
pub data Task : Type 0 where
  idle taking : Task
  posting emptying_in emptying_out : ℕ → Task

-- The receiver: it waits for a character, has one and the number of messages that it saw, or is
-- about to post one.
pub data Receiver : Type 0 where
  waiting : Receiver
  counted : ℕ → ℕ → Receiver
  storing : ℕ → Receiver

pub record Threads : Type 0 where
  pub uart : UartState
  pub core_input : Input
  pub task : Task
  pub receiver : Receiver

pub data Event : Type 0 where
  start : UartInstr → Event
  start_reset poll_rx poll_tx continue receive transmit : Event
  read_char : ℕ → Event

-- `uart_state_exec` up to its second call of mbox.c, or all of it.
unfoldable pub start_instr : UartInstr → Threads → Option Threads
unfolding exec_instr
start_instr send t = some (
    if ltb (length t.uart.out_box) t.uart.fifo_len
    then record t { task = posting (u8 (reg t.uart reg_val)) }
    else t)
start_instr recv t =
    some (if not (length t.uart.in_box == 0) then record t { task = taking } else t)
start_instr clear t = some (record t { task = emptying_out (length t.uart.in_box) })
start_instr instr t = do
  (uart, core_input) ← exec_instr instr t.uart t.core_input
  some (record t { uart = uart; core_input = core_input })

-- The simulator's next call.
unfoldable pub next_call : Task → Threads → Option Threads
unfolding msg_get char_value
next_call idle t = some t
next_call (posting c) t =
    some (record t { uart = record (t.uart) { out_box = t.uart.out_box ++ (c ∷ []) }; task = idle })
next_call taking t = do
  (c, box) ← msg_get t.uart.in_box
  some (record t {
    uart = write_reg (record (t.uart) { in_box = box }) reg_val (char_value c);
    task = idle;
  })
next_call (emptying_in zero) t = some (record t { task = emptying_out (length t.uart.out_box) })
next_call (emptying_in (suc n)) t = do
  (c, box) ← msg_get t.uart.in_box
  some (record t { uart = record (t.uart) { in_box = box }; task = emptying_in n })
next_call (emptying_out zero) t = some (record t { task = idle })
next_call (emptying_out (suc n)) t = do
  (c, box) ← msg_get t.uart.out_box
  some (record t { uart = record (t.uart) { out_box = box }; task = emptying_out n })

-- The receiver's next turn, where it has a character.
unfoldable pub receive_turn : Receiver → Threads → Threads
receive_turn waiting t = t
receive_turn (counted c used) t =
    if t.uart.fifo_en && ltb used t.uart.fifo_len
    then record t { receiver = storing c }
    else if used == 0
    then record t { receiver = storing c }
    else record t { receiver = waiting }
receive_turn (storing c) t = record t {
  uart = record (t.uart) { in_box = t.uart.in_box ++ (c ∷ []) };
  receiver = waiting;
}

-- `mbox_msg_get_wait` of the transmitter, which waits while the box is empty.
abbrev pub send_first : List ℕ → Threads → Threads
send_first [] t = t
send_first (c ∷ box) t = record t { uart = record (t.uart) { out_box = box } }

-- After a half of `uart_state_data`.
abbrev pub polled : UartState × Input → Threads → Threads
polled (uart, core_input) t = record t { uart = uart; core_input = core_input }

-- A thread that has nothing of the kind to do stays as it is.
unfoldable pub turn : Event → Threads → Option Threads
unfolding start_instr next_call receive_turn data_rx data_tx
turn (start instr) t = elim (t.task) [ idle ↦ start_instr instr t | _ ↦ some t ]
turn start_reset t = elim (t.task) [
  | idle ↦ some (record t { task = emptying_in (length t.uart.in_box) })
  | _ ↦ some t
]
turn poll_rx t = some (elim (t.task) [ idle ↦ polled (data_rx t.uart t.core_input) t | _ ↦ t ])
turn poll_tx t = some (elim (t.task) [ idle ↦ polled (data_tx t.uart t.core_input) t | _ ↦ t ])
turn continue t = next_call t.task t
turn (read_char c) t = some (elim (t.receiver) [
  | waiting ↦ record t { receiver = counted c (length t.uart.in_box) }
  | _ ↦ t
])
turn receive t = some (receive_turn t.receiver t)
turn transmit t = some (send_first t.uart.out_box t)

-- Any interleaving of the turns.
unfoldable pub run : List Event → Threads → Option Threads
unfolding turn
run [] t = some t
run (event ∷ events) t = do t' ← turn event t; run events t'
