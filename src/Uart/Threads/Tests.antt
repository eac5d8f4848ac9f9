-- ===== src/Uart/Threads/Tests.antt =====
-- A UART with two characters in and one out, while its threads run.
use cn.Common.{◌≡◌, true, false, none, List, [], ◌∷◌}
use cn.Core.{input_init}
use cn.Uart.{UartState, send, recv}
use cn.Uart.Threads.{
  Threads, Event, idle, waiting, start, start_reset, continue, receive, transmit, read_char, run,
}
use cn.Uart.Threads.Race.{race, holding, race-none}

abbrev busy_uart : UartState
busy_uart = record {
  hdr = record { cpnum = 3; regs = λ _. 3 };
  fifo_en = true;
  fifo_len = 2;
  in_box = 65 ∷ [];
  out_box = 67 ∷ [];
  tx_raised = false;
  rx_raised = false;
}

abbrev busy : Threads
busy = record { uart = busy_uart; core_input = input_init; task = idle; receiver = waiting }

-- The receiver counts, the simulator takes a message and sends one, the transmitter sends one, and
-- a reset starts.
abbrev events : List Event
events =
    read_char 68
    ∷ start recv
    ∷ receive
    ∷ continue
    ∷ receive
    ∷ start send
    ∷ transmit
    ∷ continue
    ∷ start_reset
    ∷ continue
    ∷ []

race-none_example :
    run
      (race (65 ∷ []) (68 ∷ []))
      (holding busy_uart input_init waiting idle (65 ∷ []) (67 ∷ 68 ∷ []))
    ≡ none
race-none_example = race-none busy_uart input_init waiting (65 ∷ []) (68 ∷ []) 67
