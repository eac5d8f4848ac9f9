-- ===== src/Uart/Threads/Race.antt =====
-- A reset of the UART while its transmitter goes on.
use cn.Common.{ℕ, zero, suc, ◌≡◌, refl, none, List, [], ◌∷◌, length}
use cn.Core.{Input}
use cn.Uart.{UartState, msg_get}
use cn.Uart.Threads.{
  Task, idle, emptying_in, emptying_out, Receiver, Threads, Event, start_reset, continue, transmit,
  next_call, turn, run,
}

-- `n` turns of the simulator, and then others.
abbrev pub continues : ℕ → List Event → List Event
continues zero events = events
continues (suc n) events = continue ∷ continues n events

-- A reset with the two boxes; the transmitter takes a message after the second loop has counted
-- the messages.
abbrev pub race : List ℕ → List ℕ → List Event
race in_box out_box =
    start_reset
    ∷ continues (length in_box) (continue ∷ transmit ∷ continues (suc (length out_box)) [])

module _ (uart : UartState) (core_input : Input) (receiver : Receiver) where
  abbrev pub holding : Task → List ℕ → List ℕ → Threads
  holding task in_box out_box = record {
    uart = record uart { in_box = in_box; out_box = out_box };
    core_input = core_input;
    task = task;
    receiver = receiver;
  }

  drained :
      (in_box out_box : List ℕ)
      → run
          (continues (suc (length out_box)) [])
          (holding (emptying_out (suc (length out_box))) in_box out_box)
        ≡ none
  unfolding run turn next_call msg_get
  drained in_box [] = refl
  drained in_box (c ∷ out_box) = drained in_box out_box

  received :
      (in_box out_box : List ℕ) (events : List Event)
      → run
          (continues (length in_box) events)
          (holding (emptying_in (length in_box)) in_box out_box)
        ≡ run events (holding (emptying_in 0) [] out_box)
  unfolding run turn next_call msg_get
  received [] out_box events = refl
  received (c ∷ in_box) out_box events = received in_box out_box events

  -- If the transmitter takes a message while a reset is between counting the messages to send
  -- and taking them, the reset takes one message too many, from the empty box.
  pub race-none :
      (in_box out_box : List ℕ) (c : ℕ)
      → run (race in_box out_box) (holding idle in_box (c ∷ out_box)) ≡ none
  unfolding run turn next_call
  race-none in_box out_box c =
      rw (received in_box (c ∷ out_box) (continue ∷ transmit ∷ continues (suc (length out_box)) []))
        (drained [] out_box)
