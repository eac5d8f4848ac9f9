-- ===== src/Uart/Boxes.antt =====
-- What the operations of the UART do to its two boxes.
use cn.Common.{ℕ, zero, suc, ◌+◌, ◌<◌, ◌≤◌, ◌≡◌, refl, arith, none, some, List, [], ◌∷◌, length}
use cn.Core.{Input}
use cn.Uart.{UartState, clear, msg_get, drop_messages, uart_state_reset, exec_instr}

drop_all : (box : List ℕ) → drop_messages (length box) box ≡ some []
unfolding drop_messages msg_get
drop_all [] = refl
drop_all (c ∷ box) = drop_all box

-- `uart_state_reset` empties both boxes, and changes nothing else.
pub uart_state_reset-empty :
    (state : UartState) → uart_state_reset state ≡ some (record state { in_box = []; out_box = [] })
unfolding uart_state_reset
uart_state_reset-empty state = rw (drop_all state.in_box, drop_all state.out_box) refl

drop_messages-some :
    (n : ℕ) (box : List ℕ)
    → n ≤ length box
    → (box' : List ℕ) × (drop_messages n box ≡ some box') × (length box' + n ≡ length box)
unfolding drop_messages msg_get
drop_messages-some zero box h = (box, refl, omega arith)
drop_messages-some (suc n) [] h = absurd (omega arith)
drop_messages-some (suc n) (c ∷ box) h =
    let (box', e, len) = drop_messages-some n box (omega arith) in (box', e, omega (arith, len))

drop_messages-none : (n : ℕ) (box : List ℕ) → length box < n → drop_messages n box ≡ none
unfolding drop_messages msg_get
drop_messages-none zero box h = absurd (omega arith)
drop_messages-none (suc n) [] h = refl
drop_messages-none (suc n) (c ∷ box) h = drop_messages-none n box (omega arith)

-- A `clear` takes as many messages as the receiver holds, but takes them from the transmitter:
-- the receiver keeps all of its characters, the transmitter loses as many, and the code is
-- undefined where the transmitter holds fewer than the receiver.
pub exec_instr-clear :
    (state : UartState) (core_input : Input)
    → (length state.in_box ≤ length state.out_box
        → (box : List ℕ) × (exec_instr clear state core_input
            ≡ some (record state { out_box = box }, core_input))
          × (length box + length state.in_box ≡ length state.out_box))
      × (length state.out_box < length state.in_box → exec_instr clear state core_input ≡ none)
unfolding exec_instr
exec_instr-clear state core_input = (
  λ h.
      let (box, e, len) = drop_messages-some (length state.in_box) state.out_box h in
      (box, rw e refl, len),
  λ h. rw (drop_messages-none (length state.in_box) state.out_box h) refl,
)
