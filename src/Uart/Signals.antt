-- ===== src/Uart/Signals.antt =====
-- What `uart_state_data` tells the program.
use cn.Common.{
  ℕ, ◌/◌, ◌%◌, ◌≡◌, refl, ◌∙◌, arith, not, ◌&&◌, length, bit_and, bit_or, ltb, ◌==◌, if◌then◌else◌,
  if_branches,
}
use cn.Common.Digits.{bit_or_step, bit_and_step}
use cn.Core.{Input}
use cn.Core.Regs.{is_set}
use cn.Uart.{
  UartState, reg, reg_ctl, reg_status, reg_ctl_rx_avail_int, reg_ctl_tx_space_int, data_rx, data_tx,
  uart_state_data,
}

-- The digits 0 and 1 of a number after digit 1 or digit 0 is set or cleared.
set_one : (x : ℕ) → (bit_or x 2 % 2 ≡ x % 2) × (bit_or x 2 / 2 % 2 ≡ 1)
set_one x = (omega (arith, bit_or_step x 2), omega (arith, bit_or_step x 2, bit_or_step (x / 2) 1))

clear_one : (x : ℕ) → (bit_and x 65533 % 2 ≡ x % 2) × (bit_and x 65533 / 2 % 2 ≡ 0)
clear_one x = (
  omega (arith, bit_and_step x 65533),
  omega (arith, bit_and_step x 65533, bit_and_step (x / 2) 32766),
)

set_zero : (x : ℕ) → (bit_or x 1 % 2 ≡ 1) × (bit_or x 1 / 2 % 2 ≡ x / 2 % 2)
set_zero x = (omega (arith, bit_or_step x 1), omega (arith, bit_or_step x 1, bit_or_step (x / 2) 0))

clear_zero : (x : ℕ) → (bit_and x 65534 % 2 ≡ 0) × (bit_and x 65534 / 2 % 2 ≡ x / 2 % 2)
clear_zero x = (
  omega (arith, bit_and_step x 65534),
  omega (arith, bit_and_step x 65534, bit_and_step (x / 2) 32767),
)

-- The first half: the digit of RX_AVAIL, and the pins.
abbrev Received : UartState → Input → UartState × Input → Type 0
Received s i (s', i') =
    (reg s' reg_status / 2 % 2 ≡ (if length s.in_box == 0 then 0 else 1))
    × (s'.out_box ≡ s.out_box)
    × (s'.fifo_len ≡ s.fifo_len)
    × (s'.hdr.cpnum ≡ s.hdr.cpnum)

data_rx-Received : (s : UartState) (i : Input) → Received s i (data_rx s i)
unfolding data_rx
data_rx-Received s i =
    if_branches (Received s i) (not (length s.in_box == 0)) _ _
      (λ e.
        if_branches (Received s i)
          (not s.rx_raised && is_set (bit_and (reg s reg_ctl) reg_ctl_rx_avail_int)) _ _
          (λ e'. (ground (arith, set_one (reg s reg_status)), refl, refl, refl))
          (λ e'. (ground (arith, set_one (reg s reg_status)), refl, refl, refl)))
      (λ e. (ground (arith, clear_one (reg s reg_status)), refl, refl, refl))

abbrev Transmits : UartState → UartState × Input → Type 0
Transmits s (s', i') =
    (reg s' reg_status % 2 ≡ (if ltb (length s.out_box) s.fifo_len then 1 else 0))
    × (reg s' reg_status / 2 % 2 ≡ reg s reg_status / 2 % 2)

data_tx-Transmits : (s : UartState) (i : Input) → Transmits s (data_tx s i)
unfolding data_tx
data_tx-Transmits s i =
    if_branches (Transmits s) (ltb (length s.out_box) s.fifo_len) _ _
      (λ e.
        if_branches (Transmits s)
          (not s.tx_raised && is_set (bit_and (reg s reg_ctl) reg_ctl_tx_space_int)) _ _
          (λ e'. (
            ground (arith, set_zero (reg s reg_status)),
            ground (arith, set_zero (reg s reg_status)),
          ))
          (λ e'. (
            ground (arith, set_zero (reg s reg_status)),
            ground (arith, set_zero (reg s reg_status)),
          )))
      (λ e. (
        ground (arith, clear_zero (reg s reg_status)),
        ground (arith, clear_zero (reg s reg_status)),
      ))

-- After `uart_state_data` the bits of STATUS say whether a character has come in and whether
-- there is place for one to go out.
pub uart_state_data-status :
    (s : UartState) (i : Input)
    → let s' = (uart_state_data s i).0 in
      (reg s' reg_status / 2 % 2 ≡ (if length s.in_box == 0 then 0 else 1))
      × (reg s' reg_status % 2 ≡ (if ltb (length s.out_box) s.fifo_len then 1 else 0))
unfolding uart_state_data
uart_state_data-status s i =
    let (avail, out, len, num) = data_rx-Received s i in
    let (space, kept) = data_tx-Transmits (data_rx s i).0 (data_rx s i).1 in
    (kept ∙ avail, space ∙ (λ k. if ltb (length (out k)) (len k) then 1 else 0))
