-- ===== src/Uart/Threads/Safe.antt =====
-- What a turn of a thread of the UART keeps of the boxes.
use cn.Common.{
  ◌>>=◌, ℕ, zero, suc, ◌+◌, ◌<◌, ◌≤◌, ◌≡◌, refl, arith, ◌&&◌, not, Option, none, some, List, [],
  ◌∷◌, ◌++◌, length, length-append, ltb, ◌==◌, max, if_branches, bit_and,
}
use cn.Core.{Input}
use cn.Core.Regs.{is_set}
use cn.Uart.{
  UartState, UartInstr, send, recv, clear, noop, txused, rxused, reset_tx, reset_rx, fifos_on,
  fifos_off, int_ack, reg, reg_ctl, reg_ctl_rx_avail_int, reg_ctl_tx_space_int, msg_get, exec_instr,
  data_rx, data_tx,
}
use cn.Uart.Threads.{
  Task, idle, posting, taking, emptying_in, emptying_out, Receiver, waiting, counted, storing,
  Threads, start_instr, next_call, receive_turn, send_first, polled,
}

-- The room for the messages of a box, and of one that is still to be posted.
abbrev pub HasRoom : Task → List ℕ → List ℕ → ℕ → Type 0
HasRoom (posting c) in_box out_box fifo_len = length out_box < fifo_len
HasRoom taking in_box out_box fifo_len = (length out_box ≤ fifo_len) × (0 < length in_box)
HasRoom (emptying_in n) in_box out_box fifo_len = (length out_box ≤ fifo_len) × (n ≤ length in_box)
HasRoom _ in_box out_box fifo_len = length out_box ≤ fifo_len

-- Without the fifo the receiver has one place.
abbrev pub Expects : Receiver → List ℕ → ℕ → Type 0
Expects waiting in_box fifo_len = length in_box ≤ max fifo_len 1
Expects (counted c used) in_box fifo_len = (length in_box ≤ max fifo_len 1) × (length in_box ≤ used)
Expects (storing c) in_box fifo_len = length in_box < max fifo_len 1

pub record IsSafe (t : Threads) : Type 0 where
  pub simulator : HasRoom t.task t.uart.in_box t.uart.out_box t.uart.fifo_len
  pub receiver : Expects t.receiver t.uart.in_box t.uart.fifo_len

-- A loop over the transmitter's box finds it empty.
abbrev pub Empties : Threads → Type 0
Empties t = (n : ℕ) × (t.task ≡ emptying_out (suc n)) × (t.uart.out_box ≡ [])

abbrev pub Turned : Threads → Option Threads → Type 0
Turned t none = Empties t
Turned t (some t') = IsSafe t'

fewer :
    (r : Receiver) (xs ys : List ℕ) (n : ℕ)
    → length ys ≤ length xs
    → Expects r xs n
    → Expects r ys n
fewer waiting xs ys n le h = omega arith
fewer (counted c used) xs ys n le h = (omega (arith, h.0), omega (arith, h.1))
fewer (storing c) xs ys n le h = omega arith

more :
    (k : Task) (xs ys zs : List ℕ) (n : ℕ)
    → length xs ≤ length ys
    → HasRoom k xs zs n
    → HasRoom k ys zs n
more idle xs ys zs n le h = h
more taking xs ys zs n le h = (h.0, omega (arith, h.1))
more (posting c) xs ys zs n le h = h
more (emptying_in m) xs ys zs n le h = (h.0, omega (arith, h.1))
more (emptying_out m) xs ys zs n le h = h

sent : (k : Task) (xs zs : List ℕ) (c n : ℕ) → HasRoom k xs (c ∷ zs) n → HasRoom k xs zs n
sent idle xs zs c n h = omega arith
sent taking xs zs c n h = (omega (arith, h.0), h.1)
sent (posting d) xs zs c n h = omega arith
sent (emptying_in m) xs zs c n h = (omega (arith, h.0), h.1)
sent (emptying_out m) xs zs c n h = omega arith

msg_get-some :
    (box : List ℕ)
    → 0 < length box
    → (c : ℕ) × (rest : List ℕ) × (msg_get box ≡ some (c, rest)) × (length rest + 1 ≡ length box)
unfolding msg_get
msg_get-some [] h = elim h [ ]
msg_get-some (c ∷ rest) h = (c, rest, refl, omega arith)

-- A change that leaves the boxes and the length of the fifo.
abbrev pub SameBoxes : UartState → UartState → Type 0
SameBoxes u u' = (u'.in_box ≡ u.in_box) × (u'.out_box ≡ u.out_box) × (u'.fifo_len ≡ u.fifo_len)

module _ (t : Threads) (h : IsSafe t) where
  pub kept : (p : UartState × Input) → SameBoxes t.uart p.0 → IsSafe (polled p t)
  kept (u, i) (ei, eo, el) = record {
    simulator = rw (ei, eo, el) h.simulator;
    receiver = rw (ei, el) h.receiver;
  }

  posted :
      (c : ℕ)
      → t.task ≡ posting c
      → IsSafe (record t {
        uart = record (t.uart) { out_box = t.uart.out_box ++ (c ∷ []) };
        task = idle;
      })
  posted c e =
      let room : length t.uart.out_box < t.uart.fifo_len = (rw e at h.simulator) in
      record {
        simulator = omega (arith, room, length-append t.uart.out_box (c ∷ []));
        receiver = h.receiver;
      }

  pub next_call-Turned : (k : Task) → t.task ≡ k → Turned t (next_call k t)
  unfolding next_call msg_get
  next_call-Turned idle e = h
  next_call-Turned (posting c) e = posted c e
  next_call-Turned taking e =
      let room : HasRoom taking t.uart.in_box t.uart.out_box t.uart.fifo_len =
        (rw e at h.simulator) in
      let (c, box, got, len) = msg_get-some t.uart.in_box room.1 in
      rw got (record {
        simulator = room.0;
        receiver =
            fewer t.receiver t.uart.in_box box t.uart.fifo_len (omega (arith, len)) h.receiver;
      })
  next_call-Turned (emptying_in zero) e =
      let room : HasRoom (emptying_in 0) t.uart.in_box t.uart.out_box t.uart.fifo_len =
        (rw e at h.simulator) in
      record { simulator = room.0; receiver = h.receiver }
  next_call-Turned (emptying_in (suc n)) e =
      let room : HasRoom (emptying_in (suc n)) t.uart.in_box t.uart.out_box t.uart.fifo_len =
        (rw e at h.simulator) in
      let (c, box, got, len) = msg_get-some t.uart.in_box (omega (arith, room.1)) in
      rw got (record {
        simulator = (room.0, omega (arith, room.1, len));
        receiver =
            fewer t.receiver t.uart.in_box box t.uart.fifo_len (omega (arith, len)) h.receiver;
      })
  next_call-Turned (emptying_out zero) e =
      let room : length t.uart.out_box ≤ t.uart.fifo_len = (rw e at h.simulator) in
      record { simulator = room; receiver = h.receiver }
  next_call-Turned (emptying_out (suc n)) e =
      let room : length t.uart.out_box ≤ t.uart.fifo_len = (rw e at h.simulator) in
      emptied n e t.uart.out_box refl room
    where
      emptied :
          (n : ℕ)
          → t.task ≡ emptying_out (suc n)
          → (box : List ℕ) → t.uart.out_box ≡ box
          → length box ≤ t.uart.fifo_len
          → Turned t (
              msg_get box >>= λ (c, rest).
              some (record t { uart = record (t.uart) { out_box = rest }; task = emptying_out n }))
      emptied n e [] eb le = (n, e, eb)
      emptied n e (c ∷ box) eb le = record { simulator = omega (arith, le); receiver = h.receiver }

  pub receive_turn-IsSafe : (r : Receiver) → t.receiver ≡ r → IsSafe (receive_turn r t)
  unfolding receive_turn
  receive_turn-IsSafe waiting e = h
  receive_turn-IsSafe (counted c used) e =
      let old : Expects (counted c used) t.uart.in_box t.uart.fifo_len = (rw e at h.receiver) in
      if_branches IsSafe (t.uart.fifo_en && ltb used t.uart.fifo_len) _ _
        (λ b. record { simulator = h.simulator; receiver = ground (arith, b, old.1) })
        λ _.
          if_branches IsSafe (used == 0) _ _
            (λ b. record { simulator = h.simulator; receiver = ground (arith, b, old.1) })
            λ _. record { simulator = h.simulator; receiver = old.0 }
  receive_turn-IsSafe (storing c) e =
      let room : length t.uart.in_box < max t.uart.fifo_len 1 = (rw e at h.receiver) in
      let grown = length-append t.uart.in_box (c ∷ []) in
      record {
        simulator =
            more t.task t.uart.in_box _ t.uart.out_box t.uart.fifo_len (omega (arith, grown))
              h.simulator;
        receiver = omega (arith, grown, room);
      }

  module _ (e : t.task ≡ idle) where
    pub room : length t.uart.out_box ≤ t.uart.fifo_len
    room = (rw e at h.simulator)

    pub start_instr-Turned : (instr : UartInstr) → Turned t (start_instr instr t)
    unfolding start_instr exec_instr
    start_instr-Turned send =
        if_branches IsSafe (ltb (length t.uart.out_box) t.uart.fifo_len) _ _
          (λ b. record { simulator = ground (arith, b); receiver = h.receiver }) λ _. h
    start_instr-Turned recv =
        if_branches IsSafe (not (length t.uart.in_box == 0)) _ _
          (λ b. record { simulator = (room, ground (arith, b)); receiver = h.receiver }) λ _. h
    start_instr-Turned clear = record { simulator = room; receiver = h.receiver }
    start_instr-Turned noop = h
    start_instr-Turned txused = kept (_, _) (refl, refl, refl)
    start_instr-Turned rxused = kept (_, _) (refl, refl, refl)
    start_instr-Turned reset_tx = kept (_, _) (refl, refl, refl)
    start_instr-Turned reset_rx = kept (_, _) (refl, refl, refl)
    start_instr-Turned fifos_on = kept (_, _) (refl, refl, refl)
    start_instr-Turned fifos_off = kept (_, _) (refl, refl, refl)
    start_instr-Turned int_ack = kept (_, _) (refl, refl, refl)

pub data_rx-SameBoxes : (u : UartState) (i : Input) → SameBoxes u (data_rx u i).0
unfolding data_rx
data_rx-SameBoxes u i =
    let P : UartState × Input → Type 0 = λ p. SameBoxes u p.0 in
    if_branches P (not (length u.in_box == 0)) _ _
      (λ _.
        if_branches P (not u.rx_raised && is_set (bit_and (reg u reg_ctl) reg_ctl_rx_avail_int)) _ _
          (λ _. (refl, refl, refl)) λ _. (refl, refl, refl))
      λ _. (refl, refl, refl)

pub data_tx-SameBoxes : (u : UartState) (i : Input) → SameBoxes u (data_tx u i).0
unfolding data_tx
data_tx-SameBoxes u i =
    let P : UartState × Input → Type 0 = λ p. SameBoxes u p.0 in
    if_branches P (ltb (length u.out_box) u.fifo_len) _ _
      (λ _.
        if_branches P (not u.tx_raised && is_set (bit_and (reg u reg_ctl) reg_ctl_tx_space_int)) _ _
          (λ _. (refl, refl, refl)) λ _. (refl, refl, refl))
      λ _. (refl, refl, refl)

pub transmitted :
    (t : Threads) (box : List ℕ) → t.uart.out_box ≡ box → IsSafe t → IsSafe (send_first box t)
transmitted t [] e h = h
transmitted t (c ∷ box) e h = record {
  simulator = sent t.task t.uart.in_box box c t.uart.fifo_len (rw e at h.simulator);
  receiver = h.receiver;
}
