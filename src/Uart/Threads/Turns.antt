-- ===== src/Uart/Threads/Turns.antt =====
-- What every interleaving of the threads of the UART keeps of the boxes.
use cn.Common.{◌≡◌, Option, none, some, List}
use cn.Uart.Threads.{Threads, Event, run}
use cn.Uart.Threads.Safe.{IsSafe, Empties}

-- After a run: the threads are safe, or before one of its turns they were, and a loop over the
-- transmitter's box was about to take a message from it while it was empty.
abbrev pub Ran : List Event → Threads → Option Threads → Type 0
Ran events t none =
    (before : List Event) × (u : Threads) × (run before t ≡ some u) × IsSafe u × Empties u
Ran events t (some t') = IsSafe t'
