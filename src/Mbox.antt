-- ===== src/Mbox.antt =====
-- mbox.c and mbox.h: boxes of messages. A message and the list of a box are at the addresses of
-- their list nodes. The mutex makes each function one step; what a thread does while it waits in
-- `mbox_msg_get_wait` is not modelled, and `woken` is the part after the wait.
pub mod Fifo
mod Tests
use cn.Common.{
  ◌>>=◌, ℕ, ◌+◌, ◌-◌, ◌%◌, ◌^◌, Bool, true, false, not, ◌&&◌, Option, none, some, ◌==◌,
  if◌then◌else◌,
}
use cn.Dlist.{Heap, null, dlnode_init, dlnode_remove, dlist_init, dlist_first, dlist_insertlast}

-- The members of `mbox_t`, but for the mutex and the condition. `messages` is an address.
pub record Mbox : Type 0 where
  pub messages : ℕ
  pub len : ℕ
  pub waiting : ℕ

-- A `size_t` of 64 bits.
abbrev pub size : ℕ → ℕ
size n = n % 2 ^ 64

unfoldable pub msg_init : Heap → ℕ → Option Heap
msg_init h p = if p == null then some h else dlnode_init h p

-- For a box whose list is at `p`.
unfoldable pub mbox_init : Heap → ℕ → Option (Heap × Mbox)
mbox_init h p = do h' ← dlist_init h p; some (h', record { messages = p; len = 0; waiting = 0 })

unfoldable pub mbox_msg_post : Heap → Mbox → ℕ → Option (Heap × Mbox)
mbox_msg_post h box msg = do
  h' ← dlist_insertlast h box.messages msg
  some (h', record box { len = size (box.len + 1) })

unfoldable pub take_node : Heap → Mbox → ℕ → Option (ℕ × Heap × Mbox)
take_node h box ret = if ret == null then some (null, h, box) else (do
  h' ← dlnode_remove h ret
  some (ret, h', record box { len = size (box.len + 2 ^ 64 - 1) }))

-- The message, or NULL.
unfoldable pub take_first : Heap → Mbox → Option (ℕ × Heap × Mbox)
unfolding take_node
take_first h box = do ret ← dlist_first h box.messages; take_node h box ret

unfoldable pub mbox_msg_get : Heap → Mbox → Option (ℕ × Heap × Mbox)
unfolding take_first
mbox_msg_get h box = take_first h box

-- The end of `mbox_msg_get_wait`, with the result of the last wait.
unfoldable pub woken : ℕ → Heap → Mbox → Option (ℕ × Heap × Mbox)
unfolding take_first
woken status h box = if status == 0 then take_first h box else some (null, h, box)

unfoldable pub mbox_len : Mbox → ℕ
mbox_len box = box.len
