-- ===== src/Dlist.antt =====
-- dlist.h: doubly linked lists in a heap. A pointer is a number, and NULL is 0; the header of a
-- list is a node at the address of the list.
pub mod Chain
pub mod Queue
mod Tests
use cn.Common.{◌>>=◌, ℕ, Bool, Option, none, some, ◌==◌, if◌then◌else◌, update}

-- The members of all nodes, by address.
pub record Heap : Type 0 where
  pub prev : ℕ → ℕ
  pub next : ℕ → ℕ
  pub owner : ℕ → ℕ

abbrev pub null : ℕ
null = 0

-- `n->member` and `n->member = v`; `none` where `n` is NULL.
unfoldable pub get : (ℕ → ℕ) → ℕ → Option ℕ
get member n = if n == null then none else some (member n)

unfoldable pub set_prev : Heap → ℕ → ℕ → Option Heap
set_prev h n v = if n == null then none else some (record h { prev = update h.prev n v })

unfoldable pub set_next : Heap → ℕ → ℕ → Option Heap
set_next h n v = if n == null then none else some (record h { next = update h.next n v })

unfoldable pub set_owner : Heap → ℕ → ℕ → Option Heap
set_owner h n v = if n == null then none else some (record h { owner = update h.owner n v })

unfoldable pub dlnode_init : Heap → ℕ → Option Heap
unfolding set_prev set_next set_owner
dlnode_init h n = do h1 ← set_owner h n null; h2 ← set_next h1 n null; set_prev h2 n null

unfoldable pub dlnode_is_terminal : Heap → ℕ → Option Bool
unfolding get
dlnode_is_terminal h n = do owner ← get h.owner n; some (n == owner)

unfoldable pub dlnode_next : Heap → ℕ → Option ℕ
unfolding get
dlnode_next h n = get h.next n

unfoldable pub dlnode_prev : Heap → ℕ → Option ℕ
unfolding get
dlnode_prev h n = get h.prev n

unfoldable pub dlnode_owner : Heap → ℕ → Option ℕ
unfolding get
dlnode_owner h n = get h.owner n

unfoldable pub dlnode_insertnext : Heap → ℕ → ℕ → Option Heap
unfolding get set_prev set_next set_owner
dlnode_insertnext h n next = do
  after ← get h.next n
  h1 ← set_next h next after
  after1 ← get h1.next n
  h2 ← set_prev h1 after1 next
  h3 ← set_next h2 n next
  h4 ← set_prev h3 next n
  owner ← get h4.owner n
  set_owner h4 next owner

unfoldable pub dlnode_insertprev : Heap → ℕ → ℕ → Option Heap
unfolding get set_prev set_next set_owner
dlnode_insertprev h n prev = do
  before ← get h.prev n
  h1 ← set_prev h prev before
  before1 ← get h1.prev n
  h2 ← set_next h1 before1 prev
  h3 ← set_prev h2 n prev
  h4 ← set_next h3 prev n
  owner ← get h4.owner n
  set_owner h4 prev owner

-- The result is `n` itself.
unfoldable pub dlnode_remove : Heap → ℕ → Option Heap
unfolding get set_prev set_next set_owner
dlnode_remove h n = do
  before ← get h.prev n
  after ← get h.next n
  h1 ← set_next h before after
  after1 ← get h1.next n
  before1 ← get h1.prev n
  h2 ← set_prev h1 after1 before1
  h3 ← set_prev h2 n null
  h4 ← set_next h3 n null
  set_owner h4 n null

unfoldable pub dlist_init : Heap → ℕ → Option Heap
unfolding set_prev set_next set_owner
dlist_init h l = do h1 ← set_next h l l; h2 ← set_prev h1 l l; set_owner h2 l l

unfoldable pub dlist_first : Heap → ℕ → Option ℕ
unfolding get
dlist_first h l = get h.next l

unfoldable pub dlist_last : Heap → ℕ → Option ℕ
unfolding get
dlist_last h l = get h.prev l

unfoldable pub dlist_insertfirst : Heap → ℕ → ℕ → Option Heap
unfolding dlnode_insertnext
dlist_insertfirst h l n = dlnode_insertnext h l n

unfoldable pub dlist_insertlast : Heap → ℕ → ℕ → Option Heap
unfolding dlnode_insertprev
dlist_insertlast h l n = dlnode_insertprev h l n

unfoldable pub dlist_is_empty : Heap → ℕ → Option Bool
unfolding get
dlist_is_empty h l = do next ← get h.next l; some (next == l)
