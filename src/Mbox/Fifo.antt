-- ===== src/Mbox/Fifo.antt =====
-- A box is a queue of messages, as long as nothing is taken from it when it is empty.
use cn.Common.{
  ℕ, ◌+◌, ◌-◌, ◌^◌, ◌<◌, ◌≡◌, ◌≢◌, refl, sym, arith, true, some, List, [], ◌∷◌, ◌++◌, length,
  length-append, ◌==◌, update,
}
use cn.Dlist.{Heap, null, dlnode_remove, dlist_init, dlist_first}
use cn.Dlist.Chain.{Fresh, IsList}
use cn.Dlist.Queue.{different, dlist_insertlast-IsList, dlist_first-dlnode_remove}
use cn.Mbox.{Mbox, size, mbox_init, mbox_msg_post, mbox_msg_get, mbox_len}

-- The box holds the messages `xs`, the oldest first.
pub record IsBox (h : Heap) (box : Mbox) (xs : List ℕ) : Type 0 where
  pub messages : IsList h box.messages xs
  pub len : mbox_len box ≡ length xs

-- `mbox_init` gives an empty box.
pub mbox_init-IsBox :
    (h : Heap) (p : ℕ)
    → p ≢ null
    → (h' : Heap) × (box : Mbox) × (mbox_init h p ≡ some (h', box)) × IsBox h' box []
unfolding mbox_init dlist_init mbox_len
mbox_init-IsBox h p hp = (
  record { prev = update h.prev p p; next = update h.next p p; owner = update h.owner p p },
  record { messages = p; len = 0; waiting = 0 },
  rw (different p null hp) refl,
  record {
    messages = record {
      non_null = (λ e. hp (sym e), tt);
      distinct = (tt, tt);
      chain = tt;
      next_last = ground arith;
      prev_header = ground arith;
    };
    len = refl;
  },
)

-- A message that is posted is the last of the box.
pub mbox_msg_post-IsBox :
    (h : Heap) (box : Mbox) (m : ℕ) (xs : List ℕ)
    → IsBox h box xs
    → m ≢ null
    → Fresh m (box.messages ∷ xs)
    → length xs + 1 < 2 ^ 64
    → (h' : Heap) × (box' : Mbox) × (mbox_msg_post h box m ≡ some (h', box'))
      × IsBox h' box' (xs ++ (m ∷ []))
unfolding mbox_msg_post mbox_len
mbox_msg_post-IsBox h box m xs i hm f short =
    let (h', e, list) = dlist_insertlast-IsList h box.messages m xs i.messages hm f in
    (
      h',
      record box { len = size (box.len + 1) },
      rw e refl,
      record { messages = list; len = omega (arith, i.len, length-append xs (m ∷ [])) },
    )

-- A message that is taken is the first of the box.
pub mbox_msg_get-IsBox :
    (h : Heap) (box : Mbox) (x : ℕ) (xs : List ℕ)
    → IsBox h box (x ∷ xs)
    → length xs + 1 < 2 ^ 64
    → (h' : Heap) × (box' : Mbox) × (mbox_msg_get h box ≡ some (x, h', box')) × IsBox h' box' xs
unfolding mbox_msg_get mbox_len
mbox_msg_get-IsBox h box x xs i short =
    let (h', first, e, list) = dlist_first-dlnode_remove h box.messages x xs i.messages in
    let x0 = different x null (λ z. i.messages.non_null.1.0 (sym z)) in
    (
      h',
      record box { len = size (box.len + 2 ^ 64 - 1) },
      rw (first, x0, e) refl,
      record { messages = list; len = omega (arith, i.len) },
    )

itself : (l : ℕ) → (l == l) ≡ true
itself l = ground arith

-- From an empty box `mbox_msg_get` gives not NULL but the header of the list, which it takes out
-- of itself: `len` becomes 2^64 - 1, and the links of the header are NULL.
pub mbox_msg_get-empty :
    (h : Heap) (box : Mbox)
    → IsBox h box []
    → (h' : Heap) × (box' : Mbox) × (mbox_msg_get h box ≡ some (box.messages, h', box'))
      × (mbox_len box' ≡ 2 ^ 64 - 1)
      × (h'.next box.messages ≡ null)
      × (h'.prev box.messages ≡ null)
unfolding mbox_msg_get mbox_len dlist_first dlnode_remove
mbox_msg_get-empty h box i =
    let l = box.messages in
    let l0 = different l null (λ e. i.messages.non_null.0 (sym e)) in
    let hn : h.next l ≡ l = i.messages.next_last in
    let hp : h.prev l ≡ l = i.messages.prev_header in
    (
      record {
        prev = update (update h.prev l l) l null;
        next = update (update h.next l l) l null;
        owner = update h.owner l null;
      },
      record box { len = size (box.len + 2 ^ 64 - 1) },
      rw (l0, hn) (rw (l0, hp) (rw (l0, itself l, hn, hp, l0) refl)),
      omega (arith, i.len),
      ground arith,
      ground arith,
    )
