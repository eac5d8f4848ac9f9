-- ===== src/Mbox/Tests.antt =====
-- A box at address 1 of an empty heap, and the theorems about boxes applied to it.
use cn.Common.{◌-◌, ◌^◌, ◌≡◌, ◌≢◌, some, [], ◌∷◌, refl, arith, update}
use cn.Dlist.{Heap, null}
use cn.Dlist.Chain.{Fresh}
use cn.Mbox.{Mbox, mbox_init, mbox_msg_post, mbox_msg_get, mbox_len}
use cn.Mbox.Fifo.{
  IsBox, mbox_init-IsBox, mbox_msg_post-IsBox, mbox_msg_get-IsBox, mbox_msg_get-empty,
}

abbrev zeros : Heap
zeros = record { prev = λ _. 0; next = λ _. 0; owner = λ _. 0 }

one_not_null : 1 ≢ null
one_not_null e = absurd (omega (arith, e))

-- The box at address 1, empty.
abbrev empty_heap : Heap
empty_heap = record {
  prev = update (λ _. 0) 1 1;
  next = update (λ _. 0) 1 1;
  owner = update (λ _. 0) 1 1;
}

abbrev empty_box : Mbox
empty_box = record { messages = 1; len = 0; waiting = 0 }

empty_box-IsBox : IsBox empty_heap empty_box []
unfolding mbox_len
empty_box-IsBox = record {
  messages = record {
    non_null = (λ e. absurd (omega (arith, e)), tt);
    distinct = (tt, tt);
    chain = tt;
    next_last = refl;
    prev_header = refl;
  };
  len = refl;
}

-- The same box with the message at address 5.
abbrev full_heap : Heap
full_heap = record {
  prev = update (update (λ _. 0) 1 5) 5 1;
  next = update (update (λ _. 0) 1 5) 5 1;
  owner = update (update (λ _. 0) 1 1) 5 1;
}

abbrev full_box : Mbox
full_box = record { messages = 1; len = 1; waiting = 0 }

full_box-IsBox : IsBox full_heap full_box (5 ∷ [])
unfolding mbox_len
full_box-IsBox = record {
  messages = record {
    non_null = (λ e. absurd (omega (arith, e)), (λ e. absurd (omega (arith, e)), tt));
    distinct = ((λ e. absurd (omega (arith, e)), tt), (tt, tt));
    chain = (refl, refl, tt);
    next_last = refl;
    prev_header = refl;
  };
  len = refl;
}

seven-Fresh : Fresh 7 (1 ∷ 5 ∷ [])
seven-Fresh = (λ e. absurd (omega (arith, e)), (λ e. absurd (omega (arith, e)), tt))

mbox_init-IsBox_example :
    (h : Heap) × (box : Mbox) × (mbox_init zeros 1 ≡ some (h, box)) × IsBox h box []
mbox_init-IsBox_example = mbox_init-IsBox zeros 1 one_not_null

mbox_msg_post-IsBox_example :
    (h' : Heap) × (box' : Mbox) × (mbox_msg_post full_heap full_box 7 ≡ some (h', box'))
    × IsBox h' box' (5 ∷ 7 ∷ [])
mbox_msg_post-IsBox_example =
    mbox_msg_post-IsBox full_heap full_box 7 (5 ∷ []) full_box-IsBox
      (λ e. absurd (omega (arith, e))) seven-Fresh (omega arith)

mbox_msg_get-IsBox_example :
    (h' : Heap) × (box' : Mbox) × (mbox_msg_get full_heap full_box ≡ some (5, h', box'))
    × IsBox h' box' []
mbox_msg_get-IsBox_example = mbox_msg_get-IsBox full_heap full_box 5 [] full_box-IsBox (omega arith)

mbox_msg_get-empty_example :
    (h' : Heap) × (box' : Mbox) × (mbox_msg_get empty_heap empty_box ≡ some (1, h', box'))
    × (mbox_len box' ≡ 2 ^ 64 - 1)
    × (h'.next 1 ≡ null)
    × (h'.prev 1 ≡ null)
mbox_msg_get-empty_example = mbox_msg_get-empty empty_heap empty_box empty_box-IsBox
