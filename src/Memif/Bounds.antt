-- ===== src/Memif/Bounds.antt =====
-- Which accesses C defines, and what a read gives after a write.
use cn.Common.{
  ℕ, ◌<◌, ◌≡◌, ◌∙◌, arith, true, false, none, some, List, set, get_elem?, get_elem?-some,
  get_elem?-none, get_elem?-set_self, get_elem?-set_ne, length, ◌==◌, if◌then◌else◌, if_branches,
}
use cn.Core.{MemInput, MemOutput}
use cn.Memif.{MemifState, perform}

-- After the delay an access to an address inside of the array is answered: a read gives the word
-- there and a write puts one there. One above the address just past the end gives a fault and
-- changes nothing. At that address, which the bounds test `addr > memlen` lets through, the access
-- is undefined.
pub perform-answers :
    (m : MemifState) (mem : List ℕ) (input : MemInput) (o : MemOutput)
    → m.memlen ≡ length mem
    → (o.addr < length mem
        → (w : ℕ) × (get_elem? mem o.addr ≡ some w)
          × (perform input o m mem
              ≡ some (
                record { value = if o.read then w else input.value; valid = true; fault = false },
                record m { quiescent = true },
                if o.read then mem else set mem o.addr o.value,
              )))
      × (length mem < o.addr
          → perform input o m mem
            ≡ some (
              record { value = input.value; valid = false; fault = true },
              record m { quiescent = true },
              mem,
            ))
      × (o.addr ≡ length mem → perform input o m mem ≡ none)
unfolding perform
perform-answers m mem input o len = (
  λ h. let (w, e) = get_elem?-some mem o.addr h in (w, e, inside w e h),
  λ h. ground (arith, len, h),
  λ h. let past = get_elem?-none mem o.addr (omega arith) in ground (arith, past, len, h),
)
  where
    inside :
        (w : ℕ)
        → get_elem? mem o.addr ≡ some w
        → o.addr < length mem
        → perform input o m mem
          ≡ some (
            record { value = if o.read then w else input.value; valid = true; fault = false },
            record m { quiescent = true },
            if o.read then mem else set mem o.addr o.value,
          )
    inside w e h = ground (arith, len, e, h)

read_after_set :
    (mem : List ℕ) (a b v w : ℕ)
    → a < length mem
    → get_elem? mem b ≡ some w
    → get_elem? (set mem a v) b ≡ some (if a == b then v else w)
read_after_set mem a b v w h e =
    if_branches (λ z. get_elem? (set mem a v) b ≡ some z) (a == b) v w
      (λ same. let eq : a ≡ b = ground (arith, same) in cc (eq, get_elem?-set_self mem a v h))
      (λ other. get_elem?-set_ne mem a b v (λ eq. ground (arith, other)) ∙ e)

-- The word that a write leaves is the one that a read of its address gives, and reads of the
-- other addresses give what they gave before.
pub perform-read_write :
    (m : MemifState) (mem : List ℕ) (input input' : MemInput) (write read : MemOutput)
    → m.memlen ≡ length mem
    → write.read ≡ false
    → read.read ≡ true
    → write.addr < length mem
    → read.addr < length mem
    → (mem' : List ℕ) × (w : ℕ) × (perform input write m mem
        ≡ some (
          record { value = input.value; valid = true; fault = false },
          record m { quiescent = true },
          mem',
        ))
      × (get_elem? mem read.addr ≡ some w)
      × (perform input' read m mem'
          ≡ some (
            record {
              value = if write.addr == read.addr then write.value else w;
              valid = true;
              fault = false;
            },
            record m { quiescent = true },
            mem',
          ))
unfolding perform
perform-read_write m mem input input' write read len is_write is_read ha hb =
    let (w, e) = get_elem?-some mem read.addr hb in
    let after = read_after_set mem write.addr read.addr write.value w ha e in
    (
      set mem write.addr write.value,
      w,
      ground (arith, is_write, ha, len),
      e,
      ground (arith, after, is_read, len, hb),
    )
