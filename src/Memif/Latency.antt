-- ===== src/Memif/Latency.antt =====
-- The delay of an access, and what an access reads and writes.
use cn.Common.{
  ◌>>=◌, ℕ, ◌≡◌, refl, arith, true, false, Option, none, some, List, set, get_elem?, length, ltb,
  if◌then◌else◌,
}
use cn.Core.{MemInput, MemOutput}
use cn.Memif.{MemifState, perform, begin_access, sim_memif_access}

-- What the core sees of an access that is answered at once: the answer and the memory after it.
unfoldable pub ideal : MemInput → MemOutput → ℕ → List ℕ → Option (MemInput × List ℕ)
ideal input o memlen mem =
    if ltb memlen o.addr
    then some (record { value = input.value; valid = false; fault = true }, mem)
    else if o.read
    then (get_elem? mem o.addr >>= λ v.
        some (record { value = v; valid = true; fault = false }, mem))
    else if ltb o.addr (length mem)
    then some (record { value = input.value; valid = true; fault = false }, set mem o.addr o.value)
    else none

-- Two calls of `sim_memif_access` with the same request on the pins are one access to an ideal
-- memory: the first tells the core to wait and changes nothing, the second gives the ideal
-- answer, does the ideal write, and leaves the interface ready for the next request.
pub access-twice :
    (m : MemifState) (o : MemOutput) (input input' : MemInput) (mem : List ℕ)
    → m.quiescent ≡ true
    → o.request ≡ true
    → (waiting : MemifState) × (sim_memif_access input o m mem
        ≡ some (record { value = input.value; valid = false; fault = false }, waiting, mem))
      × (sim_memif_access input' o waiting mem ≡ (
          ideal input' o m.memlen mem >>= λ (answer, mem').
          some (answer, record { memlen = m.memlen; delay = 0; quiescent = true }, mem')))
unfolding sim_memif_access begin_access perform ideal
access-twice m o input input' mem ready request = (
  record { memlen = m.memlen; delay = 0; quiescent = false },
  rw (request, ready) refl,
  rw request second,
)
  where
    second :
        perform
          (record input' { valid = false; fault = false })
          o
          (record { memlen = m.memlen; delay = 0; quiescent = false })
          mem
        ≡ (ideal input' o m.memlen mem >>= λ (answer, mem').
            some (answer, record { memlen = m.memlen; delay = 0; quiescent = true }, mem'))
    second = ground arith
