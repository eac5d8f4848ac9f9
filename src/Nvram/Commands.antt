-- ===== src/Nvram/Commands.antt =====
-- The commands of the nvram from their start to their end.
use cn.Common.{
  ◌>>=◌, ℕ, ◌/◌, ◌<◌, ◌≤◌, ◌≡◌, refl, arith, true, Option, some, get_elem?, get_elem?-some, set,
  length, bit_and, ltb, if◌then◌else◌, if_branches,
}
use cn.Common.Words.{u16}
use cn.Core.{Input, Output}
use cn.Core.Regs.{is_set}
use cn.CpIf.{signal}
use cn.Nvram.{
  NvramState, reg, complete, data_read, data_write, nvram_state_data, nvram_addr, exec_read,
  exec_write, nvram_state_exec, reg_ctl, reg_status, reg_val, ctl_read_int, ctl_write_int,
  status_idle, status_read_ok, status_read_err, status_write_ok, status_write_err, instr_read,
  instr_write,
}

-- The three calls of `nvram_state_data` that a command takes.
unfoldable pub three_cycles : NvramState → Input → Option (NvramState × Input)
three_cycles state input = do
  (first, input1) ← nvram_state_data state input
  (second, input2) ← nvram_state_data first input1
  nvram_state_data second input2

-- Ready for a command, with an image that is as long as it says.
pub record IsIdle (state : NvramState) : Type 0 where
  pub delay : state.delay ≡ 0
  pub status : reg state reg_status ≡ status_idle
  pub sized : length state.image ≡ state.datalen / 2

-- What a read leaves in the registers.
abbrev pub ReadResult : NvramState → NvramState → Type 0
ReadResult before after =
    let addr = u16 (nvram_addr before) in
    (addr < before.datalen / 2
      → (get_elem? before.image addr ≡ some (reg after reg_val))
        × (reg after reg_status ≡ status_read_ok))
    × (before.datalen / 2 ≤ addr → reg after reg_status ≡ status_read_err)

exec-read :
    (state : NvramState) (input : Input) (output : Output)
    → IsIdle state
    → output.coproc.value ≡ instr_read
    → nvram_addr state < state.datalen
    → nvram_state_exec state input output ≡ (
      record state { inst_pend = instr_read; addr_pend = u16 (nvram_addr state); delay = 3 },
      input,
    )
unfolding nvram_state_exec exec_read
exec-read state input output idle instr bound =
    ground (arith, instr, bound, idle.delay, idle.status)

-- The interrupt that a bit of CTL asks for.
abbrev pub raised : NvramState → Input → ℕ → Input
raised state input ctl_int =
    if is_set (bit_and (reg state reg_ctl) ctl_int) then signal state.hdr input true else input

data_read-completes :
    (s : NvramState) (input : Input)
    → length s.image ≡ s.datalen / 2
    → (after : NvramState) × ((data_read s >>= λ s'. some (complete s' input ctl_read_int))
        ≡ some (after, raised s input ctl_read_int))
      × (s.addr_pend < s.datalen / 2
          → (get_elem? s.image s.addr_pend ≡ some (reg after reg_val))
            × (reg after reg_status ≡ status_read_ok))
      × (s.datalen / 2 ≤ s.addr_pend → reg after reg_status ≡ status_read_err)
      × (after.image ≡ s.image)
      × (after.delay ≡ s.delay)
unfolding data_read complete
data_read-completes s input sized =
    if_branches Completes (ltb s.addr_pend (s.datalen / 2)) _ _
      (λ b.
        let (w, e) = get_elem?-some s.image s.addr_pend (ground arith) in
        rw (e, Completes) (_, refl, λ h. (refl, refl), λ h. absurd (ground arith), refl, refl))
      (λ b. (_, refl, λ h. absurd (ground arith), λ h. refl, refl, refl))
  where
    Completes : Option NvramState → Type 0
    Completes m =
        (after : NvramState) × ((m >>= λ s'. some (complete s' input ctl_read_int))
          ≡ some (after, raised s input ctl_read_int))
        × (s.addr_pend < s.datalen / 2
            → (get_elem? s.image s.addr_pend ≡ some (reg after reg_val))
              × (reg after reg_status ≡ status_read_ok))
        × (s.datalen / 2 ≤ s.addr_pend → reg after reg_status ≡ status_read_err)
        × (after.image ≡ s.image)
        × (after.delay ≡ s.delay)

-- A read that an idle nvram takes, of an address below the length of the image in bytes, is done
-- after three calls of `nvram_state_data`. It gives the word of the image at the low sixteen bits
-- of the address with the status READ_OK, or READ_ERR where these are past the words of the
-- image, raises the interrupt if CTL asks for it, and changes neither the image nor other pins.
pub read-completes :
    (state : NvramState) (input : Input) (output : Output)
    → IsIdle state
    → output.coproc.value ≡ instr_read
    → nvram_addr state < state.datalen
    → let (state', input') = nvram_state_exec state input output in
      (after : NvramState) × (three_cycles state' input'
        ≡ some (after, raised state input ctl_read_int))
      × ReadResult state after
      × (after.image ≡ state.image)
      × (after.delay ≡ 0)
unfolding three_cycles nvram_state_data
read-completes state input output idle instr bound =
    let (after, done, ok, err, kept, quiet) =
      data_read-completes
        (record state { delay = 0; inst_pend = instr_read; addr_pend = u16 (nvram_addr state) })
        input idle.sized in
    rw (exec-read state input output idle instr bound) (after, done, (ok, err), kept, quiet)

exec-write :
    (state : NvramState) (input : Input) (output : Output)
    → IsIdle state
    → output.coproc.value ≡ instr_write
    → nvram_addr state < state.datalen
    → nvram_state_exec state input output ≡ (
      record state {
        inst_pend = instr_write;
        addr_pend = u16 (nvram_addr state);
        val_pend = reg state reg_val;
        delay = 3;
      },
      input,
    )
unfolding nvram_state_exec exec_write
exec-write state input output idle instr bound =
    ground (arith, instr, bound, idle.delay, idle.status)

data_write-completes :
    (s : NvramState) (input : Input)
    → length s.image ≡ s.datalen / 2
    → (after : NvramState) × ((data_write s >>= λ s'. some (complete s' input ctl_write_int))
        ≡ some (after, raised s input ctl_write_int))
      × (s.addr_pend < s.datalen / 2
          → (after.image ≡ set s.image s.addr_pend s.val_pend)
            × (reg after reg_status ≡ status_write_ok))
      × (s.datalen / 2 ≤ s.addr_pend
          → (after.image ≡ s.image) × (reg after reg_status ≡ status_write_err))
      × (after.delay ≡ s.delay)
unfolding data_write complete
data_write-completes s input sized =
    if_branches Completes (ltb s.addr_pend (s.datalen / 2)) _ _
      (λ b.
        if_branches Completes (ltb s.addr_pend (length s.image)) _ _
          (λ b'. (_, refl, λ h. (refl, refl), λ h. absurd (ground arith), refl))
          (λ b'. absurd (ground arith)))
      (λ b. (_, refl, λ h. absurd (ground arith), λ h. (refl, refl), refl))
  where
    Completes : Option NvramState → Type 0
    Completes m =
        (after : NvramState) × ((m >>= λ s'. some (complete s' input ctl_write_int))
          ≡ some (after, raised s input ctl_write_int))
        × (s.addr_pend < s.datalen / 2
            → (after.image ≡ set s.image s.addr_pend s.val_pend)
              × (reg after reg_status ≡ status_write_ok))
        × (s.datalen / 2 ≤ s.addr_pend
            → (after.image ≡ s.image) × (reg after reg_status ≡ status_write_err))
        × (after.delay ≡ s.delay)

-- A write that an idle nvram takes, of an address below the length of the image in bytes, is done
-- after three calls of `nvram_state_data`. It puts the word of VAL at the low sixteen bits of the
-- address, with the status WRITE_OK, or leaves the image as it is with WRITE_ERR where these are
-- past the words of the image, and raises the interrupt if CTL asks for it.
pub write-completes :
    (state : NvramState) (input : Input) (output : Output)
    → IsIdle state
    → output.coproc.value ≡ instr_write
    → nvram_addr state < state.datalen
    → let (state', input') = nvram_state_exec state input output in
      let addr = u16 (nvram_addr state) in
      (after : NvramState) × (three_cycles state' input'
        ≡ some (after, raised state input ctl_write_int))
      × (addr < state.datalen / 2
          → (after.image ≡ set state.image addr (reg state reg_val))
            × (reg after reg_status ≡ status_write_ok))
      × (state.datalen / 2 ≤ addr
          → (after.image ≡ state.image) × (reg after reg_status ≡ status_write_err))
      × (after.delay ≡ 0)
unfolding three_cycles nvram_state_data
write-completes state input output idle instr bound =
    rw (exec-write state input output idle instr bound) (
      data_write-completes
        (record state {
          delay = 0;
          inst_pend = instr_write;
          addr_pend = u16 (nvram_addr state);
          val_pend = reg state reg_val;
        })
        input idle.sized)
