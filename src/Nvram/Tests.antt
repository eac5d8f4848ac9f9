-- ===== src/Nvram/Tests.antt =====
-- An nvram of three words, and the theorems about its commands applied to it.
use cn.Common.{ℕ, ◌≡◌, ◌<◌, ◌≤◌, ◌/◌, some, refl, arith, [], ◌∷◌, set, update}
use cn.Common.Words.{u16}
use cn.Core.{Output, input_init, output_init}
use cn.Nvram.{
  NvramState, reg, nvram_addr, nvram_state_exec, reg_val, reg_status, status_write_ok,
  status_write_err, ctl_read_int, ctl_write_int,
}
use cn.Nvram.Commands.{three_cycles, IsIdle, ReadResult, raised, read-completes, write-completes}

-- Address 1, and the interrupts of both commands asked for.
abbrev small : NvramState
small = record {
  hdr = record { cpnum = 4; regs = update (update (update (λ _. 0) 0 3) 2 1) 4 0xBEEF };
  image = 10 ∷ 11 ∷ 12 ∷ [];
  datalen = 6;
  delay = 0;
  inst_pend = 0;
  addr_pend = 0;
  val_pend = 0;
}

abbrev command : ℕ → Output
command n = record output_init { coproc = record (output_init.coproc) { value = n } }

small-IsIdle : IsIdle small
small-IsIdle = record { delay = refl; status = refl; sized = refl }

addr_in_image : nvram_addr small < 6
unfolding nvram_addr
addr_in_image = omega arith

read-completes_example :
    let (state', input') = nvram_state_exec small input_init (command 1) in
    (after : NvramState) × (three_cycles state' input'
      ≡ some (after, raised small input_init ctl_read_int))
    × ReadResult small after
    × (after.image ≡ small.image)
    × (after.delay ≡ 0)
read-completes_example = read-completes small input_init (command 1) small-IsIdle refl addr_in_image

write-completes_example :
    let (state', input') = nvram_state_exec small input_init (command 2) in
    let addr = u16 (nvram_addr small) in
    (after : NvramState) × (three_cycles state' input'
      ≡ some (after, raised small input_init ctl_write_int))
    × (addr < 6 / 2
        → (after.image ≡ set small.image addr (reg small reg_val))
          × (reg after reg_status ≡ status_write_ok))
    × (6 / 2 ≤ addr → (after.image ≡ small.image) × (reg after reg_status ≡ status_write_err))
    × (after.delay ≡ 0)
write-completes_example =
    write-completes small input_init (command 2) small-IsIdle refl addr_in_image
