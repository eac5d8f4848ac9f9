-- ===== src/Lib.antt =====
-- CN1601: a 16-bit processor, its simulator and its devices.
--
-- The program simulates a processor with a user and a supervisor mode, a memory with a delay,
-- and coprocessors on a bus. One cycle of the simulator (sim.c) fetches over the memory
-- interface (sim_memif.c), runs the first stage of the core (`sim_core_exec` of sim_core.c,
-- which decodes by instructions.c), lets the coprocessors work, accesses the data memory, and
-- runs the second stage (`sim_core_update`), which commits what the first one prepared in
-- `inter`.
--
-- Files:
--   Common       words of C as native numbers, arrays as functions, bit operations
--   Instr        decode_instruction (instructions.c, instr_table.h)
--   Core         the structures of sim_core.h; Core/Status its macros on the status register,
--                Core/Alu alu_exec, Core/Regs the register files, the interrupt inputs and the
--                label `trap`, Core/Compute, Core/Branch, Core/Memory, Core/Coproc and Core/Mode
--                the cases of the switch over the opcode, Core/Exec sim_core_exec, Core/Update
--                sim_core_update (sim_core.c)
--   Instr/Table, Instr/Assemble
--                instr_table (instr_table.c), nmemonic_syntax, assemble_instruction and
--                resolve_nmemonic (instructions.c)
--   Text         the functions of the C library that read texts
--   Asm          generate_labels, find_offset, find_reloff and the operands of an instruction
--                (asm.c); Asm/Opcodes generate_opcodes, Asm/Tokens readline, nextsym, splitline
--                and tokenize
--   Dasm         disassemble and the loop of main (dasm.c)
--   Memif        sim_memif_init, sim_memif_access and sim_memif_tick (sim_memif.c)
--   CpIf         sim_cp_hdr_reset, sim_cp_read and sim_cp_write; CpIf/Args sim_cp_hdr_init
--                (sim_cp_if.c)
--   Utils        the bit fields of utils.h
--   Timer        timer_state_data and timer_state_exec (sim_cp_timer.c)
--   Nvram        nvram_state_reset, nvram_state_data and nvram_state_exec (sim_cp_nvram.c)
--   Dlist        the doubly linked lists of dlist.h, over an explicit heap
--   Mbox         msg_init, mbox_init, mbox_msg_post, mbox_msg_get and mbox_len (mbox.c)
--   Uart         uart_state_reset, uart_state_data and uart_state_exec, each by itself;
--                Uart/Threads the three threads, call by call of mbox.c (sim_cp_uart.c)
--   Sim          cycle, reset and the loop of do_interp_step (sim.c)
--   Interp       interpret and the commands reset, load, goto, cycle, continue and read;
--                Interp/Split strchrs and split (sim.c)
-- The other files below a module hold its theorems, and its Tests file concrete runs.
--
-- Conventions. A `uint16_t` is a native number below 2 ^ 16, and every operation that can leave
-- that range is followed by `u16`. An `int` is its 32-bit pattern. `ctl.array` and `ctl.named`
-- are one function of the index, in which `gpr_user` is 0 to 7 and the named registers are
-- constants. The members of `inter` are fields of the state. A pointer that a function writes
-- through is an argument and a component of the result. Where C leaves the behaviour undefined
-- the result is `none`: a shift of an `int` by 32 or more or one to the left that overflows it,
-- an access outside of an array. Two things that C leaves undefined are taken as modulo 2^32: the
-- shift into the sign bit in SGNEXTEND, as gcc defines it, and an overflow in find_reloff. Loops are over constant bounds or lists; the loop of
-- assemble_instruction over a format has the length of the format as fuel, which is enough for
-- every row of the table (Instr/Assemble/RoundTrip). The loop of
-- generate_opcodes over a syntax has the length of the syntax as fuel (Asm/Arity), and that of
-- tokenize the length of the input (Asm/Tokens/Total), that of split one more than the length of
-- its text (Interp/Split/Pieces). load_file is a parameter of the interpreter, as is the number of
-- cycles after which the signal stops continue; the host is taken to be little-endian.
--
-- Not modelled: tracing, messages and the state that only they print, the command lines, the
-- commands of sim.c that only print, opening and writing files, the polling and waiting of
-- the threads of the UART, the older version in old, sim_physmem.c and sim_utils.c, which the
-- build does not use, and the test programs. Memory is taken to be there for what the assembler
-- copies, and the disassembler's buffer to hold a line, which takes at most 40 of its bytes.
pub mod Common
pub mod Text
pub mod Instr
pub mod Interp
pub mod Asm
pub mod Dasm
pub mod Core
pub mod Memif
pub mod Utils
pub mod CpIf
pub mod Timer
pub mod Nvram
pub mod Dlist
pub mod Mbox
pub mod Uart
pub mod Sim
