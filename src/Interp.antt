-- ===== src/Interp.antt =====
-- The command interpreter of sim.c: `interpret`, its commands, and the splitting of a line. What
-- the commands print is left out. `none` is a behaviour that C leaves undefined.
pub mod Split
pub mod Valid
mod Tests
use cn.Common.{
  ◌>>=◌, ℕ, zero, suc, ◌+◌, ◌-◌, ◌*◌, ◌/◌, ◌%◌, ◌^◌, Bool, true, false, ◌||◌, ◌&&◌, Option, none,
  some, List, [], ◌∷◌, length, take, get_elem?, set, ltb, leb, ◌==◌, if◌then◌else◌,
}
use cn.Common.Words.{u16}
use cn.Core.{Result, success, failure}
use cn.Instr.Table.{codes}
use cn.Text.{same_text, strtol_int}
use cn.Sim.{System, physmem_numwords, reset_core, reset_mem, reset, steps}
use cn.Interp.Split.{Parts, split}

-- The simulator and `g_continue`.
pub record Session : Type 0 where
  pub system : System
  pub g_continue : Bool

-- The commands that the interpreter knows.
pub data Command : Type 0 where
  quit reset_sim load goto cycles continue read_mem show other : Command

-- `strcmp(argv[0], name)` down the list. `disassemble`, `write`, `assemble` and `trace` change
-- no state that is modelled: they print, as do `show` and what is no command.
unfoldable pub command_of : List ℕ → Command
unfolding same_text
command_of name =
    if same_text name (codes "quit")
    then quit
    else if same_text name (codes "reset")
    then reset_sim
    else if same_text name (codes "load")
    then load
    else if same_text name (codes "goto")
    then goto
    else if same_text name (codes "cycle")
    then cycles
    else if same_text name (codes "continue")
    then continue
    else if same_text name (codes "read")
    then read_mem
    else if same_text name (codes "show")
    then show
    else other

-- In the commands `argc` counts the name as well, so that it is not negative, and `argv` is what
-- follows the name.
unfoldable pub do_interp_reset : ℕ → List (List ℕ) → System → Option System
unfolding same_text
do_interp_reset argc argv s =
    if argc == 1
    then some (reset_core s)
    else if argc == 2
    then (do
      what ← get_elem? argv 0
      if same_text what (codes "core")
          then some (reset_core s)
          else if same_text what (codes "mem")
          then some (reset_mem s)
          else if same_text what (codes "all")
          then reset s
          else some s)
    else some s

-- `memcpy` of an image to the words from `at` on, on a host that is little-endian: a last byte
-- without a partner changes the low byte of its word.
unfoldable pub copy_image : List ℕ → ℕ → List ℕ → Option (List ℕ)
copy_image [] at mem = some mem
copy_image (low ∷ []) at mem = do
  word ← get_elem? mem at
  some (set mem at (word / 2 ^ 8 * 2 ^ 8 + low))
copy_image (low ∷ high ∷ image) at mem = do
  _ ← get_elem? mem at
  copy_image image (suc at) (set mem at (high * 2 ^ 8 + low))

module _ (load_file : List ℕ → Option (List ℕ)) where
  -- Once the file is read.
  unfoldable pub load_at : ℕ → List ℕ → System → Option System
  unfolding copy_image
  load_at offset image s =
      if ltb physmem_numwords (offset + length image / 2)
      then some s
      else copy_image image offset s.physmem >>= (λ physmem. some (record s { physmem = physmem }))

  unfoldable pub do_interp_load : ℕ → List (List ℕ) → System → Option System
  unfolding load_at strtol_int
  do_interp_load argc argv s = if ltb argc 2 || ltb 3 argc then some s else (do
    path ← get_elem? argv 0
    offset ←
        if argc == 3
        then get_elem? argv 1 >>= (λ number. some (u16 (strtol_int 0 number)))
        else some 0
    elim (load_file path) [ none ↦ some s | some image ↦ load_at offset image s ])

-- `goto` to a number.
unfoldable pub goto_addr : ℕ → System → System
goto_addr startaddr s = record s {
  core_output = record (s.core_output) {
    instr = record (s.core_output.instr) { request = true; read = true; addr = startaddr };
  };
  core_state = record (s.core_state) { pc = startaddr };
}

unfoldable pub do_interp_goto : ℕ → List (List ℕ) → System → Option System
unfolding strtol_int goto_addr
do_interp_goto argc argv s =
    if argc == 2
    then get_elem? argv 0 >>= (λ number. some (goto_addr (u16 (strtol_int 0 number)) s))
    else some s

-- `numsteps--` is undefined at the least `int`, which a negative number comes to unless a cycle
-- has failed before.
abbrev pub all_cycles : Result × System → Option (Result × System)
all_cycles (success, s) = none
all_cycles (failure, s) = some (failure, s)

unfoldable pub run_cycles : ℕ → System → Option (Result × System)
run_cycles numsteps s =
    if ltb numsteps (2 ^ 31)
    then steps numsteps s
    else steps (numsteps - 2 ^ 31 - 1) s >>= all_cycles

unfoldable pub do_interp_step : ℕ → List (List ℕ) → System → Option (Result × System)
unfolding run_cycles strtol_int
do_interp_step argc argv s =
    if argc == 2
    then get_elem? argv 0 >>= (λ number. run_cycles (strtol_int 0 number) s)
    else if argc == 1
    then run_cycles 1 s
    else some (success, s)

-- The addresses are `int`, and only those above the last are refused.
unfoldable pub do_interp_read : List (List ℕ) → List ℕ → Option (List (Option ℕ))
unfolding strtol_int
do_interp_read [] physmem = some []
do_interp_read (number ∷ argv) physmem = do
  let addr = strtol_int 0 number
  value ←
      if ltb addr (2 ^ 31) && ltb physmem_numwords addr
      then some none
      else get_elem? physmem addr >>= (λ word. some (some word))
  values ← do_interp_read argv physmem
  some (value ∷ values)

-- `argv` keeps the words of former commands after the new ones.
abbrev overlay : List (List ℕ) → List (List ℕ) → List (List ℕ)
overlay [] old = old
overlay (word ∷ new) [] = word ∷ new
overlay (word ∷ new) (_ ∷ old) = word ∷ overlay new old

abbrev after_name : List (List ℕ) → List (List ℕ)
after_name [] = []
after_name (name ∷ words) = words

-- A command that gives a status of 0.
abbrev carry_on : Bool → Option System → Option (Bool × Session)
carry_on g_continue none = none
carry_on g_continue (some s) = some (true, record { system = s; g_continue = g_continue })

-- A command that runs cycles; a cycle that fails ends the interpreter.
abbrev after_cycles : Bool → Bool → Option (Result × System) → Option (Bool × Session)
after_cycles g_continue g_failed none = none
after_cycles g_continue g_failed (some (success, s)) =
    some (true, record { system = s; g_continue = g_continue })
after_cycles g_continue g_failed (some (failure, s)) =
    some (false, record { system = s; g_continue = g_failed })

-- `do_interp_continue`, where the signal that clears `g_continue` arrives after `cycles_left`
-- cycles.
unfoldable pub do_interp_continue : ℕ → Session → Option (Bool × Session)
do_interp_continue cycles_left t =
    if t.g_continue then after_cycles false true (steps cycles_left t.system) else some (true, t)

module _ (load_file : List ℕ → Option (List ℕ)) (cycles_left : ℕ) where
  -- The body of the loop of `interpret`: whether the status is 0, and the session.
  unfoldable pub run_command : Command → ℕ → List (List ℕ) → Session → Option (Bool × Session)
  unfolding do_interp_reset do_interp_load do_interp_goto do_interp_step do_interp_read
      do_interp_continue
  run_command quit argc argv t = some (false, t)
  run_command reset_sim argc argv t = carry_on t.g_continue (do_interp_reset argc argv t.system)
  run_command load argc argv t = carry_on t.g_continue (do_interp_load load_file argc argv t.system)
  run_command goto argc argv t = carry_on t.g_continue (do_interp_goto argc argv t.system)
  run_command cycles argc argv t =
      after_cycles t.g_continue t.g_continue (do_interp_step argc argv t.system)
  run_command continue argc argv t = do_interp_continue cycles_left t
  run_command read_mem argc argv t =
      do_interp_read (take (argc - 1) argv) t.system.physmem >>= (λ _. some (true, t))
  run_command show argc argv t =
      if argc == 0 then get_elem? argv 0 >>= (λ _. some (true, t)) else some (true, t)
  run_command other argc argv t = some (true, t)

  unfoldable pub interpret_commands :
      List (List ℕ) → List (List ℕ) → Session → Option (Bool × Session)
  unfolding run_command command_of split
  interpret_commands [] argv t = some (true, t)
  interpret_commands (command ∷ commands) argv t = do
    parts ← split command (32 ∷ 9 ∷ []) false 16
    let argv' = overlay parts.args argv
    name ← get_elem? argv' 0
    (is_zero, t') ← run_command (command_of name) (length parts.args) (after_name argv') t
    if is_zero then interpret_commands commands argv' t' else some (false, t')

  unfoldable pub interpret : List ℕ → Session → Option (Bool × Session)
  unfolding interpret_commands split
  interpret cmdstr t = do
    parts ← split cmdstr (b';' ∷ []) false 16
    if parts.is_zero then interpret_commands parts.args [] t else some (false, t)
