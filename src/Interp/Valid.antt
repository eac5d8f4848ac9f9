-- ===== src/Interp/Valid.antt =====
-- What every line of commands keeps of the simulator.
use cn.Common.{
  Holds, bind-Holds, ℕ, suc, ◌+◌, ◌-◌, ◌*◌, ◌/◌, ◌^◌, ◌<◌, ◌≡◌, refl, arith, Bool, true, false,
  ◌||◌, Option, none, some, List, [], ◌∷◌, length, take, All, All-get_elem?, All-set, get_elem?,
  ltb, ◌==◌, if_branches,
}
use cn.Common.Words.{IsWord, u16}
use cn.Core.{Result, success, failure}
use cn.Core.Valid.Rules.{u16-IsWord}
use cn.Instr.Table.{codes}
use cn.Text.{same_text, strtol_int}
use cn.Sim.{System, physmem_numwords, reset, steps}
use cn.Sim.Valid.{IsSystem}
use cn.Sim.Reset.{RunsOn, steps-IsSystem, reset_core-IsSystem, reset_mem-IsSystem, reset-IsSystem}
use cn.Interp.{
  Session, Command, quit, reset_sim, load, goto, cycles, continue, read_mem, show, other,
  command_of, do_interp_reset, copy_image, load_at, do_interp_load, goto_addr, do_interp_goto,
  run_cycles, all_cycles, do_interp_step, do_interp_read, do_interp_continue, run_command,
  interpret_commands, interpret, carry_on, after_cycles, overlay, after_name,
}
use cn.Interp.Split.{split}

reset_command-IsSystem :
    (argc : ℕ) (argv : List (List ℕ)) (s : System)
    → IsSystem s
    → Holds IsSystem (do_interp_reset argc argv s)
unfolding do_interp_reset
reset_command-IsSystem argc argv s h =
    if_branches (Holds IsSystem) (argc == 1) _ _ (λ _. core)
      λ _.
        if_branches (Holds IsSystem) (argc == 2) _ _
          (λ _. bind-Holds IsSystem (get_elem? argv 0) _ λ what _.
            if_branches (Holds IsSystem) (same_text what (codes "core")) _ _ (λ _. core)
              λ _.
                if_branches (Holds IsSystem) (same_text what (codes "mem")) _ _
                  (λ _. reset_mem-IsSystem s h)
                  λ _.
                    if_branches (Holds IsSystem) (same_text what (codes "all")) _ _
                      (λ _. reset-IsSystem s h.memory h.coprocs) λ _. h)
          λ _. h
  where
    core : IsSystem (cn.Sim.reset_core s)
    core = reset_core-IsSystem s h.memory h.coprocs

abbrev pub IsByte : ℕ → Type 0
IsByte c = c < 2 ^ 8

copy_image-Words :
    (image : List ℕ) (at : ℕ) (mem : List ℕ)
    → All IsByte image
    → All IsWord mem
    → Holds (All IsWord) (copy_image image at mem)
unfolding copy_image
copy_image-Words [] at mem hi hm = hm
copy_image-Words (low ∷ []) at mem (hl, _) hm =
    bind-Holds (All IsWord) (get_elem? mem at) _ λ word e.
      let hw = All-get_elem? IsWord mem at hm e in
      All-set IsWord mem at (word / 2 ^ 8 * 2 ^ 8 + low) hm (omega arith)
copy_image-Words (low ∷ high ∷ image) at mem (hl, (hh, hi)) hm =
    bind-Holds (All IsWord) (get_elem? mem at) _ λ _ _.
      copy_image-Words image (suc at) _ hi
        (All-set IsWord mem at (high * 2 ^ 8 + low) hm (omega arith))

goto_addr-IsSystem :
    (addr : ℕ) (s : System) → IsWord addr → IsSystem s → IsSystem (goto_addr addr s)
unfolding goto_addr
goto_addr-IsSystem addr s ha h = record {
  core = record {
    pc = ha;
    gpr_super = h.core.gpr_super;
    ctl = h.core.ctl;
    regval = h.core.regval;
    newstat = h.core.newstat;
    nextpc = h.core.nextpc;
    regnum = h.core.regnum;
  };
  output = record {
    data_out = h.output.data_out;
    instr = (h.output.instr.0, ha);
    select = h.output.select;
    addr = h.output.addr;
    value = h.output.value;
  };
  input = h.input;
  memory = h.memory;
  coprocs = h.coprocs;
}

goto_command-IsSystem :
    (argc : ℕ) (argv : List (List ℕ)) (s : System)
    → IsSystem s
    → Holds IsSystem (do_interp_goto argc argv s)
unfolding do_interp_goto
goto_command-IsSystem argc argv s h =
    if_branches (Holds IsSystem) (argc == 2) _ _
      (λ _.
        bind-Holds IsSystem (get_elem? argv 0) _
          λ number _. goto_addr-IsSystem (u16 (strtol_int 0 number)) s (u16-IsWord _) h)
      λ _. h

all_cycles-Holds : (a : Result × System) → RunsOn a → Holds RunsOn (all_cycles a)
all_cycles-Holds (success, s) h = tt
all_cycles-Holds (failure, s) h = h

run_cycles-IsSystem : (n : ℕ) (s : System) → IsSystem s → Holds RunsOn (run_cycles n s)
unfolding run_cycles
run_cycles-IsSystem n s h =
    if_branches (Holds RunsOn) (ltb n (2 ^ 31)) _ _ (λ _. steps-IsSystem n s h)
      λ _.
        bind-Holds RunsOn (steps (n - 2 ^ 31 - 1) s) _
          λ a e. all_cycles-Holds a (rw e at (steps-IsSystem (n - 2 ^ 31 - 1) s h))

step_command-IsSystem :
    (argc : ℕ) (argv : List (List ℕ)) (s : System)
    → IsSystem s
    → Holds RunsOn (do_interp_step argc argv s)
unfolding do_interp_step
step_command-IsSystem argc argv s h =
    if_branches (Holds RunsOn) (argc == 2) _ _
      (λ _.
        bind-Holds RunsOn (get_elem? argv 0) _
          λ number _. run_cycles-IsSystem (strtol_int 0 number) s h)
      λ _. if_branches (Holds RunsOn) (argc == 1) _ _ (λ _. run_cycles-IsSystem 1 s h) λ _. h

-- The session after a command that C defines.
abbrev pub Keeps : Bool × Session → Type 0
Keeps (is_zero, t) = IsSystem t.system

carry_on-Keeps : (g : Bool) (o : Option System) → Holds IsSystem o → Holds Keeps (carry_on g o)
carry_on-Keeps g none h = tt
carry_on-Keeps g (some s) h = h

after_cycles-Keeps :
    (g f : Bool) (o : Option (Result × System)) → Holds RunsOn o → Holds Keeps (after_cycles g f o)
after_cycles-Keeps g f none h = tt
after_cycles-Keeps g f (some (success, s)) h = h
after_cycles-Keeps g f (some (failure, s)) h = h

-- A file is a sequence of bytes.
module _ (load_file : List ℕ → Option (List ℕ))
    (are_bytes : (path image : List ℕ) → load_file path ≡ some image → All IsByte image) where
  load_at-IsSystem :
      (offset : ℕ) (image : List ℕ) (s : System)
      → All IsByte image
      → IsSystem s
      → Holds IsSystem (load_at load_file offset image s)
  unfolding load_at
  load_at-IsSystem offset image s hi h =
      if_branches (Holds IsSystem) (ltb physmem_numwords (offset + length image / 2)) _ _ (λ _. h)
        λ _. bind-Holds IsSystem (copy_image image offset s.physmem) _ λ mem e. record {
          core = h.core;
          output = h.output;
          input = h.input;
          memory = (rw e at (copy_image-Words image offset s.physmem hi h.memory));
          coprocs = h.coprocs;
        }

  load_image-IsSystem :
      (path : List ℕ) (offset : ℕ) (s : System) (o : Option (List ℕ))
      → load_file path ≡ o
      → IsSystem s
      → Holds IsSystem (elim o [ none ↦ some s | some image ↦ load_at load_file offset image s ])
  load_image-IsSystem path offset s none e h = h
  load_image-IsSystem path offset s (some image) e h =
      load_at-IsSystem offset image s (are_bytes path image e) h

  load_command-IsSystem :
      (argc : ℕ) (argv : List (List ℕ)) (s : System)
      → IsSystem s
      → Holds IsSystem (do_interp_load load_file argc argv s)
  unfolding do_interp_load
  load_command-IsSystem argc argv s h =
      if_branches (Holds IsSystem) (ltb argc 2 || ltb 3 argc) _ _ (λ _. h)
        λ _. bind-Holds IsSystem (get_elem? argv 0) _ λ path _.
          bind-Holds IsSystem _ _
            λ offset _. load_image-IsSystem path offset s (load_file path) refl h

  run_command-Keeps :
      (cycles_left : ℕ) (command : Command) (argc : ℕ) (argv : List (List ℕ)) (t : Session)
      → IsSystem t.system
      → Holds Keeps (run_command load_file cycles_left command argc argv t)
  unfolding run_command do_interp_continue
  run_command-Keeps n quit argc argv t h = h
  run_command-Keeps n reset_sim argc argv t h =
      carry_on-Keeps t.g_continue (do_interp_reset argc argv t.system)
        (reset_command-IsSystem argc argv t.system h)
  run_command-Keeps n load argc argv t h =
      carry_on-Keeps t.g_continue (do_interp_load load_file argc argv t.system)
        (load_command-IsSystem argc argv t.system h)
  run_command-Keeps n goto argc argv t h =
      carry_on-Keeps t.g_continue (do_interp_goto argc argv t.system)
        (goto_command-IsSystem argc argv t.system h)
  run_command-Keeps n cycles argc argv t h =
      after_cycles-Keeps t.g_continue t.g_continue (do_interp_step argc argv t.system)
        (step_command-IsSystem argc argv t.system h)
  run_command-Keeps n continue argc argv t h =
      if_branches (Holds Keeps) t.g_continue _ _
        (λ _. after_cycles-Keeps false true (steps n t.system) (steps-IsSystem n t.system h)) λ _. h
  run_command-Keeps n read_mem argc argv t h =
      bind-Holds Keeps (do_interp_read (take (argc - 1) argv) t.system.physmem) _ λ _ _. h
  run_command-Keeps n show argc argv t h =
      if_branches (Holds Keeps) (argc == 0) _ _
        (λ _. bind-Holds Keeps (get_elem? argv 0) _ λ _ _. h) λ _. h
  run_command-Keeps n other argc argv t h = h

  commands-Keeps :
      (cycles_left : ℕ) (commands argv : List (List ℕ)) (t : Session)
      → IsSystem t.system
      → Holds Keeps (interpret_commands load_file cycles_left commands argv t)
  unfolding interpret_commands
  commands-Keeps n [] argv t h = h
  commands-Keeps n (command ∷ commands) argv t h =
      bind-Holds Keeps (split command (32 ∷ 9 ∷ []) false 16) _ λ parts _.
        bind-Holds Keeps (get_elem? (overlay parts.args argv) 0) _ λ name _.
          bind-Holds Keeps
            (run_command load_file n (command_of name) (length parts.args)
              (after_name (overlay parts.args argv)) t)
            _
            λ a e.
              let kept =
                (rw e at (
                  run_command-Keeps n (command_of name) (length parts.args)
                    (after_name (overlay parts.args argv)) t h)) in
              if_branches (Holds Keeps) a.0 _ _
                (λ _. commands-Keeps n commands (overlay parts.args argv) a.1 kept) λ _. kept

  -- Where files hold bytes, a line of commands that C defines, whatever it says, leaves the
  -- simulator within its bounds: the core valid, and words in the memory, the coprocessors and
  -- the pins.
  pub interpret-Keeps :
      (cycles_left : ℕ) (cmdstr : List ℕ) (t : Session)
      → IsSystem t.system
      → Holds Keeps (interpret load_file cycles_left cmdstr t)
  unfolding interpret
  interpret-Keeps n cmdstr t h = bind-Holds Keeps (split cmdstr (b';' ∷ []) false 16) _ λ parts _.
      if_branches (Holds Keeps) parts.is_zero _ _ (λ _. commands-Keeps n parts.args [] t h) λ _. h
