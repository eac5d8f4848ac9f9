-- ===== src/Core/Isolation/Update.antt =====
-- The second stage after a first stage in user mode.
use cn.Common.{
  ℕ, Bool, true, false, refl, ◌<◌, ◌≡◌, ◌∙◌, ◌⊎◌, arith, inl, inr, not, ◌&&◌, ◌==◌, if◌then◌else◌,
}
use cn.Common.Words.{IsWord}
use cn.Core.{
  State, Input, Output, InterType, Result, success, status, trap, gprup, branch, brlink, load,
  loadlnk, store, scond, cpread, rfi, sleep, ctlup, epc, epc_saved,
}
use cn.Core.Status.{get_um, set_ll}
use cn.Core.Status.Fields.{get_um_lem, set_ll_lem}
use cn.Core.Regs.{gpreg_write}
use cn.Core.Update.{
  Updated, count_cycle, advance, write_ctl, update_load, update_loadlnk, update_store, update_scond,
  data_fault, no_data_request, no_instr_request, update_memory, update_trap, update_by_type,
  is_trap, update_core,
}
use cn.Core.Valid.{IsValid, regnum_bound}
use cn.Core.Isolation.{IsProtected, Allowed, IsAccess, RunsUser, Guards, Entered}
use cn.Core.Isolation.Opcodes.{in_user_mode_lem}

not_true : (b : Bool) → (b ≡ true → ⊥) → b ≡ false
not_true true h = absurd (h refl)
not_true false h = refl

gpreg_write-stall : (s : State) (r x : ℕ) → (gpreg_write s r x).data_stall ≡ s.data_stall
unfolding gpreg_write
gpreg_write-stall s r x = ground arith

module _ (gpr ctl : ℕ → ℕ) where
  -- Still in user mode, with the supervisor's registers as they were.
  abbrev Held : State → Type 0
  Held t = Guards gpr ctl t × (get_um (t.ctl status) ≡ 1) × (t.sleeping ≡ false)

  abbrev Ends : Updated → Type 0
  Ends (r, t, output) = Guards gpr ctl t × (RunsUser t ⊎ Entered ctl t)

  if-Ends :
      (b : Bool) (x y : Updated)
      → (b ≡ true → Ends x)
      → (b ≡ false → Ends y)
      → Ends (if b then x else y)
  if-Ends true x y hx hy = hx refl
  if-Ends false x y hx hy = hy refl

  write_ctl-Guards :
      (s : State) (i x : ℕ)
      → Guards gpr ctl s
      → ((k : ℕ) → IsProtected k → (i == k) ≡ false)
      → Guards gpr ctl (write_ctl s i x)
  write_ctl-Guards s i x g other = record {
    same_super = g.same_super;
    protected = λ k p. ground (arith, other k p, g.protected k p);
  }

  gpreg_write-Held : (s : State) (r x : ℕ) → r < 8 → Held s → Held (gpreg_write s r x)
  unfolding gpreg_write
  gpreg_write-Held s r x h held =
      rw (in_user_mode_lem s held.1)
        (write_ctl-Guards s r x held.0 (λ k p. ground arith), ground (arith, held.1), held.2)

  -- The count of the cycle and the move to the next instruction.
  count_cycle-Held :
      (r : Result) (s : State) (output : Output) → Held s → Held (count_cycle r s output).1
  unfolding count_cycle
  count_cycle-Held r s output held = (
    write_ctl-Guards _ 29 _ (write_ctl-Guards s 28 _ held.0 (λ k p. ground arith))
        (λ k p. ground arith),
    held.1,
    held.2,
  )

  runs :
      (t : State) → Held t → t.data_stall ≡ false → Guards gpr ctl t × (RunsUser t ⊎ Entered ctl t)
  runs t held e = (held.0, inl (record { mode = held.1; awake = held.2; waits = λ w. cc }))

  re_guard : (s : State) (np : ℕ) → Held s → Held (record s { pc = np })
  re_guard s np held =
      (record { same_super = held.0.same_super; protected = held.0.protected }, held.1, held.2)

  advance-Ends :
      (s : State) (output : Output) → Held s → s.data_stall ≡ false → Ends (advance s output)
  unfolding advance count_cycle
  advance-Ends s output held e =
      runs _ (count_cycle-Held success _ output (re_guard s s.nextpc held)) e

  re_stall : (s : State) (b : Bool) → Held s → Held (record s { data_stall = b })
  re_stall s b held =
      (record { same_super = held.0.same_super; protected = held.0.protected }, held.1, held.2)

  -- The load link is written, and the mode stays.
  with_ll :
      (s : State) (val : ℕ)
      → IsWord (s.ctl status)
      → Held s
      → Held (write_ctl s status (set_ll (s.ctl status) val))
  with_ll s val w held = (
    write_ctl-Guards s status _ held.0 (λ k p. ground arith),
    omega (
      arith,
      held.1,
      get_um_lem (set_ll (s.ctl status) val),
      get_um_lem (s.ctl status),
      set_ll_lem (s.ctl status) val w,
    ),
    held.2,
  )

  module _ (s : State) (output : Output) (input : Input) (held : Held s) where
    stalled :
        IsAccess s.type
        → get_um s.newstat ≡ 1
        → Ends (count_cycle success (record s { data_stall = true }) (no_instr_request output))
    unfolding count_cycle
    stalled access user =
        let counted =
          count_cycle-Held success (record s { data_stall = true }) output (re_stall s true held) in
        (
          counted.0,
          inl (record { mode = counted.1; awake = counted.2; waits = λ e. (access, user) }),
        )

    faulted : Held (record (data_fault s) { data_stall = false })
    unfolding data_fault
    faulted =
        (record { same_super = held.0.same_super; protected = held.0.protected }, held.1, held.2)

    -- The three branches of an access to the data memory.
    update_memory-Ends :
        (complete : State → Input → State)
        → IsAccess s.type
        → get_um s.newstat ≡ 1
        → Held (complete s input)
        → Ends (update_memory complete s output input)
    unfolding update_memory
    update_memory-Ends complete access user done =
        if-Ends (not input.data_in.valid && not input.data_in.fault) _ _ (λ _. stalled access user)
          (λ _.
            if-Ends input.data_in.fault _ _ (λ _. advance-Ends _ output faulted refl)
              (λ _.
                advance-Ends _ (no_data_request output) (re_stall (complete s input) false done)
                  refl))

  enter-Ends :
      (s : State) (output : Output)
      → Guards gpr ctl s
      → s.ctl status ≡ s.newstat
      → Allowed ctl trap s.newstat s.nextpc
      → Ends (advance (update_trap s) output)
  unfolding advance count_cycle update_trap
  enter-Ends s output g st (sup, k, h, target) = (
    write_ctl-Guards _ 29 _
        (write_ctl-Guards _ 28 _
          (write_ctl-Guards _ epc _
            (write_ctl-Guards (record s { sleeping = false; pc = s.nextpc }) epc_saved _
              (record { same_super = g.same_super; protected = g.protected }) (λ k p. ground arith))
            (λ k p. ground arith))
          (λ k p. ground arith))
        (λ k p. ground arith),
    inr (rw st sup, k, h, target),
  )

  module _ (s : State) (output : Output) (input : Input) (g : Guards gpr ctl s)
      (awake : s.sleeping ≡ false) (st : s.ctl status ≡ s.newstat) (w : IsWord (s.ctl status)) where
    held : get_um s.newstat ≡ 1 → Held s
    held user = (g, rw st user, awake)

    write-Ends :
        (r x : ℕ)
        → r < 8
        → (s.data_stall ≡ true → ⊥)
        → get_um s.newstat ≡ 1
        → Ends (advance (gpreg_write s r x) output)
    write-Ends r x h waits user =
        advance-Ends _ output (gpreg_write-Held s r x h (held user))
          (gpreg_write-stall s r x ∙ not_true _ waits)

    -- The switch, for each kind of instruction that the first stage may leave.
    update_by_type-Ends :
        (t : InterType)
        → s.type ≡ t
        → Allowed ctl t s.newstat s.nextpc
        → s.regnum < regnum_bound t
        → (s.data_stall ≡ true → IsAccess t)
        → Ends (update_by_type t s output input)
    unfolding update_by_type
    update_by_type-Ends gprup e a rb waits = write-Ends s.regnum s.regval rb waits a
    update_by_type-Ends branch e a rb waits = advance-Ends s output (held a) (not_true _ waits)
    update_by_type-Ends brlink e a rb waits = write-Ends 7 s.regval (omega arith) waits a
    update_by_type-Ends load e a rb waits =
        update_memory-Ends s output input (held a) update_load (rw e tt) a
          (gpreg_write-Held _ _ _ rb (with_ll s 0 w (held a)))
    update_by_type-Ends loadlnk e a rb waits =
        update_memory-Ends s output input (held a) update_loadlnk (rw e tt) a
          (gpreg_write-Held _ _ _ rb (with_ll s 1 w (held a)))
    update_by_type-Ends store e a rb waits =
        update_memory-Ends s output input (held a) update_store (rw e tt) a (with_ll s 0 w (held a))
    update_by_type-Ends scond e a rb waits =
        update_memory-Ends s output input (held a) update_scond (rw e tt) a
          (gpreg_write-Held _ _ _ rb (with_ll s 0 w (held a)))
    update_by_type-Ends cpread e a rb waits = write-Ends s.regnum input.coproc rb waits a
    update_by_type-Ends trap e a rb waits = enter-Ends s output g st a
    update_by_type-Ends ctlup e a rb waits = absurd a
    update_by_type-Ends rfi e a rb waits = absurd a
    update_by_type-Ends sleep e a rb waits = absurd a

  -- The second stage after the first.
  pub update_core-Ends :
      (s : State) (output : Output) (input : Input)
      → Guards gpr ctl s
      → IsValid s
      → get_um (s.ctl status) ≡ 1
      → s.sleeping ≡ false
      → (s.data_stall ≡ true → IsAccess s.type × (get_um s.newstat ≡ 1))
      → (s.instr_stall ≡ true) ⊎ Allowed ctl s.type s.newstat s.nextpc
      → Ends (update_core s output input)
  unfolding update_core count_cycle
  update_core-Ends s output input g v user awake waits allowed =
      if-Ends s.instr_stall _ _ (λ _. halted)
        λ going.
          if-Ends (s.sleeping && not (is_trap s)) _ _ (λ e. absurd (ground arith))
            λ _.
              update_by_type-Ends (write_ctl s status s.newstat) output input
                (write_ctl-Guards s status _ g (λ k p. ground arith)) awake refl v.newstat s.type
                refl (elim allowed [ inl e ↦ absurd (ground arith) | inr a ↦ a ]) v.regnum
                (λ e. (waits e).0)
    where
      halted : Ends (count_cycle success s output)
      halted =
          let counted = count_cycle-Held success s output (g, user, awake) in
          (counted.0, inl (record { mode = counted.1; awake = counted.2; waits = waits }))
