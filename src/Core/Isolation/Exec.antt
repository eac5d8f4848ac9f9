-- ===== src/Core/Isolation/Exec.antt =====
-- The first stage in user mode.
use cn.Common.{ℕ, true, false, refl, ◌+◌, ◌≡◌, arith, some, inl, inr, Option-cases}
use cn.Common.Words.{u16}
use cn.Instr.{decode_instruction}
use cn.Core.{
  State, Input, Output, InterType, status, load, loadlnk, store, scond, ifaulthdl, illophdl, exihdl,
}
use cn.Core.Status.{get_um}
use cn.Core.Regs.{check_pending_interrupt}
use cn.Core.Exec.{exec_interrupt, exec_decode, exec_fetched, sim_core_exec}
use cn.Core.Valid.{IsValid, Keeps}
use cn.Core.Valid.Rules.{if-Keeps}
use cn.Core.Interrupts.{check_pending_interrupt-IsLowest}
use cn.Instr.Fields.{decode_instruction-HasNumbers}
use cn.Core.Valid.Exec.{with_stall}
use cn.Core.Isolation.{IsAccess, Allowed, RunsUser, After}
use cn.Core.Isolation.Opcodes.{in_user_mode_lem, Stays, trapped, execute-After}

module _ (s : State) (output : Output) (v : IsValid s) (awake : s.sleeping ≡ false)
    (going : s.data_stall ≡ false) (user : get_um (s.ctl status) ≡ 1) where
  decode-After : (w : ℕ) → Keeps (Stays s awake going) (exec_decode w s output)
  unfolding exec_decode
  decode-After w = elim (Option-cases (decode_instruction w)) [
    | inl e ↦ rw (e, Keeps) (trapped s awake going _ illophdl v.newstat (omega arith))
    | inr (d, e) ↦
        rw (e, Keeps)
          ((execute-After (record s { newstat = s.ctl status; nextpc = u16 (s.pc + 1) }) awake going
            d output user (v.ctl status)
            (in_user_mode_lem (record s { newstat = s.ctl status; nextpc = u16 (s.pc + 1) }) user)
            (decode_instruction-HasNumbers w e).opcode))
  ]

  interrupt-After :
      (input : Input) (i : ℕ)
      → check_pending_interrupt s input ≡ some i
      → After s (exec_interrupt s i)
  unfolding exec_interrupt
  interrupt-After input i e =
      let bound = rw e at (check_pending_interrupt-IsLowest s input) in
      trapped s awake going s.regval (exihdl + i) v.newstat (omega (arith, bound.0))

  fetched-After : (input : Input) → Keeps (Stays s awake going) (exec_fetched s output input)
  unfolding exec_fetched
  fetched-After input = elim (Option-cases (check_pending_interrupt s input)) [
    | inl e ↦ rw (e, Keeps) (decode-After input.instr.value)
    | inr (i, e) ↦ rw (e, Keeps) (interrupt-After input i e)
  ]

waiting : (s : State) → RunsUser s → s.data_stall ≡ true → After s s
waiting s u e = record {
  same_super = refl;
  same_ctl = refl;
  awake = u.awake;
  same_stall = refl;
  waits = u.waits;
  allowed = inr (access s.type (u.waits e).0 (u.waits e).1);
}
  where
    access :
        (t : InterType) → IsAccess t → get_um s.newstat ≡ 1 → Allowed s.ctl t s.newstat s.nextpc
    access load a h = h
    access loadlnk a h = h
    access store a h = h
    access scond a h = h
    access _ a h = absurd a

-- In user mode the first stage changes no register of the supervisor. What it leaves for the
-- second stage is a fetch that is not answered, a trap into a handler in supervisor mode, or an
-- instruction that is not privileged and stays in user mode.
pub sim_core_exec-After :
    (s : State) (output : Output) (input : Input)
    → IsValid s
    → RunsUser s
    → Keeps (λ t o. After s t) (sim_core_exec s output input)
unfolding sim_core_exec
sim_core_exec-After s output input v u =
    let P : State → Output → Type 0 = λ t o. After s t in
    if-Keeps P s.data_stall _ _ (λ e. waiting s u e)
      λ e0.
        if-Keeps P s.sleeping _ _ (λ e. absurd (ground (arith, u.awake)))
          λ e.
            if-Keeps P input.instr.valid _ _
              (λ e.
                fetched-After (record s { instr_stall = false }) output (with_stall s _ v) u.awake
                  e0 u.mode input)
              λ e.
                if-Keeps P input.instr.fault _ _
                  (λ e. trapped s u.awake e0 s.pc ifaulthdl v.newstat (omega arith))
                  λ e. record {
                    same_super = refl;
                    same_ctl = refl;
                    awake = u.awake;
                    same_stall = refl;
                    waits = λ e. cc;
                    allowed = inl refl;
                  }
