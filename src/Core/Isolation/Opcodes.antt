-- ===== src/Core/Isolation/Opcodes.antt =====
-- The instructions in user mode.
use cn.Common.{
  ◌>>=◌, ℕ, Bool, true, false, refl, ◌<◌, ◌≡◌, arith, inl, inr, not, ◌==◌, leb, if◌then◌else◌,
  Option-cases,
}
use cn.Common.Words.{IsWord}
use cn.Instr.{Decoded}
use cn.Core.{
  State, Output, InterType, status, trap, gprup, branch, brlink, load, loadlnk, store, scond,
  cpread, privophdl, swihdl,
}
use cn.Core.Status.{get_um, get_ll, set_ll, status_trap}
use cn.Core.Status.Fields.{get_um_lem, set_ll_lem, status_trap_lem}
use cn.Core.Alu.{AluOp, alu_exec, add}
use cn.Core.Regs.{gpreg_read, in_user_mode, is_set, take_trap, Stage, finish}
use cn.Core.Compute.{gpr_update, exec_compute}
use cn.Core.Branch.{branch_taken, exec_branch}
use cn.Core.Memory.{exec_memory}
use cn.Core.Coproc.{with_coproc, cp_denied, exec_coproc}
use cn.Core.Mode.{privileged, exec_sleep, exec_mode}
use cn.Core.Exec.{execute}
use cn.Core.Valid.{Keeps}
use cn.Core.Valid.Rules.{gpreg_read-then, if-Keeps, set_swiarg-IsWord}
use cn.Core.Isolation.{IsHandler, Allowed, After}

-- The stage is defined only where the ALU is.
alu_exec-then :
    (P : State → Output → Type 0) (op : AluOp) (x y : ℕ) (rest : ℕ → Stage)
    → ((r : ℕ) → Keeps P (rest r))
    → Keeps P (alu_exec op x y >>= rest)
alu_exec-then P op x y rest keep = elim (Option-cases (alu_exec op x y)) [
  | inl e ↦ rw e tt
  | inr (r, e) ↦ rw e (keep r)
]

get_um-status_trap : (stat : ℕ) → IsWord stat → get_um (status_trap stat) ≡ 0
get_um-status_trap stat h = omega (arith, get_um_lem (status_trap stat), status_trap_lem stat h)

get_um-set_ll : (stat val : ℕ) → IsWord stat → get_um (set_ll stat val) ≡ get_um stat
get_um-set_ll stat val h =
    omega (arith, get_um_lem (set_ll stat val), get_um_lem stat, set_ll_lem stat val h)

pub in_user_mode_lem : (s : State) → get_um (s.ctl status) ≡ 1 → in_user_mode s ≡ true
unfolding in_user_mode
in_user_mode_lem s e = rw e

module _ (s : State) (awake : s.sleeping ≡ false) (going : s.data_stall ≡ false) where
  abbrev pub Stays : State → Output → Type 0
  Stays t output = After s t

  after :
      (n rv ns np : ℕ) (t : InterType)
      → Allowed s.ctl t ns np
      → After s (record s { regnum = n; regval = rv; newstat = ns; nextpc = np; type = t })
  after n rv ns np t h = record {
    same_super = refl;
    same_ctl = refl;
    awake = awake;
    same_stall = refl;
    waits = λ e. cc;
    allowed = inr h;
  }

  -- A trap into the handler in control register `k`.
  pub trapped :
      (rv k : ℕ)
      → IsWord s.newstat
      → IsHandler k
      → After s (take_trap (record s { nextpc = s.ctl k; regval = rv }))
  unfolding take_trap
  trapped rv k w h = after _ _ _ _ trap (get_um-status_trap s.newstat w, k, h, refl)

  module _ (d : Decoded) (output : Output) (user : get_um s.newstat ≡ 1) where
    computed :
        (op : AluOp) (x y : ℕ)
        → Keeps Stays (alu_exec op x y >>= λ r. finish (gpr_update s d.field0 r) output)
    computed op x y = alu_exec-then Stays op x y _ (λ r. after _ r _ _ gprup user)

    reading :
        (r : ℕ) (rest : ℕ → Stage)
        → ((x : ℕ) → Keeps Stays (rest x))
        → Keeps Stays (gpreg_read s r >>= rest)
    reading r rest keep = gpreg_read-then Stays s r rest keep

    compute-After : Keeps Stays (exec_compute d s output)
    unfolding exec_compute
    compute-After =
        if-Keeps Stays (d.opcode == 0) _ _ (λ _. reading _ _ λ x. reading _ _ λ y. computed _ x y)
          λ _.
            if-Keeps Stays (d.opcode == 1) _ _
              (λ _. reading _ _ λ x. reading _ _ λ y. computed _ x y)
              λ _.
                if-Keeps Stays (d.opcode == 2) _ _
                  (λ _. reading _ _ λ x. reading _ _ λ y. computed _ x y)
                  λ _.
                    if-Keeps Stays (d.opcode == 3) _ _ (λ _. reading _ _ λ x. computed _ x _)
                      λ _.
                        if-Keeps Stays (d.opcode == 4) _ _ (λ _. after _ _ _ _ gprup user)
                          λ _. reading _ _ λ x. computed _ x _

    conditional :
        (b : Bool)
        → Keeps Stays
            (if b then branch_taken d s output else finish (record s { type = branch }) output)
    conditional b =
        if-Keeps Stays b (branch_taken d s output) (finish (record s { type = branch }) output)
          (λ _. alu_exec-then Stays add _ _ _ (λ r. after _ _ _ r branch user))
          (λ _. after _ _ _ _ branch user)

    branch-After : Keeps Stays (exec_branch d s output)
    unfolding exec_branch
    branch-After =
        if-Keeps Stays (d.opcode == 0x0F) _ _
          (λ _. alu_exec-then Stays add _ _ _ (λ r. after _ _ _ r branch user))
          λ _.
            if-Keeps Stays (d.opcode == 0x10) _ _
              (λ _. alu_exec-then Stays add _ _ _ (λ r. after _ _ _ r gprup user))
              λ _.
                if-Keeps Stays (d.opcode == 0x11) _ _ (λ _. reading _ _ λ x. conditional (x == 0))
                  λ _.
                    if-Keeps Stays (d.opcode == 0x12) _ _
                      (λ _. reading _ _ λ x. conditional (not (x == 0)))
                      λ _.
                        if-Keeps Stays (d.opcode == 0x13) _ _
                          (λ _.
                            reading _ _
                              λ x. alu_exec-then Stays add _ _ _ (λ r. after _ _ _ r branch user))
                          λ _.
                            reading _ _
                              λ x. alu_exec-then Stays add _ _ _ (λ r. after _ _ _ r brlink user)

    memory-After : IsWord s.newstat → Keeps Stays (exec_memory d s output)
    unfolding exec_memory
    memory-After w =
        if-Keeps Stays (d.opcode == 0x15) _ _
          (λ _. reading _ _ λ x.
            alu_exec-then Stays add _ _ _
              (λ a. after _ _ _ _ loadlnk (omega (arith, get_um-set_ll s.newstat 1 w))))
          λ _.
            if-Keeps Stays (d.opcode == 0x16) _ _
              (λ _. reading _ _ λ x. alu_exec-then Stays add _ _ _ (λ a. after _ _ _ _ load user))
              λ _.
                if-Keeps Stays (d.opcode == 0x17) _ _
                  (λ _. reading _ _ λ x.
                    alu_exec-then Stays add _ _ _
                      (λ a. reading _ _ λ value. after _ _ _ _ store user))
                  λ _.
                    if-Keeps Stays (is_set (get_ll (s.ctl status))) _ _
                      (λ _. reading _ _ λ x.
                        alu_exec-then Stays add _ _ _
                          (λ a. reading _ _ λ value. after _ _ _ _ scond user))
                      (λ _. after _ _ _ _ gprup user)

    coproc_allowed :
        (allowed : Stage)
        → IsWord s.newstat
        → Keeps Stays allowed
        → Keeps Stays (with_coproc d s output allowed)
    unfolding with_coproc
    coproc_allowed allowed w h =
        if-Keeps Stays (in_user_mode s) _ _
          (λ _.
            if-Keeps Stays (is_set (cp_denied d s)) _ _ (λ _. trapped _ privophdl w (omega arith))
              (λ _. h))
          (λ _. h)

    coproc-After : IsWord s.newstat → Keeps Stays (exec_coproc d s output)
    unfolding exec_coproc
    coproc-After w =
        if-Keeps Stays (d.opcode == 0x19) _ _ (λ _. coproc_allowed _ w (after _ _ _ _ cpread user))
          λ _.
            if-Keeps Stays (d.opcode == 0x1A) _ _
              (λ _. coproc_allowed _ w (reading _ _ λ x. after _ _ _ _ branch user))
              λ _. coproc_allowed _ w (reading _ _ λ x. after _ _ _ _ branch user)

    privileged-After :
        (allowed : Stage)
        → IsWord s.newstat
        → in_user_mode s ≡ true
        → Keeps Stays (privileged s output allowed)
    privileged-After allowed w u =
        if-Keeps Stays (in_user_mode s) _ _ (λ _. trapped _ privophdl w (omega arith)) (λ e. cc)

    sleep-After : IsWord s.newstat → in_user_mode s ≡ true → Keeps Stays (exec_sleep d s output)
    unfolding exec_sleep
    sleep-After w u = privileged-After _ w u

    mode-After : IsWord s.newstat → in_user_mode s ≡ true → Keeps Stays (exec_mode d s output)
    unfolding exec_mode
    mode-After w u =
        if-Keeps Stays (d.opcode == 0x1C) _ _
          (λ _.
            after _ _ _ _ trap
              (get_um-status_trap _ (set_swiarg-IsWord _ d.field0 w), swihdl, omega arith, refl))
          λ _.
            if-Keeps Stays (d.opcode == 0x1D) _ _ (λ _. privileged-After _ w u)
              λ _.
                if-Keeps Stays (d.opcode == 0x1E) _ _ (λ _. privileged-After _ w u)
                  λ _. privileged-After _ w u

    pub execute-After :
        IsWord s.newstat → in_user_mode s ≡ true → d.opcode < 32 → Keeps Stays (execute d s output)
    unfolding execute
    execute-After w u h =
        if-Keeps Stays (leb d.opcode 0x0D) _ _ (λ _. compute-After)
          λ e1.
            if-Keeps Stays (d.opcode == 0x0E) _ _ (λ _. sleep-After w u)
              λ e2.
                if-Keeps Stays (leb d.opcode 0x14) _ _ (λ _. branch-After)
                  λ e3.
                    if-Keeps Stays (leb d.opcode 0x18) _ _ (λ _. memory-After w)
                      λ e4.
                        if-Keeps Stays (leb d.opcode 0x1B) _ _ (λ _. coproc-After w)
                          λ e5.
                            if-Keeps Stays (leb d.opcode 0x1F) _ _ (λ _. mode-After w u)
                              λ e6. absurd (ground arith)
