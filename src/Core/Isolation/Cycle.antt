-- ===== src/Core/Isolation/Cycle.antt =====
-- A whole cycle of the core in user mode.
use cn.Common.{ℕ, Bool, true, false, refl, ◌≡◌, ◌∙◌, arith, none, some, ◌==◌, if◌then◌else◌}
use cn.Core.{State, Input, Output, ipend}
use cn.Core.Exec.{sim_core_exec}
use cn.Core.Update.{propagate_signals, sim_core_update}
use cn.Core.Valid.{IsValid, IsOutput, Keeps, AreValid}
use cn.Core.Valid.Rules.{u16-IsWord}
use cn.Core.Valid.Exec.{sim_core_exec-AreValid}
use cn.Core.Valid.Update.{write_ctl-IsValid}
use cn.Core.Regs.{Stage}
use cn.Core.Isolation.{IsProtected, RunsUser, After, Contained}
use cn.Core.Isolation.Exec.{sim_core_exec-After}
use cn.Core.Isolation.Update.{update_core-Ends}

both_Keep :
    (P Q R : State → Output → Type 0) (m : Stage)
    → ((t : State) (o : Output) → P t o → Q t o → R t o)
    → Keeps P m
    → Keeps Q m
    → Keeps R m
both_Keep P Q R none combine p q = tt
both_Keep P Q R (some (r, t, o)) combine p q = combine t o p q

if_other : {A : Type 0} (b : Bool) (x y : A) → b ≡ false → (if b then x else y) ≡ y
if_other true x y e = absurd (ground (arith, e))
if_other false x y e = refl

-- The first stage's result, taken through the second stage.
after-Contained :
    (s t : State) (output : Output) (input : Input)
    → RunsUser s
    → IsValid t
    → After s t
    → Contained s (sim_core_update t output input).1
unfolding sim_core_update propagate_signals
after-Contained s t output input u vt a =
    update_core-Ends s.gpr_super s.ctl _ _ input
      (record {
        same_super = a.same_super;
        protected = λ k p. if_other (ipend == k) _ (t.ctl k) (not_pend k p) ∙ (λ i. a.same_ctl i k);
      })
      (write_ctl-IsValid t ipend _ vt (u16-IsWord _)) (rw a.same_ctl u.mode) a.awake a.waits
      a.allowed
  where
    not_pend : (k : ℕ) → IsProtected k → (ipend == k) ≡ false
    not_pend k p = ground (arith, p)

-- In user mode, and awake, one cycle of the core, with any answers on its pins, leaves every
-- supervisor register and every protected control register as it was, and ends either in user
-- mode again or in supervisor mode at an address that a handler register holds.
pub cycle-Contained :
    (s : State) (output : Output) (input late_input : Input)
    → IsValid s
    → IsOutput output
    → RunsUser s
    → Keeps
        (λ t output'. Contained s (sim_core_update t output' late_input).1)
        (sim_core_exec s output input)
cycle-Contained s output input late_input v o u =
    both_Keep AreValid (λ t o'. After s t) _ (sim_core_exec s output input)
      (λ t o' valid a. after-Contained s t o' late_input u valid.0 a)
      (sim_core_exec-AreValid s output input v o) (sim_core_exec-After s output input v u)
