-- ===== src/Sim/Runs.antt =====
-- Runs of many cycles of the whole simulator with a program in user mode.
use cn.Common.{ℕ, some, ◌≡◌, inl, inr, refl, ◌∙◌}
use cn.Core.{State, Result}
use cn.Core.Isolation.{RunsUser, Guards, Entered, Contained}
use cn.Sim.{System, cycle}
use cn.Sim.Isolation.{CoreContained, system_cycle-Contained}
use cn.Sim.Valid.{IsSystem, cycle-IsSystem}

-- The cycles that C defines from `s` for as long as the core is in user mode: a run ends when
-- the core enters a handler, or earlier.
pub data UserRun (s : System) : System → Type 0 where
  begin : UserRun s s
  more :
      {t u : System} {r : Result}
      → UserRun s t
      → RunsUser t.core_state
      → cycle t ≡ some (r, u)
      → UserRun s u

-- After such a run.
pub record Confined (s u : System) : Type 0 where
  pub bounds : IsSystem u
  pub contained : Contained s.core_state u.core_state

Guards-trans :
    {g c : ℕ → ℕ} {t u : State} → Guards g c t → Guards t.gpr_super t.ctl u → Guards g c u
Guards-trans a b = record {
  same_super = b.same_super ∙ a.same_super;
  protected = λ k p. b.protected k p ∙ a.protected k p;
}

Entered-trans : {g c : ℕ → ℕ} {t : State} (u : State) → Guards g c t → Entered t.ctl u → Entered c u
Entered-trans u a (mode, k, handler, at_handler) =
    (mode, k, handler, at_handler ∙ a.protected k (inl handler))

Contained-trans : (s t u : State) → Contained s t → Contained t u → Contained s u
Contained-trans s t u (a, _) (b, inl runs) = (Guards-trans a b, inl runs)
Contained-trans s t u (a, _) (b, inr entered) = (Guards-trans a b, inr (Entered-trans u a entered))

-- From a system in user mode within its bounds, any number of cycles of the whole simulator,
-- until the core enters a handler, leaves the supervisor's registers and the protected control
-- registers as they were at the start, the core in user mode or in supervisor mode at an
-- address that a handler register held at the start, and the system within its bounds.
pub UserRun-Confined :
    {s u : System} → IsSystem s → RunsUser s.core_state → UserRun s u → Confined s u
UserRun-Confined h r begin = record {
  bounds = h;
  contained = (record { same_super = refl; protected = λ k p. refl }, inl r);
}
UserRun-Confined {s} h starts (more {t} {u} {r} run user e) =
    let before = UserRun-Confined h starts run in
    let after : CoreContained t.core_state (some (r, u)) =
      (rw e at (system_cycle-Contained t before.bounds.core before.bounds.output user)) in
    record {
      bounds = (rw e at (cycle-IsSystem t before.bounds));
      contained = Contained-trans s.core_state t.core_state u.core_state before.contained after;
    }
