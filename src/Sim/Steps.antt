-- ===== src/Sim/Steps.antt =====
-- The stepping loop of the simulator.
use cn.Common.{◌>>=◌, ℕ, zero, suc, ◌+◌, Option, none, some, ◌≡◌, refl, arith}
use cn.Core.{Result, success, failure}
use cn.Sim.{System, cycle, steps}

-- `n` more cycles, unless the simulator has stopped.
abbrev pub resume : ℕ → Result × System → Option (Result × System)
resume n (success, s) = steps n s
resume n (failure, s) = some (failure, s)

-- What the loop does after a cycle, with `rest` for the cycles that are left.
abbrev then_steps : (System → Option (Result × System)) → Result × System → Option (Result × System)
then_steps rest r = elim r.0 [ success ↦ rest r.1 | failure ↦ some (failure, r.1) ]

cycle-resume :
    (m n : ℕ) (r : Option (Result × System))
    → ((s : System) → steps (m + n) s ≡ (steps m s >>= resume n))
    → (r >>= then_steps (steps (m + n))) ≡ ((r >>= then_steps (steps m)) >>= resume n)
cycle-resume m n none h = refl
cycle-resume m n (some (success, s)) h = h s
cycle-resume m n (some (failure, s)) h = refl

-- Stepping `m + n` cycles is stepping `m` cycles and then, unless one of them has failed or is
-- undefined in C, `n` cycles more.
pub steps-add : (m n : ℕ) (s : System) → steps (m + n) s ≡ (steps m s >>= resume n)
unfolding steps
steps-add zero n s = let none_first : 0 + n ≡ n = omega arith in rw none_first refl
steps-add (suc m) n s =
    let one_first : suc m + n ≡ suc (m + n) = omega arith in
    rw one_first (cycle-resume m n (cycle s) (steps-add m n))
