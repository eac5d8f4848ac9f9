-- ===== src/Core/Status/Nesting.antt =====
-- Entering and leaving a trap, as the handler sees the status register.
use cn.Common.{ℕ, ◌≡◌, arith}
use cn.Common.Words.{IsWord}
use cn.Core.Status.{
  get_swiarg, get_umsave, get_ll, get_rumode, get_gie, get_um, status_trap, status_rfi,
}
use cn.Core.Status.Fields.{
  get_swiarg_lem, get_umsave_lem, get_ll_lem, get_rumode_lem, get_gie_lem, get_um_lem,
  status_trap_lem, status_rfi_lem,
}

-- Entering a trap puts the processor into supervisor mode with interrupts off and the load link
-- cleared, moves the old mode into `rumode` and the old `rumode` into `umsave`, and keeps the
-- argument of the last software interrupt.
pub status_trap_fields :
    (stat : ℕ)
    → IsWord stat
    → let t = status_trap stat in
      (get_um t ≡ 0)
      × (get_gie t ≡ 0)
      × (get_ll t ≡ 0)
      × (get_rumode t ≡ get_um stat)
      × (get_umsave t ≡ get_rumode stat)
      × (get_swiarg t ≡ get_swiarg stat)
status_trap_fields stat h =
    let t = status_trap stat in
    omega (
      arith,
      status_trap_lem stat h,
      get_um_lem t,
      get_gie_lem t,
      get_ll_lem t,
      get_rumode_lem t,
      get_umsave_lem t,
      get_swiarg_lem t,
      get_um_lem stat,
      get_rumode_lem stat,
      get_swiarg_lem stat,
    )

-- Returning from a trap right after entering it gives back the mode and the return mode of
-- before, with the load link cleared and interrupts on.
pub status_rfi-status_trap :
    (stat : ℕ)
    → IsWord stat
    → let r = status_rfi (status_trap stat) in
      (get_um r ≡ get_um stat)
      × (get_rumode r ≡ get_rumode stat)
      × (get_swiarg r ≡ get_swiarg stat)
      × (get_ll r ≡ 0)
      × (get_gie r ≡ 1)
status_rfi-status_trap stat h =
    let t = status_trap stat in
    let r = status_rfi t in
    let trap_lem = status_trap_lem stat h in
    omega (
      arith,
      trap_lem,
      status_rfi_lem t (omega (arith, trap_lem)),
      get_um_lem r,
      get_gie_lem r,
      get_ll_lem r,
      get_rumode_lem r,
      get_swiarg_lem r,
      get_um_lem stat,
      get_rumode_lem stat,
      get_swiarg_lem stat,
    )
