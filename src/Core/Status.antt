-- ===== src/Core/Status.antt =====
-- The STATUS_GET_* and STATUS_SET_* macros of sim_core.h, and `status_trap` and `status_rfi` of
-- sim_core.c. A set keeps within 16 bits, so storing it into the `uint16_t` cuts nothing off.
pub mod Fields
pub mod Nesting
use cn.Common.{ℕ, bit_and, bit_or}
use cn.Common.Words.{◌<<<◌, ◌>>>◌}

unfoldable pub get_swiarg : ℕ → ℕ
get_swiarg stat = bit_and stat 0x7FF

unfoldable pub set_swiarg : ℕ → ℕ → ℕ
set_swiarg stat val = bit_or (bit_and stat 0xF800) (bit_and val 0x7FF)

unfoldable pub get_umsave : ℕ → ℕ
get_umsave stat = bit_and (stat >>> 11) 0x1

unfoldable pub set_umsave : ℕ → ℕ → ℕ
set_umsave stat val = bit_or (bit_and stat 0xF7FF) (bit_and val 0x1 <<< 11)

unfoldable pub get_ll : ℕ → ℕ
get_ll stat = bit_and (stat >>> 12) 0x1

unfoldable pub set_ll : ℕ → ℕ → ℕ
set_ll stat val = bit_or (bit_and stat 0xEFFF) (bit_and val 0x1 <<< 12)

unfoldable pub get_rumode : ℕ → ℕ
get_rumode stat = bit_and (stat >>> 13) 0x1

unfoldable pub set_rumode : ℕ → ℕ → ℕ
set_rumode stat val = bit_or (bit_and stat 0xDFFF) (bit_and val 0x1 <<< 13)

unfoldable pub get_gie : ℕ → ℕ
get_gie stat = bit_and (stat >>> 14) 0x1

unfoldable pub set_gie : ℕ → ℕ → ℕ
set_gie stat val = bit_or (bit_and stat 0xBFFF) (bit_and val 0x1 <<< 14)

unfoldable pub get_um : ℕ → ℕ
get_um stat = bit_and (stat >>> 15) 0x1

unfoldable pub set_um : ℕ → ℕ → ℕ
set_um stat val = bit_or (bit_and stat 0x7FFF) (bit_and val 0x1 <<< 15)

-- Entry into a trap: the mode goes to `rumode`, and `rumode` to `umsave`.
unfoldable pub status_trap : ℕ → ℕ
status_trap stat =
    let a = set_ll stat 0 in
    let b = set_umsave a (get_rumode a) in
    let c = set_rumode b (get_um b) in let d = set_um c 0 in set_gie d 0

-- Return from a trap.
unfoldable pub status_rfi : ℕ → ℕ
status_rfi stat =
    let a = set_ll stat 0 in
    let b = set_um a (get_rumode a) in let c = set_rumode b (get_umsave b) in set_gie c 1
