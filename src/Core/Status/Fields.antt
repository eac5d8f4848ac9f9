-- ===== src/Core/Status/Fields.antt =====
-- The status macros as arithmetic on the fields of the word.
use cn.Common.{ℕ, ◌+◌, ◌-◌, ◌*◌, ◌/◌, ◌%◌, ◌^◌, ◌<◌, ◌≡◌, refl, arith, bit_and, bit_or, suc}
use cn.Common.Bits.{bit_and-div, bit_and-mod}
use cn.Common.Masks.{bit_and_mask, bit_and_hole, bit_or_digit, bit_and-zero, bit_or_fields}
use native.Mathlib.Nat.{le_refl}
use mathlib.Core.Path.{ap}
use cn.Common.Words.{IsWord}
use cn.Core.Status.{
  get_swiarg, set_swiarg, status_trap, status_rfi, get_umsave, get_ll, get_rumode, get_gie, get_um,
  set_umsave, set_ll, set_rumode, set_gie, set_um,
}

-- `stat` with digit `k` cleared and then set to the last digit of `val`.
put_digit :
    (k m mask stat val : ℕ)
    → mask / 2 ^ suc k ≡ 2 ^ m - 1
    → mask % 2 ^ suc k ≡ 2 ^ k - 1
    → bit_and stat mask / 2 ^ k % 2 ≡ 0
    → stat / 2 ^ suc k < 2 ^ m
    → bit_or (bit_and stat mask) (bit_and val 1 * 2 ^ k)
      ≡ stat / 2 ^ suc k * 2 ^ suc k + val % 2 * 2 ^ k + stat % 2 ^ suc k % 2 ^ k
put_digit k m mask stat val above below clear h = ground (
  arith,
  bit_and_hole k m mask stat above below h,
  bit_and_mask 1 val,
  bit_or_digit k (bit_and stat mask) (val % 2) clear,
)

pub set_um_lem :
    (stat val : ℕ)
    → IsWord stat
    → set_um stat val ≡ stat / 2 ^ 16 * 2 ^ 16 + val % 2 * 2 ^ 15 + stat % 2 ^ 15
unfolding set_um
set_um_lem stat val h =
    let hole = bit_and_hole 15 0 0x7FFF stat refl refl (omega arith) in
    omega (arith, put_digit 15 0 0x7FFF stat val refl refl (omega (arith, hole)) (omega arith))

pub get_um_lem : (stat : ℕ) → get_um stat ≡ stat / 2 ^ 15 % 2
unfolding get_um
get_um_lem stat = bit_and_mask 1 (stat / 2 ^ 15)

pub set_gie_lem :
    (stat val : ℕ)
    → IsWord stat
    → set_gie stat val ≡ stat / 2 ^ 15 * 2 ^ 15 + val % 2 * 2 ^ 14 + stat % 2 ^ 14
unfolding set_gie
set_gie_lem stat val h =
    let hole = bit_and_hole 14 1 0xBFFF stat refl refl (omega arith) in
    omega (arith, put_digit 14 1 0xBFFF stat val refl refl (omega (arith, hole)) (omega arith))

pub get_gie_lem : (stat : ℕ) → get_gie stat ≡ stat / 2 ^ 14 % 2
unfolding get_gie
get_gie_lem stat = bit_and_mask 1 (stat / 2 ^ 14)

pub set_rumode_lem :
    (stat val : ℕ)
    → IsWord stat
    → set_rumode stat val ≡ stat / 2 ^ 14 * 2 ^ 14 + val % 2 * 2 ^ 13 + stat % 2 ^ 13
unfolding set_rumode
set_rumode_lem stat val h =
    let hole = bit_and_hole 13 2 0xDFFF stat refl refl (omega arith) in
    omega (arith, put_digit 13 2 0xDFFF stat val refl refl (omega (arith, hole)) (omega arith))

pub get_rumode_lem : (stat : ℕ) → get_rumode stat ≡ stat / 2 ^ 13 % 2
unfolding get_rumode
get_rumode_lem stat = bit_and_mask 1 (stat / 2 ^ 13)

pub set_ll_lem :
    (stat val : ℕ)
    → IsWord stat
    → set_ll stat val ≡ stat / 2 ^ 13 * 2 ^ 13 + val % 2 * 2 ^ 12 + stat % 2 ^ 12
unfolding set_ll
set_ll_lem stat val h =
    let hole = bit_and_hole 12 3 0xEFFF stat refl refl (omega arith) in
    omega (arith, put_digit 12 3 0xEFFF stat val refl refl (omega (arith, hole)) (omega arith))

pub get_ll_lem : (stat : ℕ) → get_ll stat ≡ stat / 2 ^ 12 % 2
unfolding get_ll
get_ll_lem stat = bit_and_mask 1 (stat / 2 ^ 12)

pub set_umsave_lem :
    (stat val : ℕ)
    → IsWord stat
    → set_umsave stat val ≡ stat / 2 ^ 12 * 2 ^ 12 + val % 2 * 2 ^ 11 + stat % 2 ^ 11
unfolding set_umsave
set_umsave_lem stat val h =
    let hole = bit_and_hole 11 4 0xF7FF stat refl refl (omega arith) in
    omega (arith, put_digit 11 4 0xF7FF stat val refl refl (omega (arith, hole)) (omega arith))

pub get_umsave_lem : (stat : ℕ) → get_umsave stat ≡ stat / 2 ^ 11 % 2
unfolding get_umsave
get_umsave_lem stat = bit_and_mask 1 (stat / 2 ^ 11)

pub get_swiarg_lem : (stat : ℕ) → get_swiarg stat ≡ stat % 2 ^ 11
unfolding get_swiarg
get_swiarg_lem stat = bit_and_mask 11 stat

pub set_swiarg_lem :
    (stat val : ℕ) → IsWord stat → set_swiarg stat val ≡ stat / 2 ^ 11 * 2 ^ 11 + val % 2 ^ 11
unfolding set_swiarg
set_swiarg_lem stat val h = omega (
  arith,
  bit_and-div 11 stat 0xF800,
  bit_and-mod 11 stat 0xF800,
  bit_and_mask 5 (stat / 2 ^ 11),
  bit_and-zero (stat % 2 ^ 11) (stat % 2 ^ 11) (le_refl _),
  bit_and_mask 11 val,
  bit_or_fields 11 (stat / 2 ^ 11) (val % 2 ^ 11) (omega arith),
  ap (λ (t : ℕ). bit_or t (bit_and val 0x7FF)) high,
  ap (λ (t : ℕ). bit_or (stat / 2 ^ 11 * 2 ^ 11) t) (bit_and_mask 11 val),
)
  where
    high : bit_and stat 0xF800 ≡ stat / 2 ^ 11 * 2 ^ 11
    high = omega (
      arith,
      bit_and-div 11 stat 0xF800,
      bit_and-mod 11 stat 0xF800,
      bit_and_mask 5 (stat / 2 ^ 11),
      bit_and-zero (stat % 2 ^ 11) (stat % 2 ^ 11) (le_refl _),
    )

-- Every word operation on the status register stays within 16 bits.
pub status_trap_lem :
    (stat : ℕ)
    → IsWord stat
    → status_trap stat ≡ stat / 2 ^ 15 % 2 * 2 ^ 13 + stat / 2 ^ 13 % 2 * 2 ^ 11 + stat % 2 ^ 11
unfolding status_trap
status_trap_lem stat h =
    let a = set_ll stat 0 in
    let pa = set_ll_lem stat 0 h in
    let b = set_umsave a (get_rumode a) in
    let pb = set_umsave_lem a (get_rumode a) (omega (arith, pa)) in
    let c = set_rumode b (get_um b) in
    let pc = set_rumode_lem b (get_um b) (omega (arith, pa, pb)) in
    let d = set_um c 0 in
    let pd = set_um_lem c 0 (omega (arith, pa, pb, pc)) in
    let pe = set_gie_lem d 0 (omega (arith, pa, pb, pc, pd)) in
    omega (arith, pa, pb, pc, pd, pe, get_rumode_lem a, get_um_lem b)

pub status_rfi_lem :
    (stat : ℕ)
    → IsWord stat
    → status_rfi stat
      ≡ stat / 2 ^ 13 % 2 * 2 ^ 15
        + 2 ^ 14
        + stat / 2 ^ 11 % 2 * 2 ^ 13
        + stat / 2 ^ 11 % 2 * 2 ^ 11
        + stat % 2 ^ 11
unfolding status_rfi
status_rfi_lem stat h =
    let a = set_ll stat 0 in
    let pa = set_ll_lem stat 0 h in
    let b = set_um a (get_rumode a) in
    let pb = set_um_lem a (get_rumode a) (omega (arith, pa)) in
    let c = set_rumode b (get_umsave b) in
    let pc = set_rumode_lem b (get_umsave b) (omega (arith, pa, pb)) in
    let pe = set_gie_lem c 1 (omega (arith, pa, pb, pc)) in
    omega (arith, pa, pb, pc, pe, get_rumode_lem a, get_umsave_lem b)
