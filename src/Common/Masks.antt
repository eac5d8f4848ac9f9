-- ===== src/Common/Masks.antt =====
-- Masks and fields: what `&` and `|` with words of a known form are in arithmetic.
use Prim.Native.Nat.{
  ℕ, zero, suc, ◌+◌, ◌-◌, ◌*◌, ◌/◌, ◌%◌, ◌^◌, ◌≤◌, ◌<◌, bit_and, bit_or, bit_and-bitwise,
  bit_or-bitwise,
}
use mathlib.Core.Path.{◌≡◌, refl, ap}
use native.Mathlib.Nat.{
  le_refl, pow-suc, one-le-pow, mul_comm, div-add-mod, mod-eq_of_lt, mul-div_cancel, div-eq_of_lt,
  mul-mod_left,
}
use native.Mathlib.Omega.{arith}
use cn.Common.Digits.{bit_and_step, bit_or_step}
use cn.Common.Bits.{mod-pow-suc, bit_and-div, bit_and-mod, bit_or-div, bit_or-mod}

-- Neutral and absorbing operands.
pub bit_or-zero : (n a : ℕ) → a ≤ n → bit_or a 0 ≡ a
bit_or-zero n zero h = refl
bit_or-zero zero (suc a) h = absurd (omega arith)
bit_or-zero (suc n) (suc a) h =
    omega (arith, bit_or_step (suc a) 0, bit_or-zero n (suc a / 2) (omega arith))

pub bit_and-zero : (n a : ℕ) → a ≤ n → bit_and a 0 ≡ 0
bit_and-zero n zero h = refl
bit_and-zero zero (suc a) h = absurd (omega arith)
bit_and-zero (suc n) (suc a) h =
    omega (arith, bit_and_step (suc a) 0, bit_and-zero n (suc a / 2) (omega arith))

pub zero-bit_and : (b : ℕ) → bit_and 0 b ≡ 0
zero-bit_and b = simp bit_and-bitwise

pub zero-bit_or : (b : ℕ) → bit_or 0 b ≡ b
zero-bit_or b = simp bit_or-bitwise

-- A mask of `k` low bits is the remainder by `2 ^ k`.
pub bit_and_mask : (k a : ℕ) → bit_and a (2 ^ k - 1) ≡ a % 2 ^ k
bit_and_mask zero a = omega (arith, bit_and-zero a a (le_refl a))
bit_and_mask (suc k) a = ground (
  arith,
  bit_and_step a (2 ^ suc k - 1),
  pow-suc 2 k,
  one-le-pow k 2,
  bit_and_mask k (a / 2),
  mod-pow-suc a k,
)

-- `(q << k) | r` is a sum when `r` fits in `k` bits.
pub bit_or_fields : (k q r : ℕ) → r < 2 ^ k → bit_or (q * 2 ^ k) r ≡ q * 2 ^ k + r
bit_or_fields k q r h = ground (
  arith,
  one-le-pow k 2,
  div-add-mod (bit_or (q * 2 ^ k) r) (2 ^ k),
  bit_or-div k (q * 2 ^ k) r,
  bit_or-mod k (q * 2 ^ k) r,
  mul-div_cancel q {n = 2 ^ k},
  div-eq_of_lt h,
  mod-eq_of_lt h,
  mul-mod_left q (2 ^ k),
  zero-bit_or r,
  bit_or-zero q q (le_refl q),
  mul_comm (2 ^ k) q,
)

-- The same with the fields the other way round.
pub fields_bit_or : (k q r : ℕ) → r < 2 ^ k → bit_or r (q * 2 ^ k) ≡ q * 2 ^ k + r
fields_bit_or k q r h = ground (
  arith,
  one-le-pow k 2,
  div-add-mod (bit_or r (q * 2 ^ k)) (2 ^ k),
  bit_or-div k r (q * 2 ^ k),
  bit_or-mod k r (q * 2 ^ k),
  mul-div_cancel q {n = 2 ^ k},
  div-eq_of_lt h,
  mod-eq_of_lt h,
  mul-mod_left q (2 ^ k),
  bit_or-zero r r (le_refl r),
  zero-bit_or q,
  mul_comm (2 ^ k) q,
)

-- Setting a digit that is 0.
pub bit_or_digit : (k y b : ℕ) → y / 2 ^ k % 2 ≡ 0 → b < 2 → bit_or y (b * 2 ^ k) ≡ y + b * 2 ^ k
bit_or_digit k y b clear h = ground (
  arith,
  ap (λ (t : ℕ). 2 ^ k * t) high,
  low,
  div-add-mod y (2 ^ k),
  div-add-mod (bit_or y (b * 2 ^ k)) (2 ^ k),
  mul_comm (2 ^ k) b,
)
  where
    high : bit_or y (b * 2 ^ k) / 2 ^ k ≡ y / 2 ^ k + b
    high = ground (
      arith,
      one-le-pow k 2,
      bit_or-div k y (b * 2 ^ k),
      mul-div_cancel b {n = 2 ^ k},
      bit_or_fields 1 (y / 2 ^ k / 2) b h,
    )

    low : bit_or y (b * 2 ^ k) % 2 ^ k ≡ y % 2 ^ k
    low = ground (
      arith,
      bit_or-mod k y (b * 2 ^ k),
      mul-mod_left b (2 ^ k),
      bit_or-zero (y % 2 ^ k) (y % 2 ^ k) (le_refl _),
    )

-- A mask with one hole, at digit `k`, clears that digit.
pub bit_and_hole :
    (k m mask s : ℕ)
    → mask / 2 ^ suc k ≡ 2 ^ m - 1
    → mask % 2 ^ suc k ≡ 2 ^ k - 1
    → s / 2 ^ suc k < 2 ^ m
    → bit_and s mask ≡ s / 2 ^ suc k * 2 ^ suc k + s % 2 ^ suc k % 2 ^ k
bit_and_hole k m mask s above below h = ground (
  arith,
  bit_and-div (suc k) s mask,
  bit_and-mod (suc k) s mask,
  bit_and_mask m (s / 2 ^ suc k),
  bit_and_mask k (s % 2 ^ suc k),
  mod-eq_of_lt h,
  div-add-mod (bit_and s mask) (2 ^ suc k),
  mul_comm (2 ^ suc k) (s / 2 ^ suc k),
)
