-- ===== src/Common/Bits.antt =====
-- `&`, `|` and `^` digit by digit, and what they do to quotients and remainders by powers of two.
use Prim.Native.Nat.{ℕ, zero, suc, ◌+◌, ◌*◌, ◌/◌, ◌%◌, ◌^◌, ◌<◌, min, max, differ}
use Prim.Native.Nat.{bit_and, bit_or, bit_xor}
use mathlib.Core.Path.{◌≡◌, refl, ap, ◌∙◌}
use native.Mathlib.Nat.{
  mul_assoc, pow-suc, one-le-pow, mul_comm, div-div-eq-div-mul, div-one, div-add-mod, mod-lt,
  mod-eq_of_lt, mul-add-mod_self_left,
}
use native.Mathlib.Omega.{arith}
use cn.Common.Digits.{bit_and_step, bit_or_step, bit_xor_step, differ-zero}

-- Powers of two multiply by adding their exponents.
pub pow-add : (m k : ℕ) → 2 ^ m * 2 ^ k ≡ 2 ^ (m + k)
pow-add m zero = ground arith
pow-add m (suc k) = ground (
  arith,
  pow-add m k,
  pow-suc 2 k,
  pow-suc 2 (m + k),
  mul_assoc (2 ^ m) (2 ^ k) 2,
  ap (λ (t : ℕ). 2 ^ t) add_suc,
)
  where
    add_suc : m + suc k ≡ suc (m + k)
    add_suc = omega arith

pub div-pow-suc : (a k : ℕ) → a / 2 ^ suc k ≡ a / 2 / 2 ^ k
div-pow-suc a k = omega (
  arith,
  div-div-eq-div-mul a 2 (2 ^ k),
  pow-suc 2 k,
  ap (λ (t : ℕ). a / t) (mul_comm (2 ^ k) 2),
  ap (λ (t : ℕ). a / t) (pow-suc 2 k),
)

pub mod-pow-suc : (a k : ℕ) → a % 2 ^ suc k ≡ a / 2 % 2 ^ k * 2 + a % 2
mod-pow-suc a k = ground (
  arith,
  pow-suc 2 k,
  one-le-pow k 2,
  div-add-mod (a / 2) (2 ^ k),
  mul-add-mod_self_left (2 ^ suc k) (a / 2 / 2 ^ k) (a / 2 % 2 ^ k * 2 + a % 2),
  mod-eq_of_lt {n = a / 2 % 2 ^ k * 2 + a % 2} {m = 2 ^ suc k},
  mod-lt (a / 2) {m = 2 ^ k},
  ap (λ (t : ℕ). t * (a / 2 / 2 ^ k)) (pow-suc 2 k),
)

module _ (op digit : ℕ → ℕ → ℕ)
    (step : (a b : ℕ) → op a b ≡ op (a / 2) (b / 2) * 2 + digit (a % 2) (b % 2))
    (small : (a b : ℕ) → a < 2 → b < 2 → digit a b < 2) (zeros : op 0 0 ≡ 0) where
  -- Quotients by powers of two pass through a bitwise operation.
  op-div : (k a b : ℕ) → op a b / 2 ^ k ≡ op (a / 2 ^ k) (b / 2 ^ k)
  op-div zero a b = rw (div-one, div-one, div-one)
  op-div (suc k) a b =
      rw (div-pow-suc (op a b) k, div-pow-suc a k, div-pow-suc b k)
        (ap (λ (t : ℕ). t / 2 ^ k) half ∙ op-div k (a / 2) (b / 2))
    where
      half : op a b / 2 ≡ op (a / 2) (b / 2)
      half = omega (arith, step a b, small (a % 2) (b % 2) (omega arith) (omega arith))

  -- So do remainders.
  op-mod : (k a b : ℕ) → op a b % 2 ^ k ≡ op (a % 2 ^ k) (b % 2 ^ k)
  op-mod zero a b = ground (arith, zeros)
  op-mod (suc k) a b =
      rw (mod-pow-suc (op a b) k, mod-pow-suc a k, mod-pow-suc b k)
        (ground (
          arith,
          step a b,
          small (a % 2) (b % 2),
          op-mod k (a / 2) (b / 2),
          step (a / 2 % 2 ^ k * 2 + a % 2) (b / 2 % 2 ^ k * 2 + b % 2),
        ))

  op-bit : (k a b : ℕ) → op a b / 2 ^ k % 2 ≡ digit (a / 2 ^ k % 2) (b / 2 ^ k % 2)
  op-bit k a b = omega (
    arith,
    op-div k a b,
    step (a / 2 ^ k) (b / 2 ^ k),
    small (a / 2 ^ k % 2) (b / 2 ^ k % 2) (omega arith) (omega arith),
  )

  op-lt : (k a b : ℕ) → a < 2 ^ k → b < 2 ^ k → op a b < 2 ^ k
  op-lt k a b ha hb =
      ground (arith, op-mod k a b, mod-eq_of_lt ha, mod-eq_of_lt hb, mod-lt (op a b) {m = 2 ^ k})

min-lt-two : (a b : ℕ) → a < 2 → b < 2 → min a b < 2
min-lt-two a b ha hb = omega arith

max-lt-two : (a b : ℕ) → a < 2 → b < 2 → max a b < 2
max-lt-two a b ha hb = omega arith

differ-lt-two : (a b : ℕ) → a < 2 → b < 2 → differ a b < 2
differ-lt-two zero b ha hb = rw (differ-zero b hb) hb
differ-lt-two (suc zero) zero ha hb = omega arith
differ-lt-two (suc zero) (suc zero) ha hb = omega arith
differ-lt-two (suc zero) (suc (suc b)) ha hb = absurd (omega arith)
differ-lt-two (suc (suc a)) b ha hb = absurd (omega arith)

pub bit_and-div : (k a b : ℕ) → bit_and a b / 2 ^ k ≡ bit_and (a / 2 ^ k) (b / 2 ^ k)
bit_and-div = op-div bit_and min bit_and_step min-lt-two refl

pub bit_and-mod : (k a b : ℕ) → bit_and a b % 2 ^ k ≡ bit_and (a % 2 ^ k) (b % 2 ^ k)
bit_and-mod = op-mod bit_and min bit_and_step min-lt-two refl

pub bit_and-lt : (k a b : ℕ) → a < 2 ^ k → b < 2 ^ k → bit_and a b < 2 ^ k
bit_and-lt = op-lt bit_and min bit_and_step min-lt-two refl

pub bit_and-bit : (k a b : ℕ) → bit_and a b / 2 ^ k % 2 ≡ min (a / 2 ^ k % 2) (b / 2 ^ k % 2)
bit_and-bit = op-bit bit_and min bit_and_step min-lt-two refl

pub bit_or-div : (k a b : ℕ) → bit_or a b / 2 ^ k ≡ bit_or (a / 2 ^ k) (b / 2 ^ k)
bit_or-div = op-div bit_or max bit_or_step max-lt-two refl

pub bit_or-mod : (k a b : ℕ) → bit_or a b % 2 ^ k ≡ bit_or (a % 2 ^ k) (b % 2 ^ k)
bit_or-mod = op-mod bit_or max bit_or_step max-lt-two refl

pub bit_or-lt : (k a b : ℕ) → a < 2 ^ k → b < 2 ^ k → bit_or a b < 2 ^ k
bit_or-lt = op-lt bit_or max bit_or_step max-lt-two refl

pub bit_or-bit : (k a b : ℕ) → bit_or a b / 2 ^ k % 2 ≡ max (a / 2 ^ k % 2) (b / 2 ^ k % 2)
bit_or-bit = op-bit bit_or max bit_or_step max-lt-two refl

pub bit_xor-lt : (k a b : ℕ) → a < 2 ^ k → b < 2 ^ k → bit_xor a b < 2 ^ k
bit_xor-lt = op-lt bit_xor differ bit_xor_step differ-lt-two refl
