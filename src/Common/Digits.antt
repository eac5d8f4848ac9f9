-- ===== src/Common/Digits.antt =====
-- The native `&`, `|` and `^` give the lowest binary digit of their operands to a table and go on
-- with the halves.
use Prim.Native.Nat.{ℕ, zero, suc, ◌+◌, ◌*◌, ◌/◌, ◌%◌, ◌≤◌, ◌<◌, min, max, differ}
use Prim.Native.Nat.{bit_and, bit_or, bit_xor, digits, bitwise}
use Prim.Native.Nat.{bit_and-bitwise, bit_or-bitwise, bit_xor-bitwise}
use mathlib.Core.Path.{◌≡◌, refl, ap, ◌∙◌, sym}
use native.Mathlib.Omega.{arith}

module _ (rest : ℕ → ℕ) (table : ℕ → ℕ → ℕ) where
  no_digits : (fuel y : ℕ) → digits rest table fuel 0 y ≡ rest y
  no_digits zero y = refl
  no_digits (suc fuel) y = refl

  -- Once there is as much fuel as the number, all of its digits are read.
  settled :
      (total fuel x y : ℕ)
      → fuel ≤ total
      → x ≤ fuel
      → digits rest table total x y ≡ digits rest table fuel x y
  settled total fuel zero y more enough = no_digits total y ∙ sym (no_digits fuel y)
  settled (suc total) (suc fuel) (suc x) y more enough =
      rw (settled total fuel (suc x / 2) (y / 2) (omega arith) (omega arith))
  settled zero fuel (suc x) y more enough = absurd (omega arith)
  settled total zero (suc x) y more enough = absurd (omega arith)

  halves :
      (x y : ℕ)
      → bitwise rest table (suc x) y
        ≡ bitwise rest table (suc x / 2) (y / 2) * 2 + table (suc x % 2) (y % 2)
  halves x y =
      ap (λ (t : ℕ). t * 2 + table (suc x % 2) (y % 2))
        (settled x (suc x / 2) (suc x / 2) (y / 2) (omega arith) (omega arith))

pub bit_and_step : (x y : ℕ) → bit_and x y ≡ bit_and (x / 2) (y / 2) * 2 + min (x % 2) (y % 2)
bit_and_step (suc x) y = simp bit_and-bitwise (halves (λ t. 0) min x y)
bit_and_step zero y = simp bit_and-bitwise (omega arith)

pub differ-zero : (y : ℕ) → y < 2 → differ 0 y ≡ y
differ-zero zero h = refl
differ-zero (suc zero) h = refl
differ-zero (suc (suc y)) h = absurd (omega arith)

pub bit_xor_step : (x y : ℕ) → bit_xor x y ≡ bit_xor (x / 2) (y / 2) * 2 + differ (x % 2) (y % 2)
bit_xor_step (suc x) y = simp bit_xor-bitwise (halves (λ t. t) differ x y)
bit_xor_step zero y = simp bit_xor-bitwise (omega (arith, differ-zero (y % 2) (omega arith)))

pub bit_or_step : (x y : ℕ) → bit_or x y ≡ bit_or (x / 2) (y / 2) * 2 + max (x % 2) (y % 2)
bit_or_step (suc x) y = simp bit_or-bitwise (halves (λ t. t) max x y)
bit_or_step zero y = simp bit_or-bitwise (omega arith)
