-- ===== src/Core/Interrupts.antt =====
-- Which interrupt `check_pending_interrupt` of sim_core.c reports.
use cn.Common.{
  min, Bool, refl, ◌&&◌, ◌/◌, ◌%◌, ◌^◌, ◌*◌, ◌↔◌, bit_and, ℕ, zero, suc, ◌+◌, ◌<◌, ◌≤◌, ◌≡◌, arith,
  true, false, Option, none, some, Bool-cases, inl, inr,
}
use native.Mathlib.Decide.{dec_lt}
use native.Mathlib.Nat.{le_refl, one-le-pow, pow-suc}
use cn.Common.Bits.{div-pow-suc}
use cn.Common.Digits.{bit_and_step}
use cn.Common.Masks.{bit_and-zero}
use cn.Core.{State, Input, ienable, status}
use cn.Core.Status.Fields.{get_gie_lem}
use cn.Core.Regs.{is_set, test_bit, interrupt_enabled, check_from, check_pending_interrupt}

-- The result of the loop over the interrupts from `lo` up to `hi`.
abbrev IsFirst : State → Input → ℕ → ℕ → Option ℕ → Type 0
IsFirst s input lo hi none = (j : ℕ) → lo ≤ j → j < hi → interrupt_enabled s input j ≡ false
IsFirst s input lo hi (some i) =
    (lo ≤ i)
    × (i < hi)
    × (interrupt_enabled s input i ≡ true)
    × ((j : ℕ) → lo ≤ j → j < i → interrupt_enabled s input j ≡ false)

first_or : (lo j : ℕ) (P : ℕ → Type 0) → P lo → lo ≤ j → (suc lo ≤ j → P j) → P j
first_or lo j P at_lo ge above = elim (dec_lt lo j) [
  | yes lt ↦ above lt
  | no le ↦ let e : j ≡ lo = omega arith in rw e at_lo
]

widen :
    (s : State) (input : Input) (lo hi : ℕ) (r : Option ℕ)
    → interrupt_enabled s input lo ≡ false
    → IsFirst s input (suc lo) hi r
    → IsFirst s input lo hi r
widen s input lo hi none off h =
    λ j ge lt. first_or lo j (λ k. interrupt_enabled s input k ≡ false) off ge (λ le. h j le lt)
widen s input lo hi (some i) off h =
    let others = h.3 in
    (
      omega arith,
      h.1,
      h.2,
      λ j ge lt.
          first_or lo j (λ k. interrupt_enabled s input k ≡ false) off ge (λ le. others j le lt),
    )

check_from-IsFirst :
    (s : State) (input : Input) (left i : ℕ)
    → IsFirst s input i (i + left) (check_from s input left i)
unfolding check_from
check_from-IsFirst s input zero i = λ j ge lt. absurd (omega arith)
check_from-IsFirst s input (suc left) i = elim (Bool-cases (interrupt_enabled s input i)) [
  | inl on ↦ rw on (omega arith, omega arith, on, λ j ge lt. absurd (omega arith))
  | inr off ↦ rw off (widen s input i _ _ off (rw next (check_from-IsFirst s input left (suc i))))
]
  where
    next : i + suc left ≡ suc i + left
    next = omega arith

-- Interrupt `i` is raised: its pin is set, its bit in `ienable` is set, and interrupts are on.
abbrev pub IsRaised : State → Input → ℕ → Type 0
IsRaised s input i =
    (input.exint_sig i ≡ true) × (s.ctl ienable / 2 ^ i % 2 ≡ 1) × (s.ctl status / 2 ^ 14 % 2 ≡ 1)

-- The result is the lowest number below 8 of an interrupt that is raised, if there is one.
abbrev pub IsLowest : State → Input → Option ℕ → Type 0
IsLowest s input none = (j : ℕ) → j < 8 → IsRaised s input j → ⊥
IsLowest s input (some i) =
    (i < 8) × IsRaised s input i × ((j : ℕ) → j < i → IsRaised s input j → ⊥)

digit_times : (t p m : ℕ) → t < 2 → t * p * 2 + min m 0 ≡ t * (p * 2)
digit_times zero p m h = omega arith
digit_times (suc zero) p m h = omega arith
digit_times (suc (suc t)) p m h = absurd (omega arith)

bit_and_bit : (i x : ℕ) → bit_and x (2 ^ i) ≡ x / 2 ^ i % 2 * 2 ^ i
bit_and_bit zero x = omega (arith, bit_and_step x 1, bit_and-zero (x / 2) (x / 2) (le_refl (x / 2)))
bit_and_bit (suc i) x =
    let half : 2 ^ suc i / 2 ≡ 2 ^ i = omega (arith, pow-suc 2 i) in
    let even : 2 ^ suc i % 2 ≡ 0 = omega (arith, pow-suc 2 i) in
    rw (bit_and_step x (2 ^ suc i), half, even, bit_and_bit i (x / 2), div-pow-suc x i, pow-suc 2 i)
      (digit_times (x / 2 / 2 ^ i % 2) (2 ^ i) (x % 2) (omega arith))

digit_set : (t p : ℕ) → t < 2 → 1 ≤ p → (is_set (t * p) ≡ true) ↔ (t ≡ 1)
digit_set zero p h k = (λ e. absurd (ground (arith, e)), λ e. absurd (ground (arith, e)))
digit_set (suc zero) p h k = (λ e. refl, λ e. ground (arith, k))
digit_set (suc (suc t)) p h k = absurd (omega arith)

digit_on : (t : ℕ) → t < 2 → (is_set t ≡ true) ↔ (t ≡ 1)
digit_on t h = ground arith

bit_set : (i x : ℕ) → (test_bit x i ≡ true) ↔ (x / 2 ^ i % 2 ≡ 1)
bit_set i x =
    let once : 1 * 2 ^ i ≡ 2 ^ i = omega arith in
    rw (once, bit_and_bit i x)
      (digit_set (x / 2 ^ i % 2) (2 ^ i) (omega arith) (one-le-pow i 2 (omega arith)))

-- What the three tests of the loop say together.
and_three :
    (a b c : Bool) {P Q : Type 0}
    → (b ≡ true) ↔ P
    → (c ≡ true) ↔ Q
    → ((a && b && c) ≡ true) ↔ ((a ≡ true) × P × Q)
and_three true true true p q = (λ e. (refl, p.0 refl, q.0 refl), λ h. refl)
and_three true true false p q = (λ e. absurd (ground (arith, e)), λ (h, hp, hq). q.1 hq)
and_three true false c p q =
    (λ e. absurd (ground (arith, e)), λ (h, hp, hq). absurd (ground (arith, p.1 hp)))
and_three false b c p q = (λ e. absurd (ground (arith, e)), λ (h, hp, hq). h)

IsRaised-iff :
    (s : State) (input : Input) (i : ℕ) → (interrupt_enabled s input i ≡ true) ↔ IsRaised s input i
unfolding interrupt_enabled
IsRaised-iff s input i =
    and_three (input.exint_sig i) _ _ (bit_set i (s.ctl ienable))
      (rw (get_gie_lem (s.ctl status)) (digit_on (s.ctl status / 2 ^ 14 % 2) (omega arith)))

lowest : (s : State) (input : Input) (r : Option ℕ) → IsFirst s input 0 8 r → IsLowest s input r
lowest s input none h =
    λ j lt raised. let on = (IsRaised-iff s input j).1 raised in cc (on, h j (omega arith) lt)
lowest s input (some i) (lo, lt, on, others) = (
  lt,
  (IsRaised-iff s input i).0 on,
  λ j below raised.
      let also = (IsRaised-iff s input j).1 raised in cc (also, others j (omega arith) below),
)

-- The interrupt that is reported is the one of the lowest number among the eight whose pin is
-- set, whose bit in `ienable` is set, and that find the bit of the status set that enables
-- interrupts; when none is reported, there is no such interrupt.
pub check_pending_interrupt-IsLowest :
    (s : State) (input : Input) → IsLowest s input (check_pending_interrupt s input)
unfolding check_pending_interrupt
check_pending_interrupt-IsLowest s input =
    lowest s input (check_from s input 8 0) (check_from-IsFirst s input 8 0)
