-- ===== src/Core/Alu/Arithmetic.antt =====
-- What the arithmetic and the rotation of the ALU compute.
use native.Mathlib.Nat.{
  one-le-pow, div-add-mod, mod-lt, mod-eq_of_lt, mul_comm, mul-le-mul_right, div-lt_iff_lt-mul,
  mul-add-div_right, div-eq_of_lt, mul-add-mod_self_right,
}
use cn.Common.{
  ℕ, ◌+◌, ◌-◌, ◌/◌, ◌*◌, ◌%◌, ◌^◌, ◌≤◌, ◌<◌, ◌≡◌, arith, some, refl, ap, bit_or, ◌∙◌, if◌then◌else◌,
  ltb,
}
use cn.Common.Bits.{pow-add}
use cn.Common.Masks.{bit_and_mask, bit_or_fields}
use cn.Common.Words.{IsWord, u16}
use cn.Core.Alu.{alu_exec, add, addc, sub, subc, rot}

-- On words, `add` with `addc` is the sum to 17 bits, and `sub` with `subc` the difference with
-- its borrow: the pairs do arithmetic over several words.
pub alu_exec_carry :
    (x y : ℕ)
    → IsWord x
    → IsWord y
    → ((s c : ℕ) × (alu_exec add x y ≡ some s)
        × (alu_exec addc x y ≡ some c)
        × (x + y ≡ c * 2 ^ 16 + s)
        × IsWord s)
      × ((d b : ℕ) × (alu_exec sub x y ≡ some d)
          × (alu_exec subc x y ≡ some b)
          × (x + b * 2 ^ 16 ≡ y + d)
          × IsWord d)
unfolding alu_exec
alu_exec_carry x y hx hy = (
  (
    (x + y) % 2 ^ 16,
    if ltb 0xFFFF ((x + y) % 2 ^ 32) then 1 else 0,
    refl,
    refl,
    ground arith,
    omega arith,
  ),
  (
    (x + 2 ^ 16 - y) % 2 ^ 16,
    if ltb 0xFFFF ((x + 2 ^ 32 - y) % 2 ^ 32) then 1 else 0,
    refl,
    refl,
    ground arith,
    omega arith,
  ),
)

-- The top `k` bits of a word go round to the bottom.
pub rotated : ℕ → ℕ → ℕ
rotated x k = x % 2 ^ (16 - k) * 2 ^ k + x / 2 ^ (16 - k)

split : (k : ℕ) → k ≤ 16 → 2 ^ k * 2 ^ (16 - k) ≡ 2 ^ 16
split k h = let e : k + (16 - k) ≡ 16 = omega arith in pow-add k (16 - k) ∙ ap (λ (t : ℕ). 2 ^ t) e

top-lt : (x k : ℕ) → k ≤ 16 → IsWord x → x / 2 ^ (16 - k) < 2 ^ k
top-lt x k h hx =
    (div-lt_iff_lt-mul (one-le-pow (16 - k) 2 (omega arith))).1 (omega (arith, split k h))

-- The parts of a word at the place where a rotation cuts it.
cut :
    (x k : ℕ)
    → k ≤ 16
    → (x * 2 ^ k ≡ 2 ^ 16 * (x / 2 ^ (16 - k)) + x % 2 ^ (16 - k) * 2 ^ k)
      × (x % 2 ^ (16 - k) * 2 ^ k + 2 ^ k ≤ 2 ^ 16)
cut x k h = (
  omega (
    arith,
    ap (λ (t : ℕ). t * 2 ^ k) (div-add-mod x (2 ^ (16 - k))),
    ap (λ (t : ℕ). t * (x / 2 ^ (16 - k))) (split k h),
  ),
  omega (
    arith,
    split k h,
    mul-le-mul_right (2 ^ k) (mod-lt x {m = 2 ^ (16 - k)} (one-le-pow (16 - k) 2 (omega arith))),
  ),
)

rot-sum : (x k : ℕ) → k ≤ 16 → IsWord x → u16 (bit_or (x * 2 ^ k) (x / 2 ^ (16 - k))) ≡ rotated x k
unfolding rotated
rot-sum x k h hx =
    omega
      (arith, bit_or_fields k x (x / 2 ^ (16 - k)) (top-lt x k h hx), cut x k h, top-lt x k h hx)

rotated-rotated : (x k : ℕ) → k ≤ 16 → IsWord x → rotated (rotated x k) (16 - k) ≡ x
unfolding rotated
rotated-rotated x k h hx = rw same (
    ground (
      arith,
      mul-add-mod_self_right (x % 2 ^ (16 - k)) (2 ^ k) (x / 2 ^ (16 - k)),
      mod-eq_of_lt (top-lt x k h hx),
      mul-add-div_right {m = 2 ^ k} (one-le-pow k 2 (omega arith)) (x % 2 ^ (16 - k))
          (x / 2 ^ (16 - k)),
      div-eq_of_lt (top-lt x k h hx),
      div-add-mod x (2 ^ (16 - k)),
      mul_comm (2 ^ (16 - k)) (x / 2 ^ (16 - k)),
    ))
  where
    same : 16 - (16 - k) ≡ k
    same = omega arith

-- `rot` turns a word by the last four bits of its second operand, and turning on to sixteen
-- places gives the word back.
pub alu_exec-rot :
    (x y : ℕ)
    → IsWord x
    → let k = y % 16 in
      (alu_exec rot x y ≡ some (rotated x k)) × (rotated (rotated x k) (16 - k) ≡ x)
unfolding alu_exec rotated
alu_exec-rot x y hx =
    let k = y % 16 in
    let le : k ≤ 16 = omega arith in
    (rw (bit_and_mask 4 y, rot-sum x k le hx), rotated-rotated x k le hx)
