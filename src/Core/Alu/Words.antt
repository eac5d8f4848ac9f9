-- ===== src/Core/Alu/Words.antt =====
-- The result of the ALU is a 16-bit word, and is undefined exactly for an oversize shift.
use native.Mathlib.Nat.{div-le_self}
use cn.Common.{ℕ, ◌/◌, ◌*◌, ◌^◌, ◌≡◌, arith, some, bit_and}
use cn.Common.Bits.{bit_and-lt, bit_or-lt, bit_xor-lt}
use cn.Common.Masks.{bit_and_mask}
use cn.Common.Words.{IsWord, complement}
use cn.Core.Alu.{AluOp, or, nand, and, xor, shr, shra, lhswap, shl8or, sra16, alu_exec}

sra16-IsWord : (x k : ℕ) → IsWord x → IsWord (sra16 x k)
unfolding sra16
sra16-IsWord x k h = ground (arith, div-le_self x (2 ^ k), div-le_self (complement 16 x) (2 ^ k))

pub alu_exec-IsWord :
    (op : AluOp) (x y : ℕ) {r : ℕ} → IsWord x → IsWord y → alu_exec op x y ≡ some r → IsWord r
unfolding alu_exec
alu_exec-IsWord or x y hx hy e = ground (arith, bit_or-lt 16 x y hx hy)
alu_exec-IsWord nand x y hx hy e = ground (arith)
alu_exec-IsWord and x y hx hy e = ground (arith, bit_and-lt 16 x y hx hy)
alu_exec-IsWord xor x y hx hy e = ground (arith, bit_xor-lt 16 x y hx hy)
alu_exec-IsWord shr x y hx hy e = ground (arith, div-le_self x (2 ^ y))
alu_exec-IsWord shra x y hx hy e = ground (arith, sra16-IsWord x y hx)
alu_exec-IsWord lhswap x y hx hy e = ground (
  arith,
  bit_or-lt 16 (bit_and x 0xFF * 2 ^ 8) (bit_and x 0xFF00 / 2 ^ 8),
  bit_and_mask 8 x,
  bit_and-lt 16 x 0xFF00 hx,
)
alu_exec-IsWord shl8or x y hx hy e = ground (
  arith,
  bit_or-lt 16 (bit_and x 0xFF * 2 ^ 8) (bit_and y 0xFF),
  bit_and_mask 8 x,
  bit_and_mask 8 y,
)
alu_exec-IsWord _ x y hx hy e = ground arith
