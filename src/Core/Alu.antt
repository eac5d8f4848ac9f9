-- ===== src/Core/Alu.antt =====
-- `alu_exec` of sim_core.c. Operands are 16-bit words that C promotes to `int`. A shift of an
-- `int` by 32 or more is undefined in C, as is a shift to the left that overflows it: `none`.
pub mod Words
pub mod Arithmetic
use cn.Common.{
  ℕ, ◌+◌, ◌-◌, ◌^◌, Option, none, some, bit_and, bit_or, bit_xor, ◌&&◌, ltb, if◌then◌else◌,
}
use cn.Common.Words.{u16, u32, complement, ◌<<<◌, ◌>>>◌}

pub data AluOp : Type 0 where
  or nand and xor add sub addc subc shl shr shra lhswap rot shl8or : AluOp

-- The sign bit fills the places that a shift of an `int16_t` to the right leaves.
unfoldable pub sra16 : ℕ → ℕ → ℕ
sra16 x k = if ltb x 0x8000 then x >>> k else complement 16 (complement 16 x >>> k)

unfoldable pub alu_exec : AluOp → ℕ → ℕ → Option ℕ
alu_exec or x y = some (bit_or x y)
alu_exec nand x y = some (complement 16 (bit_and x y))
alu_exec and x y = some (bit_and x y)
alu_exec xor x y = some (bit_xor x y)
alu_exec add x y = some (u16 (x + y))
alu_exec sub x y = some (u16 (x + 2 ^ 16 - y))
alu_exec addc x y = some (if ltb 0xFFFF (u32 (x + y)) then 1 else 0)
alu_exec subc x y = some (if ltb 0xFFFF (u32 (x + 2 ^ 32 - y)) then 1 else 0)
alu_exec shl x y = if ltb y 32 && ltb (x <<< y) (2 ^ 31) then some (u16 (x <<< y)) else none
alu_exec shr x y = if ltb y 32 then some (x >>> y) else none
alu_exec shra x y = if ltb y 32 then some (sra16 x y) else none
alu_exec lhswap x y = some (bit_or (bit_and x 0x00FF <<< 8) (bit_and x 0xFF00 >>> 8))
alu_exec rot x y = let k = bit_and y 0xF in some (u16 (bit_or (x <<< k) (x >>> (16 - k))))
alu_exec shl8or x y = some (bit_or (bit_and x 0x00FF <<< 8) (bit_and y 0x00FF))
