-- ===== src/Core/Defined/Rules.antt =====
-- Rules for proofs that C defines a part of `sim_core_exec`.
use native.Mathlib.Nat.{pow-le-pow_right, mul-le-mul_left}
use cn.Common.{
  ◌>>=◌, ℕ, ◌*◌, ◌^◌, Bool, true, false, ◌≡◌, ◌<◌, ◌≤◌, refl, arith, none, some, ltb, ◌&&◌,
  if◌then◌else◌,
}
use cn.Core.{State}
use cn.Core.Alu.{AluOp, shl, shr, shra, alu_exec}
use cn.Core.Regs.{gpr_value, gpreg_read, Stage}

-- C defines the stage.
abbrev pub IsDefined : Stage → Type 0
IsDefined none = ⊥
IsDefined (some m) = Unit {0}

pub if-IsDefined :
    (b : Bool) (x y : Stage)
    → (b ≡ true → IsDefined x)
    → (b ≡ false → IsDefined y)
    → IsDefined (if b then x else y)
if-IsDefined true x y hx hy = hx refl
if-IsDefined false x y hx hy = hy refl

-- The shifts of an `int` that C defines.
abbrev pub CanShift : AluOp → ℕ → ℕ → Type 0
CanShift shl x y = (y < 32) × (x * 2 ^ y < 2 ^ 31)
CanShift shr x y = y < 32
CanShift shra x y = y < 32
CanShift _ x y = Unit {0}

unfoldable pub is_shift : AluOp → Bool
is_shift shl = true
is_shift shr = true
is_shift shra = true
is_shift _ = false

pub no_shift : (op : AluOp) (x y : ℕ) → is_shift op ≡ false → CanShift op x y
unfolding is_shift
no_shift shl x y e = absurd (ground (arith, e))
no_shift shr x y e = absurd (ground (arith, e))
no_shift shra x y e = absurd (ground (arith, e))
no_shift _ x y e = tt

-- A shift by a constant of the instruction.
pub short_shift : (op : AluOp) (x y : ℕ) → x < 2 ^ 16 → y < 16 → CanShift op x y
short_shift shl x y hx hy =
    let high : 2 ^ y ≤ 2 ^ 15 = pow-le-pow_right (omega arith) {j = 15} (omega arith) in
    (omega arith, omega (arith, mul-le-mul_left x high))
short_shift shr x y hx hy = omega arith
short_shift shra x y hx hy = omega arith
short_shift _ x y hx hy = tt

if_defined : (b : Bool) (r : ℕ) → b ≡ true → (v : ℕ) × ((if b then some r else none) ≡ some v)
if_defined true r e = (r, refl)
if_defined false r e = absurd (ground (arith, e))

alu_exec-some : (op : AluOp) (x y : ℕ) → CanShift op x y → (v : ℕ) × (alu_exec op x y ≡ some v)
unfolding alu_exec
alu_exec-some shl x y h =
    if_defined (ltb y 32 && ltb (x * 2 ^ y) (2 ^ 31)) _ (ground (arith, h.0, h.1))
alu_exec-some shr x y h = if_defined (ltb y 32) _ (ground (arith, h))
alu_exec-some shra x y h = if_defined (ltb y 32) _ (ground (arith, h))
alu_exec-some _ x y h = (_, refl)

gpreg_read-some : (s : State) (r : ℕ) → r < 8 → gpreg_read s r ≡ some (gpr_value s r)
unfolding gpreg_read
gpreg_read-some s r h = let inside : ltb r 8 ≡ true = ground arith in rw inside refl

pub alu_exec-IsDefined :
    (op : AluOp) (x y : ℕ) (rest : ℕ → Stage)
    → CanShift op x y
    → ((v : ℕ) → IsDefined (rest v))
    → IsDefined (alu_exec op x y >>= rest)
alu_exec-IsDefined op x y rest h k = let (v, e) = alu_exec-some op x y h in rw e (k v)

module _ (s : State) where
  pub reading :
      (r : ℕ) (rest : ℕ → Stage)
      → r < 8
      → IsDefined (rest (gpr_value s r))
      → IsDefined (gpreg_read s r >>= rest)
  reading r rest h k = rw (gpreg_read-some s r h) k
