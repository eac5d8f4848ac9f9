-- ===== src/Core/Defined.antt =====
-- Where C defines what `sim_core_exec` does.
pub mod Rules
use native.Mathlib.Nat.{pow-le-pow_right, mul-le-mul_left}
use cn.Common.{◌*◌, ◌^◌, true, ◌<◌, refl, none, ltb, ◌&&◌}
use cn.Core.Alu.{shl, shr, shra}
use cn.Core.Regs.{gpreg_read}
