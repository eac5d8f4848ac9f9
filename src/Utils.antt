-- ===== src/Utils.antt =====
-- The bit fields of utils.h.
pub mod Fields
mod Tests
use cn.Common.{ℕ, ◌-◌, bit_and, bit_or}
use cn.Common.Words.{u16, complement, ◌<<<◌, ◌>>>◌}

unfoldable pub bitmask16 : ℕ → ℕ → ℕ
bitmask16 start num = u16 (((1 <<< num) - 1) <<< start)

unfoldable pub field_getbits16 : ℕ → ℕ → ℕ → ℕ
unfolding bitmask16
field_getbits16 field start num = let mask = bitmask16 start num in bit_and (field >>> start) mask

unfoldable pub field_setbits16 : ℕ → ℕ → ℕ → ℕ → ℕ
unfolding bitmask16
field_setbits16 field start num val =
    let mask = bitmask16 start num in
    bit_or (bit_and field (complement 16 mask)) (bit_and (u16 (val <<< start)) mask)
