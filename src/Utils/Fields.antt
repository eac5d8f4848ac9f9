-- ===== src/Utils/Fields.antt =====
-- What the bit fields of utils.h read and write.
use native.Mathlib.Nat.{
  mod-eq_of_lt, mod-mod, one-le-pow, div-add-mod, mul-div_cancel, mul-mod_left, mul_comm,
  pow-le-pow_right,
}
use cn.Common.{ℕ, ◌+◌, ◌-◌, ◌*◌, ◌/◌, ◌%◌, ◌^◌, ◌<◌, ◌≤◌, ◌≡◌, ap, ◌∙◌, arith, bit_and}
use cn.Common.Words.{IsWord, complement}
use cn.Common.Bits.{bit_and-div, bit_and-mod, bit_or-mod, pow-add}
use cn.Common.Masks.{bit_and_mask, bit_and-zero, zero-bit_or}
use cn.Utils.{bitmask16, field_getbits16, field_setbits16}

-- A mask of `n` bits from `s` on.
bit_and_window : (x s n : ℕ) → bit_and x ((2 ^ n - 1) * 2 ^ s) ≡ x / 2 ^ s % 2 ^ n * 2 ^ s
bit_and_window x s n = ground (
  arith,
  one-le-pow s 2,
  div-add-mod (bit_and x ((2 ^ n - 1) * 2 ^ s)) (2 ^ s),
  bit_and-div s x ((2 ^ n - 1) * 2 ^ s),
  bit_and-mod s x ((2 ^ n - 1) * 2 ^ s),
  mul-div_cancel (2 ^ n - 1) {n = 2 ^ s},
  mul-mod_left (2 ^ n - 1) (2 ^ s),
  bit_and_mask n (x / 2 ^ s),
  bit_and-zero (x % 2 ^ s) (x % 2 ^ s),
  mul_comm (2 ^ s) (x / 2 ^ s % 2 ^ n),
)

bitmask16_lem :
    (start num : ℕ)
    → (2 ^ num - 1) * 2 ^ start < 2 ^ 16
    → bitmask16 start num ≡ (2 ^ num - 1) * 2 ^ start
unfolding bitmask16
bitmask16_lem start num h =
    let one : 1 * 2 ^ num ≡ 2 ^ num = omega arith in
    ap (λ (t : ℕ). (t - 1) * 2 ^ start % 2 ^ 16) one ∙ mod-eq_of_lt h

-- `field_getbits16` moves the field down but keeps the mask in place: it gives the `num` bits
-- from twice `start` on, and leaves them at `start`.
pub field_getbits16-window :
    (field start num : ℕ)
    → (2 ^ num - 1) * 2 ^ start < 2 ^ 16
    → field_getbits16 field start num ≡ field / 2 ^ start / 2 ^ start % 2 ^ num * 2 ^ start
unfolding field_getbits16
field_getbits16-window field start num h =
    ap (λ (t : ℕ). bit_and (field / 2 ^ start) t) (bitmask16_lem start num h)
    ∙ bit_and_window (field / 2 ^ start) start num

-- On a field that starts at bit 0 it gives the number that the field holds, and that is what
-- `field_setbits16` has put there, cut to the width of the field.
pub field_getbits16-field_setbits16 :
    (field num val : ℕ)
    → IsWord field
    → num ≤ 16
    → IsWord val
    → field_getbits16 (field_setbits16 field 0 num val) 0 num ≡ val % 2 ^ num
unfolding field_setbits16
field_getbits16-field_setbits16 field num val hf hn hv = ground (
  arith,
  field_getbits16-window (field_setbits16 field 0 num val) 0 num (omega (arith, low)),
  bitmask16_lem 0 num (omega (arith, low)),
  bit_or-mod num (bit_and field (complement 16 (2 ^ num - 1)))
      (bit_and (val % 2 ^ 16) (2 ^ num - 1)),
  bit_and-mod num field (complement 16 (2 ^ num - 1)),
  bit_and_mask num val,
  clear,
  bit_and-zero (field % 2 ^ num) (field % 2 ^ num),
  zero-bit_or (val % 2 ^ num),
  mod-mod val (2 ^ num),
)
  where
    low : 2 ^ num ≤ 2 ^ 16
    low = pow-le-pow_right (omega arith) {j = 16} hn

    clear : complement 16 (2 ^ num - 1) % 2 ^ num ≡ 0
    clear =
        let sum : num + (16 - num) ≡ 16 = omega arith in
        let powers : 2 ^ num * 2 ^ (16 - num) ≡ 2 ^ 16 =
          pow-add num (16 - num) ∙ ap (λ (t : ℕ). 2 ^ t) sum in
        let more : 2 ^ (16 - num) ≡ 2 ^ (16 - num) - 1 + 1 =
          omega (arith, one-le-pow (16 - num) 2 (omega arith)) in
        let split : complement 16 (2 ^ num - 1) ≡ (2 ^ (16 - num) - 1) * 2 ^ num = ground (
          arith,
          powers,
          one-le-pow num 2,
          ap (λ (t : ℕ). t * 2 ^ num) more,
          low,
          mul_comm (2 ^ (16 - num)) (2 ^ num),
        ) in
        ap (λ (t : ℕ). t % 2 ^ num) split ∙ mul-mod_left (2 ^ (16 - num) - 1) (2 ^ num)
