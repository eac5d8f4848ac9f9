-- ===== src/Instr.antt =====
-- `decode_instruction` of instructions.c with the constants of instr_table.h. A field is an
-- `int`, held as its 32-bit pattern.
pub mod Fields
pub mod Ranges
pub mod Table
pub mod Assemble
mod Tests
use cn.Common.{ℕ, ◌-◌, ◌^◌, Option, none, some, bit_and, ltb, leb, if◌then◌else◌}
use cn.Common.Words.{u32, complement, ◌<<<◌, ◌>>>◌}

abbrev pub opcode_startbit : ℕ
opcode_startbit = 11

abbrev pub opcode_numbits : ℕ
opcode_numbits = 5

abbrev pub bitmask : ℕ → ℕ → ℕ
bitmask width start = ((1 <<< width) - 1) <<< start

-- `>>` of an `int32_t` keeps the sign.
abbrev pub sra32 : ℕ → ℕ → ℕ
sra32 x k = if ltb x (2 ^ 31) then x >>> k else complement 32 (complement 32 x >>> k)

-- `SGNEXTEND(VAL, int32_t, BITNUM)`. Its shift to the left goes into the sign bit of an `int`,
-- which gcc, the compiler of the Makefile, defines.
unfoldable pub sgnextend : ℕ → ℕ → ℕ
sgnextend val bitnum = sra32 (u32 (val <<< (32 - bitnum))) (32 - bitnum)

pub data InstrFmt : Type 0 where
  invalid u3u3u3u2 u3_2u4u2 u3u8 u3_8 blank_11 s11 u3s8 u3u3s5 u3u3u5 u3u3_5 u11 u3_3u5 : InstrFmt

pub record Decoded : Type 0 where
  pub opcode : ℕ
  pub subcode : ℕ
  pub field0 : ℕ
  pub field1 : ℕ
  pub field2 : ℕ

-- The first switch of `decode_instruction`.
unfoldable pub fmt_of : ℕ → InstrFmt
fmt_of opcode =
    if leb opcode 0x02
    then u3u3u3u2
    else if leb opcode 0x03
    then u3_2u4u2
    else if leb opcode 0x0D
    then u3u8
    else if leb opcode 0x0E
    then blank_11
    else if leb opcode 0x10
    then s11
    else if leb opcode 0x14
    then u3s8
    else if leb opcode 0x18
    then u3u3s5
    else if leb opcode 0x1A
    then u3u3u5
    else if leb opcode 0x1B
    then u3u3_5
    else if leb opcode 0x1C
    then u11
    else if leb opcode 0x1D
    then blank_11
    else if leb opcode 0x1F
    then u3_3u5
    else invalid

abbrev decoded : ℕ → ℕ → ℕ → ℕ → ℕ → Option Decoded
decoded opcode subcode field0 field1 field2 = some (record {
  opcode = opcode;
  subcode = subcode;
  field0 = field0;
  field1 = field1;
  field2 = field2;
})

-- The second switch; `none` is the -1 of an invalid format.
unfoldable pub decode_fields : InstrFmt → ℕ → ℕ → Option Decoded
decode_fields u3u3u3u2 opcode instr =
    decoded opcode (bit_and instr 0x3) (bit_and (instr >>> 8) 0x7) (bit_and (instr >>> 5) 0x7)
      (bit_and (instr >>> 2) 0x7)
decode_fields u3_2u4u2 opcode instr =
    decoded opcode (bit_and instr 0x3) (bit_and (instr >>> 8) 0x7) (bit_and (instr >>> 2) 0xF) 0
decode_fields u3u8 opcode instr =
    decoded opcode 0 (bit_and (instr >>> 8) 0x7) (bit_and instr 0xFF) 0
decode_fields u3_8 opcode instr = decoded opcode 0 (bit_and (instr >>> 8) 0x7) 0 0
decode_fields blank_11 opcode instr = decoded opcode 0 0 0 0
decode_fields s11 opcode instr = decoded opcode 0 (sgnextend (bit_and instr 0x7FF) 11) 0 0
decode_fields u3s8 opcode instr =
    decoded opcode 0 (bit_and (instr >>> 8) 0x7) (sgnextend (bit_and instr 0xFF) 8) 0
decode_fields u3u3s5 opcode instr =
    decoded opcode 0 (bit_and (instr >>> 8) 0x7) (bit_and (instr >>> 5) 0x7)
      (sgnextend (bit_and instr 0x1F) 5)
decode_fields u3u3u5 opcode instr =
    decoded opcode 0 (bit_and (instr >>> 8) 0x7) (bit_and (instr >>> 5) 0x7) (bit_and instr 0x1F)
decode_fields u3u3_5 opcode instr =
    decoded opcode 0 (bit_and (instr >>> 8) 0x7) (bit_and (instr >>> 5) 0x7) 0
decode_fields u11 opcode instr = decoded opcode 0 (bit_and instr 0x7FF) 0 0
decode_fields u3_3u5 opcode instr =
    decoded opcode 0 (bit_and (instr >>> 8) 0x7) (bit_and instr 0x1F) 0
decode_fields invalid opcode instr = none

unfoldable pub decode_instruction : ℕ → Option Decoded
decode_instruction instr =
    let opcode = bit_and (instr >>> opcode_startbit) (bitmask opcode_numbits 0) in
    decode_fields (fmt_of opcode) opcode instr
