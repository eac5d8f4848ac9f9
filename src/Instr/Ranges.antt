-- ===== src/Instr/Ranges.antt =====
-- What the fields of a decoded instruction hold, opcode by opcode.
use native.Mathlib.Nat.{mod-lt, one-le-pow}
use cn.Common.{ℕ, ◌-◌, ◌/◌, ◌^◌, ◌≤◌, ◌<◌, ◌≡◌, ◌⊎◌, refl, sym, arith, some, bit_and}
use cn.Common.Masks.{bit_and_mask}
use cn.Instr.{
  Decoded, InstrFmt, u3u3u3u2, u3_2u4u2, u3u8, u3_8, blank_11, s11, u3s8, u3u3s5, u3u3u5, u3u3_5,
  u11, u3_3u5, invalid, fmt_of, sgnextend, decode_fields, decode_instruction,
}
use cn.Instr.Fields.{signed_field, sgnextend-eleven, sgnextend-eight, sgnextend-five}
use cn.Instr.Assemble.Formats.{IsSigned, Fits}

-- What the fields of a format decode to.
abbrev pub DecodesTo : InstrFmt → ℕ → ℕ → Type 0
DecodesTo fmt opcode w =
    (d : Decoded) × (decode_fields fmt opcode w ≡ some d)
    × (d.opcode ≡ opcode)
    × (d.subcode < 4)
    × (4 ≤ opcode → d.subcode ≡ 0)
    × Fits fmt d.field0 d.field1 d.field2

sgnextend-IsSigned :
    (w numbits : ℕ)
    → ((v : ℕ) → v < 2 ^ numbits → sgnextend v numbits ≡ signed_field numbits v)
    → IsSigned numbits (sgnextend (bit_and w (2 ^ numbits - 1)) numbits)
sgnextend-IsSigned w numbits k =
    let v = bit_and w (2 ^ numbits - 1) in
    let below : v < 2 ^ numbits =
      ground (arith, bit_and_mask numbits w, one-le-pow numbits 2, mod-lt w {m = 2 ^ numbits}) in
    (v, below, k v below)

-- The fields of a word are in the ranges of its format.
pub decode_fields-Fits :
    (fmt : InstrFmt) (opcode w : ℕ) → opcode < 32 → fmt_of opcode ≡ fmt → DecodesTo fmt opcode w
unfolding decode_fields fmt_of
decode_fields-Fits u3u3u3u2 op w h e =
    let m8 = bit_and_mask 3 (w / 2 ^ 8) in
    let m5 = bit_and_mask 3 (w / 2 ^ 5) in
    let m2 = bit_and_mask 3 (w / 2 ^ 2) in
    let m0 = bit_and_mask 2 w in
    (_, refl, refl, omega arith, λ big. absurd (ground arith), omega arith)
decode_fields-Fits u3_2u4u2 op w h e =
    let m8 = bit_and_mask 3 (w / 2 ^ 8) in
    let m2 = bit_and_mask 4 (w / 2 ^ 2) in
    let m0 = bit_and_mask 2 w in
    (_, refl, refl, omega arith, λ big. absurd (ground arith), omega arith)
decode_fields-Fits u3u8 op w h e =
    let m8 = bit_and_mask 3 (w / 2 ^ 8) in
    let m0 = bit_and_mask 8 w in (_, refl, refl, omega arith, λ big. refl, omega arith)
decode_fields-Fits u3_8 op w h e =
    let m8 = bit_and_mask 3 (w / 2 ^ 8) in (_, refl, refl, omega arith, λ big. refl, omega arith)
decode_fields-Fits blank_11 op w h e = (_, refl, refl, omega arith, λ big. refl, omega arith)
decode_fields-Fits s11 op w h e = (
  _,
  refl,
  refl,
  omega arith,
  λ big. refl,
  (sgnextend-IsSigned w 11 (λ v hv. sgnextend-eleven v hv), refl, refl),
)
decode_fields-Fits u3s8 op w h e =
    let m8 = bit_and_mask 3 (w / 2 ^ 8) in
    (
      _,
      refl,
      refl,
      omega arith,
      λ big. refl,
      (omega arith, sgnextend-IsSigned w 8 (λ v hv. sgnextend-eight v hv), refl),
    )
decode_fields-Fits u3u3s5 op w h e =
    let m8 = bit_and_mask 3 (w / 2 ^ 8) in
    let m5 = bit_and_mask 3 (w / 2 ^ 5) in
    (
      _,
      refl,
      refl,
      omega arith,
      λ big. refl,
      (omega arith, omega arith, sgnextend-IsSigned w 5 (λ v hv. sgnextend-five v hv)),
    )
decode_fields-Fits u3u3u5 op w h e =
    let m8 = bit_and_mask 3 (w / 2 ^ 8) in
    let m5 = bit_and_mask 3 (w / 2 ^ 5) in
    let m0 = bit_and_mask 5 w in (_, refl, refl, omega arith, λ big. refl, omega arith)
decode_fields-Fits u3u3_5 op w h e =
    let m8 = bit_and_mask 3 (w / 2 ^ 8) in
    let m5 = bit_and_mask 3 (w / 2 ^ 5) in (_, refl, refl, omega arith, λ big. refl, omega arith)
decode_fields-Fits u11 op w h e =
    let m0 = bit_and_mask 11 w in (_, refl, refl, omega arith, λ big. refl, omega arith)
decode_fields-Fits u3_3u5 op w h e =
    let m8 = bit_and_mask 3 (w / 2 ^ 8) in
    let m0 = bit_and_mask 5 w in (_, refl, refl, omega arith, λ big. refl, omega arith)
decode_fields-Fits invalid op w h e = absurd (ground arith)

-- The ranges of what an instruction is decoded to. `IsSigned n` holds of the pattern of an `int`
-- that `n` bits can stand for.
pub record IsDecoded (d : Decoded) : Type 0 where
  pub opcode : d.opcode < 32
  pub subcode : d.subcode < 4
  pub no_subcode : 4 ≤ d.opcode → d.subcode ≡ 0
  pub registers : d.opcode ≤ 0x02 → (d.field0 < 8) × (d.field1 < 8) × (d.field2 < 8)
  pub shift : d.opcode ≡ 0x03 → (d.field0 < 8) × (d.field1 < 16) × (d.field2 ≡ 0)
  pub immediate :
      0x04 ≤ d.opcode → d.opcode ≤ 0x0D → (d.field0 < 8) × (d.field1 < 256) × (d.field2 ≡ 0)
  pub blank :
      (d.opcode ≡ 0x0E) ⊎ (d.opcode ≡ 0x1D) → (d.field0 ≡ 0) × (d.field1 ≡ 0) × (d.field2 ≡ 0)
  pub jump :
      0x0F ≤ d.opcode → d.opcode ≤ 0x10 → IsSigned 11 d.field0 × (d.field1 ≡ 0) × (d.field2 ≡ 0)
  pub branch :
      0x11 ≤ d.opcode → d.opcode ≤ 0x14 → (d.field0 < 8) × IsSigned 8 d.field1 × (d.field2 ≡ 0)
  pub access :
      0x15 ≤ d.opcode → d.opcode ≤ 0x18 → (d.field0 < 8) × (d.field1 < 8) × IsSigned 5 d.field2
  pub coproc_register :
      0x19 ≤ d.opcode → d.opcode ≤ 0x1A → (d.field0 < 8) × (d.field1 < 8) × (d.field2 < 32)
  pub coproc_operation : d.opcode ≡ 0x1B → (d.field0 < 8) × (d.field1 < 8) × (d.field2 ≡ 0)
  pub software_trap : d.opcode ≡ 0x1C → (d.field0 < 2 ^ 11) × (d.field1 ≡ 0) × (d.field2 ≡ 0)
  pub control : 0x1E ≤ d.opcode → (d.field0 < 8) × (d.field1 < 32) × (d.field2 ≡ 0)

module _ (d : Decoded) (fits : Fits (fmt_of d.opcode) d.field0 d.field1 d.field2) where
  at_format : (fmt : InstrFmt) → fmt_of d.opcode ≡ fmt → Fits fmt d.field0 d.field1 d.field2
  at_format fmt e = (rw e at fits)

  fits-IsDecoded : d.opcode < 32 → d.subcode < 4 → (4 ≤ d.opcode → d.subcode ≡ 0) → IsDecoded d
  unfolding fmt_of
  fits-IsDecoded ho hs hz = record {
    opcode = ho;
    subcode = hs;
    no_subcode = hz;
    registers = λ h. at_format u3u3u3u2 (ground arith);
    shift = λ h. at_format u3_2u4u2 (ground arith);
    immediate = λ h k. at_format u3u8 (ground arith);
    blank = λ h. at_format blank_11 (ground arith);
    jump = λ h k. at_format s11 (ground arith);
    branch = λ h k. at_format u3s8 (ground arith);
    access = λ h k. at_format u3u3s5 (ground arith);
    coproc_register = λ h k. at_format u3u3u5 (ground arith);
    coproc_operation = λ h. at_format u3u3_5 (ground arith);
    software_trap = λ h. at_format u11 (ground arith);
    control = λ h. at_format u3_3u5 (ground arith);
  }

-- What a word is decoded to is in range: the opcode below 32; the subcode below 4, and 0 for the
-- opcodes without one; and, opcode by opcode, the number of every register that is read or
-- written below 8, the count of a constant shift below 16, an immediate below 256, an offset a
-- signed number of 11, 8 or 5 bits, a number of a coprocessor below 8, numbers of coprocessor
-- registers and control registers below 32, the argument of a software trap below 2048, and 0
-- for a field that the instruction does not have.
pub decode_instruction-IsDecoded :
    (instr : ℕ) {d : Decoded} → decode_instruction instr ≡ some d → IsDecoded d
unfolding decode_instruction
decode_instruction-IsDecoded instr {d} e =
    let op = bit_and (instr / 2 ^ 11) 31 in
    let below : op < 32 = omega (arith, bit_and_mask 5 (instr / 2 ^ 11)) in
    let (d', e', eo, hs, hz, fits) = decode_fields-Fits (fmt_of op) op instr below refl in
    let same : d' ≡ d = cc in
    let fits' : Fits (fmt_of d'.opcode) d'.field0 d'.field1 d'.field2 = rw eo fits in
    rw (sym same) (fits-IsDecoded d' fits' (omega arith) hs (λ big. hz (omega arith)))
