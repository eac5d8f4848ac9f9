-- ===== src/Instr/Assemble/Formats.antt =====
-- The fields that a format can hold, and the words that the assembler and the decoder share.
use native.Mathlib.Nat.{mod-eq_of_lt, mod-lt, one-le-pow}
use cn.Common.{
  ℕ, ◌+◌, ◌*◌, ◌/◌, ◌%◌, ◌^◌, ◌<◌, ◌≡◌, refl, sym, arith, some, [], ◌∷◌, bit_and, bit_or,
  if◌then◌else◌,
}
use cn.Common.Words.{IsWord, u16}
use cn.Common.Masks.{bit_and_mask, bit_or_fields}
use cn.Instr.{
  InstrFmt, u3u3u3u2, u3_2u4u2, u3u8, u3_8, blank_11, s11, u3s8, u3u3s5, u3u3u5, u3u3_5, u11,
  u3_3u5, invalid, fmt_of, decode_fields, decode_instruction,
}
use cn.Instr.Fields.{signed_field}
use cn.Instr.Table.{InstrSpec}
use cn.Instr.Assemble.{put_field, assemble_spec}

-- An `int` that a signed field of `n` bits can hold.
abbrev pub IsSigned : ℕ → ℕ → Type 0
IsSigned n f = (v : ℕ) × (v < 2 ^ n) × (f ≡ signed_field n v)

-- The fields that a format can hold; what it has no place for is 0.
abbrev pub Fits : InstrFmt → ℕ → ℕ → ℕ → Type 0
Fits u3u3u3u2 a b c = (a < 8) × (b < 8) × (c < 8)
Fits u3_2u4u2 a b c = (a < 8) × (b < 16) × (c ≡ 0)
Fits u3u8 a b c = (a < 8) × (b < 256) × (c ≡ 0)
Fits u3_8 a b c = (a < 8) × (b ≡ 0) × (c ≡ 0)
Fits blank_11 a b c = (a ≡ 0) × (b ≡ 0) × (c ≡ 0)
Fits s11 a b c = IsSigned 11 a × (b ≡ 0) × (c ≡ 0)
Fits u3s8 a b c = (a < 8) × IsSigned 8 b × (c ≡ 0)
Fits u3u3s5 a b c = (a < 8) × (b < 8) × IsSigned 5 c
Fits u3u3u5 a b c = (a < 8) × (b < 8) × (c < 32)
Fits u3u3_5 a b c = (a < 8) × (b < 8) × (c ≡ 0)
Fits u11 a b c = (a < 2 ^ 11) × (b ≡ 0) × (c ≡ 0)
Fits u3_3u5 a b c = (a < 8) × (b < 32) × (c ≡ 0)
Fits invalid a b c = ⊥

-- The word that the assembler gives decodes to the opcode, the subcode and the fields.
abbrev pub Assembles : InstrFmt → InstrSpec → Type 0
Assembles fmt spec =
    (a b c : ℕ)
    → Fits fmt a b c
    → (w : ℕ) × (assemble_spec spec (a ∷ b ∷ c ∷ []) ≡ some w)
      × IsWord w
      × (decode_instruction w
          ≡ some (record {
            opcode = spec.opcode;
            subcode = if spec.has_subcode then spec.subcode else 0;
            field0 = a;
            field1 = b;
            field2 = c;
          }))

pub put :
    (p x n val v : ℕ)
    → p ≡ x
    → val % 2 ^ n ≡ v
    → x * 2 ^ n + v < 2 ^ 16
    → put_field p n val ≡ x * 2 ^ n + v
unfolding put_field
put p x n val v e ev h =
    let small : val % 2 ^ n < 2 ^ n = mod-lt val {m = 2 ^ n} (one-le-pow n 2 (omega arith)) in
    rw (e, sym ev)
      (ground (
        arith,
        bit_and_mask n val,
        bit_or_fields n x (val % 2 ^ n) small,
        mod-eq_of_lt {n = x * 2 ^ n} {m = 2 ^ 16},
        ev,
      ))

pub put_subcode :
    (p x sub : ℕ)
    → p ≡ x
    → sub < 4
    → x * 4 + sub < 2 ^ 16
    → u16 (bit_or (u16 (p * 4)) sub) ≡ x * 4 + sub
put_subcode p x sub e hs h = ground (arith, e, bit_or_fields 2 x sub hs)

pub decode_word :
    (op w : ℕ) (fmt : InstrFmt)
    → w / 2 ^ 11 ≡ op
    → op < 32
    → fmt_of op ≡ fmt
    → decode_instruction w ≡ decode_fields fmt op w
unfolding decode_instruction
decode_word op w fmt e h ef =
    let eq : bit_and (w / 2 ^ 11) 31 ≡ op = omega (arith, bit_and_mask 5 (w / 2 ^ 11)) in
    rw (eq, ef) refl
