-- ===== src/Instr/Assemble/Encodings.antt =====
-- Every format of the table, assembled and decoded.
use cn.Common.{
  ℕ, ◌+◌, ◌*◌, ◌/◌, ◌%◌, ◌^◌, ◌<◌, ◌≡◌, refl, ap, ◌∙◌, arith, Bool, true, false, some, List,
}
use cn.Common.Masks.{bit_and_mask}
use cn.Instr.{
  u3u3u3u2, u3_2u4u2, u3u8, blank_11, s11, u3s8, u3u3s5, u3u3u5, u3u3_5, u11, u3_3u5, fmt_of,
  decode_fields,
}
use cn.Instr.Fields.{sgnextend-eleven, sgnextend-eight, sgnextend-five}
use cn.Instr.Table.{InstrSpec, codes}
use cn.Instr.Assemble.{put_fields, assemble_spec, next_field, strtol}
use cn.Instr.Assemble.Formats.{Assembles, put, put_subcode, decode_word}

module _ (nmemonic syntax : List ℕ) (op : ℕ) (h : op < 32) where
  abbrev spec_of : Bool → ℕ → List ℕ → InstrSpec
  spec_of has_subcode subcode format = record {
    nmemonic = nmemonic;
    opcode = op;
    has_subcode = has_subcode;
    subcode = subcode;
    format = format;
    syntax = syntax;
  }

  pub u3u3u3_Assembles :
      (sub : ℕ)
      → fmt_of op ≡ u3u3u3u2
      → sub < 4
      → Assembles u3u3u3u2 (spec_of true sub (codes "u3u3u3"))
  unfolding assemble_spec put_fields next_field strtol decode_fields
  u3u3u3_Assembles sub ef hs a b c f =
      let w = (((op * 8 + a) * 8 + b) * 8 + c) * 4 + sub in
      let e1 = put op op 3 a a refl (omega arith) (omega arith) in
      let e2 = put _ _ 3 b b e1 (omega arith) (omega arith) in
      let e3 = put _ _ 3 c c e2 (omega arith) (omega arith) in
      (
        w,
        ap some (put_subcode _ _ sub e3 hs (omega arith)),
        omega arith,
        decode_word op w _ (omega arith) h ef
            ∙ ground (
              arith,
              bit_and_mask 3 (w / 2 ^ 8),
              bit_and_mask 3 (w / 2 ^ 5),
              bit_and_mask 3 (w / 2 ^ 2),
              bit_and_mask 2 w,
            ),
      )

  pub u3_2u4_Assembles :
      (sub : ℕ)
      → fmt_of op ≡ u3_2u4u2
      → sub < 4
      → Assembles u3_2u4u2 (spec_of true sub (codes "u3_2u4"))
  unfolding assemble_spec put_fields next_field strtol decode_fields
  u3_2u4_Assembles sub ef hs a b c f =
      let w = (((op * 8 + a) * 4 + 0) * 16 + b) * 4 + sub in
      let e1 = put op op 3 a a refl (omega arith) (omega arith) in
      let e2 = put _ _ 2 0 0 e1 (omega arith) (omega arith) in
      let e3 = put _ _ 4 b b e2 (omega arith) (omega arith) in
      (
        w,
        ap some (put_subcode _ _ sub e3 hs (omega arith)),
        omega arith,
        decode_word op w _ (omega arith) h ef
            ∙ ground
                (arith, bit_and_mask 3 (w / 2 ^ 8), bit_and_mask 4 (w / 2 ^ 2), bit_and_mask 2 w),
      )

  pub u3u8_Assembles :
      (sub : ℕ) → fmt_of op ≡ u3u8 → Assembles u3u8 (spec_of false sub (codes "u3u8"))
  unfolding assemble_spec put_fields next_field strtol decode_fields
  u3u8_Assembles sub ef a b c f =
      let w = ((op * 8 + a) * 256 + b) in
      let e1 = put op op 3 a a refl (omega arith) (omega arith) in
      let e2 = put _ _ 8 b b e1 (omega arith) (omega arith) in
      (
        w,
        ap some e2,
        omega arith,
        decode_word op w _ (omega arith) h ef
            ∙ ground (arith, bit_and_mask 3 (w / 2 ^ 8), bit_and_mask 8 w),
      )

  pub blank_11_Assembles :
      (sub : ℕ) → fmt_of op ≡ blank_11 → Assembles blank_11 (spec_of false sub (codes "_11"))
  unfolding assemble_spec put_fields next_field strtol decode_fields
  blank_11_Assembles sub ef a b c f =
      let w = (op * 2048 + 0) in
      let e1 = put op op 11 0 0 refl (omega arith) (omega arith) in
      (w, ap some e1, omega arith, decode_word op w _ (omega arith) h ef ∙ ground (arith))

  pub s11_Assembles : (sub : ℕ) → fmt_of op ≡ s11 → Assembles s11 (spec_of false sub (codes "s11"))
  unfolding assemble_spec put_fields next_field strtol decode_fields
  s11_Assembles sub ef a b c f =
      let (v, hv, ev) = f.0 in
      let low : a % 2 ^ 11 ≡ v = ground (arith, ev) in
      let back = sgnextend-eleven v hv in
      let w = (op * 2048 + v) in
      let e1 = put op op 11 a v refl low (omega arith) in
      (
        w,
        ap some e1,
        omega arith,
        decode_word op w _ (omega arith) h ef ∙ ground (arith, bit_and_mask 11 w, back, ev),
      )

  pub u3s8_Assembles :
      (sub : ℕ) → fmt_of op ≡ u3s8 → Assembles u3s8 (spec_of false sub (codes "u3s8"))
  unfolding assemble_spec put_fields next_field strtol decode_fields
  u3s8_Assembles sub ef a b c f =
      let (v, hv, ev) = f.1 in
      let low : b % 2 ^ 8 ≡ v = ground (arith, ev) in
      let back = sgnextend-eight v hv in
      let w = ((op * 8 + a) * 256 + v) in
      let e1 = put op op 3 a a refl (omega arith) (omega arith) in
      let e2 = put _ _ 8 b v e1 low (omega arith) in
      (
        w,
        ap some e2,
        omega arith,
        decode_word op w _ (omega arith) h ef
            ∙ ground (arith, bit_and_mask 3 (w / 2 ^ 8), bit_and_mask 8 w, back, ev),
      )

  pub u3u3s5_Assembles :
      (sub : ℕ) → fmt_of op ≡ u3u3s5 → Assembles u3u3s5 (spec_of false sub (codes "u3u3s5"))
  unfolding assemble_spec put_fields next_field strtol decode_fields
  u3u3s5_Assembles sub ef a b c f =
      let (v, hv, ev) = f.2 in
      let low : c % 2 ^ 5 ≡ v = ground (arith, ev) in
      let back = sgnextend-five v hv in
      let w = (((op * 8 + a) * 8 + b) * 32 + v) in
      let e1 = put op op 3 a a refl (omega arith) (omega arith) in
      let e2 = put _ _ 3 b b e1 (omega arith) (omega arith) in
      let e3 = put _ _ 5 c v e2 low (omega arith) in
      (
        w,
        ap some e3,
        omega arith,
        decode_word op w _ (omega arith) h ef
            ∙ ground (
              arith,
              bit_and_mask 3 (w / 2 ^ 8),
              bit_and_mask 3 (w / 2 ^ 5),
              bit_and_mask 5 w,
              back,
              ev,
            ),
      )

  pub u3u3u5_Assembles :
      (sub : ℕ) → fmt_of op ≡ u3u3u5 → Assembles u3u3u5 (spec_of false sub (codes "u3u3u5"))
  unfolding assemble_spec put_fields next_field strtol decode_fields
  u3u3u5_Assembles sub ef a b c f =
      let w = (((op * 8 + a) * 8 + b) * 32 + c) in
      let e1 = put op op 3 a a refl (omega arith) (omega arith) in
      let e2 = put _ _ 3 b b e1 (omega arith) (omega arith) in
      let e3 = put _ _ 5 c c e2 (omega arith) (omega arith) in
      (
        w,
        ap some e3,
        omega arith,
        decode_word op w _ (omega arith) h ef
            ∙ ground
                (arith, bit_and_mask 3 (w / 2 ^ 8), bit_and_mask 3 (w / 2 ^ 5), bit_and_mask 5 w),
      )

  pub u3u3_5_Assembles :
      (sub : ℕ) → fmt_of op ≡ u3u3_5 → Assembles u3u3_5 (spec_of false sub (codes "u3u3_5"))
  unfolding assemble_spec put_fields next_field strtol decode_fields
  u3u3_5_Assembles sub ef a b c f =
      let w = (((op * 8 + a) * 8 + b) * 32 + 0) in
      let e1 = put op op 3 a a refl (omega arith) (omega arith) in
      let e2 = put _ _ 3 b b e1 (omega arith) (omega arith) in
      let e3 = put _ _ 5 0 0 e2 (omega arith) (omega arith) in
      (
        w,
        ap some e3,
        omega arith,
        decode_word op w _ (omega arith) h ef
            ∙ ground (arith, bit_and_mask 3 (w / 2 ^ 8), bit_and_mask 3 (w / 2 ^ 5)),
      )

  pub u11_Assembles : (sub : ℕ) → fmt_of op ≡ u11 → Assembles u11 (spec_of false sub (codes "u11"))
  unfolding assemble_spec put_fields next_field strtol decode_fields
  u11_Assembles sub ef a b c f =
      let w = (op * 2048 + a) in
      let e1 = put op op 11 a a refl (omega arith) (omega arith) in
      (
        w,
        ap some e1,
        omega arith,
        decode_word op w _ (omega arith) h ef ∙ ground (arith, bit_and_mask 11 w),
      )

  pub u3_3u5_Assembles :
      (sub : ℕ) → fmt_of op ≡ u3_3u5 → Assembles u3_3u5 (spec_of false sub (codes "u3_3u5"))
  unfolding assemble_spec put_fields next_field strtol decode_fields
  u3_3u5_Assembles sub ef a b c f =
      let w = (((op * 8 + a) * 8 + 0) * 32 + b) in
      let e1 = put op op 3 a a refl (omega arith) (omega arith) in
      let e2 = put _ _ 3 0 0 e1 (omega arith) (omega arith) in
      let e3 = put _ _ 5 b b e2 (omega arith) (omega arith) in
      (
        w,
        ap some e3,
        omega arith,
        decode_word op w _ (omega arith) h ef
            ∙ ground (arith, bit_and_mask 3 (w / 2 ^ 8), bit_and_mask 5 w),
      )
