-- ===== src/Dasm/Words.antt =====
-- What a word decodes to can be printed.
use cn.Common.{ℕ, ◌/◌, ◌^◌, ◌<◌, ◌≤◌, ◌≡◌, refl, arith, some, List, [], ◌∷◌, ◌++◌, bit_and}
use cn.Common.Masks.{bit_and_mask}
use cn.Instr.{
  Decoded, InstrFmt, u3u3u3u2, u3_2u4u2, u3u8, u3_8, blank_11, s11, u3s8, u3u3s5, u3u3u5, u3u3_5,
  u11, u3_3u5, invalid, fmt_of, decode_instruction,
}
use cn.Instr.Fields.{signed_field}
use cn.Instr.Table.{InstrSpec, codes}
use cn.Instr.Assemble.{strtol}
use cn.Instr.Ranges.{decode_fields-Fits}
use cn.Instr.Assemble.Formats.{Fits, IsSigned}
use cn.Dasm.{print_signed}
use cn.Dasm.Operands.{
  IsRead, register-IsRead, control-IsRead, coproc-IsRead, coproc_register-IsRead, unsigned-IsRead,
  signed_eleven-IsRead, signed_eight-IsRead, signed_five-IsRead,
}
use cn.Dasm.Fields.{AreRead, done, next}
use cn.Dasm.Rows.{IsRow, row_of, syntax_of}

-- Values and texts for a syntax, the values being the first of three fields.
pub record Texts (syntax : List ℕ) (a b c : ℕ) : Type 0 where
  pub values : List ℕ
  pub texts : List (List ℕ)
  pub extra : List ℕ
  pub reads : AreRead syntax values texts
  pub fields : values ++ extra ≡ a ∷ b ∷ c ∷ []

signed_read :
    (numbits : ℕ) (field : ℕ) (P : ℕ → Type 0)
    → IsSigned numbits field
    → ((v : ℕ) → v < 2 ^ numbits → P (signed_field numbits v))
    → P field
signed_read numbits field P (v, h, e) k = rw e (k v h)

abbrev texts_of :
    {syntax values : List ℕ} {texts : List (List ℕ)} (a b c : ℕ) (extra : List ℕ)
    → AreRead syntax values texts
    → values ++ extra ≡ a ∷ b ∷ c ∷ []
    → Texts syntax a b c
texts_of {values = values} {texts = texts} a b c extra reads fields = record {
  values = values;
  texts = texts;
  extra = extra;
  reads = reads;
  fields = fields;
}

fields-Texts : (fmt : InstrFmt) (a b c : ℕ) → Fits fmt a b c → Texts (syntax_of fmt) a b c
unfolding strtol
fields-Texts u3u3u3u2 a b c (ha, hb, hc) =
    texts_of a b c []
      (next (register-IsRead _ a ha)
        (next (register-IsRead _ b hb) (next (register-IsRead _ c hc) done)))
      refl
fields-Texts u3_2u4u2 a b c (ha, hb, hc) =
    texts_of a b c (c ∷ [])
      (next (register-IsRead _ a ha)
        (next (unsigned-IsRead _ [] 4 b refl (omega arith) hb (omega arith)) done))
      refl
fields-Texts u3u8 a b c (ha, hb, hc) =
    texts_of a b c (c ∷ [])
      (next (register-IsRead _ a ha)
        (next (unsigned-IsRead _ [] 8 b refl (omega arith) hb (omega arith)) done))
      refl
fields-Texts u3_8 a b c (ha, hb, hc) =
    texts_of a b c (b ∷ c ∷ []) (next (register-IsRead _ a ha) done) refl
fields-Texts blank_11 a b c h = texts_of a b c (a ∷ b ∷ c ∷ []) done refl
fields-Texts s11 a b c (ha, hb, hc) =
    texts_of a b c (b ∷ c ∷ [])
      (next
        (signed_read 11 a (λ f. IsRead b's' (codes "11") f (b'#' ∷ print_signed f) []) ha
          signed_eleven-IsRead)
        done)
      refl
fields-Texts u3s8 a b c (ha, hb, hc) =
    texts_of a b c (c ∷ [])
      (next (register-IsRead _ a ha) (
        next
          (signed_read 8 b (λ f. IsRead b's' (codes "8") f (b'#' ∷ print_signed f) []) hb
            signed_eight-IsRead)
          done))
      refl
fields-Texts u3u3s5 a b c (ha, hb, hc) =
    texts_of a b c []
      (next (register-IsRead _ a ha) (
        next (register-IsRead _ b hb) (
          next
            (signed_read 5 c (λ f. IsRead b's' (codes "5") f (b'#' ∷ print_signed f) []) hc
              signed_five-IsRead)
            done)))
      refl
fields-Texts u3u3u5 a b c (ha, hb, hc) =
    texts_of a b c []
      (next (register-IsRead _ a ha)
        (next (coproc-IsRead _ b hb) (next (coproc_register-IsRead _ c hc) done)))
      refl
fields-Texts u3u3_5 a b c (ha, hb, hc) =
    texts_of a b c (c ∷ []) (next (register-IsRead _ a ha) (next (coproc-IsRead _ b hb) done)) refl
fields-Texts u11 a b c (ha, hb, hc) =
    texts_of a b c (b ∷ c ∷ [])
      (next (unsigned-IsRead _ [] 11 a refl (omega arith) ha (omega arith)) done) refl
fields-Texts u3_3u5 a b c (ha, hb, hc) =
    texts_of a b c (c ∷ []) (next (register-IsRead _ a ha) (next (control-IsRead _ b hb) done)) refl
fields-Texts invalid a b c h = absurd h

-- What there is to know of a word: what it decodes to, its row, and its operands as texts.
pub record IsUnderstood (w : ℕ) : Type 0 where
  pub instr : Decoded
  pub spec : InstrSpec
  pub decodes : decode_instruction w ≡ some instr
  pub row : IsRow instr.opcode instr.subcode spec
  pub fits : Fits (fmt_of instr.opcode) instr.field0 instr.field1 instr.field2
  pub operands : Texts spec.syntax instr.field0 instr.field1 instr.field2

decoded-IsUnderstood :
    (w op : ℕ) (d : Decoded)
    → decode_instruction w ≡ some d
    → d.opcode ≡ op
    → op < 32
    → d.subcode < 4
    → (4 ≤ op → d.subcode ≡ 0)
    → Fits (fmt_of op) d.field0 d.field1 d.field2
    → IsUnderstood w
decoded-IsUnderstood w op d e eo below hs hz fits =
    let (spec, row) = row_of d.opcode d.subcode (omega arith) hs (λ big. hz (omega arith)) in
    let fits' : Fits (fmt_of d.opcode) d.field0 d.field1 d.field2 = rw eo fits in
    record {
      instr = d;
      spec = spec;
      decodes = e;
      row = row;
      fits = fits';
      operands = rw row.syntax_eq (fields-Texts (fmt_of d.opcode) d.field0 d.field1 d.field2 fits');
    }

pub word-IsUnderstood : (w : ℕ) → IsUnderstood w
unfolding decode_instruction
word-IsUnderstood w =
    let op = bit_and (w / 2 ^ 11) 31 in
    let below : op < 32 = omega (arith, bit_and_mask 5 (w / 2 ^ 11)) in
    let (d, e, eo, hs, hz, fits) = decode_fields-Fits (fmt_of op) op w below refl in
    decoded-IsUnderstood w op d e eo below hs hz fits
