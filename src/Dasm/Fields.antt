-- ===== src/Dasm/Fields.antt =====
-- All operands of an instruction, printed and read again.
use mathlib.Core.List.{append-nil}
use cn.Common.{
  ℕ, zero, suc, ◌+◌, ◌<◌, ◌≤◌, ◌≡◌, refl, arith, ap, ◌∙◌, some, List, [], ◌∷◌, ◌++◌, All, length,
  length-append, ◌*◌, get_elem?, ltb,
}
use cn.Common.Outcome.{ok, assert}
use cn.Instr.Table.{codes}
use cn.Asm.{Labeldec, operand}
use cn.Asm.Opcodes.{operands}
use cn.Asm.Tokens.Reading.{IsSymbol, joined}
use cn.Dasm.{print_field, print_fields, separator}
use cn.Dasm.Operands.{IsRead}

-- The values that a syntax asks for, and their texts.
pub data AreRead : List ℕ → List ℕ → List (List ℕ) → Type 0 where
  done : AreRead [] [] []
  next :
      {c : ℕ} {syntax rest : List ℕ} {v : ℕ} {values text : List ℕ} {texts : List (List ℕ)}
      → IsRead c syntax v text rest
      → AreRead rest values texts
      → AreRead (c ∷ syntax) (v ∷ values) (text ∷ texts)

separated :
    {rest values : List ℕ} {texts : List (List ℕ)} (text : List ℕ)
    → AreRead rest values texts
    → text ++ (separator rest ++ joined texts) ≡ joined (text ∷ texts)
separated text done = append-nil text
separated text (next h hs) = refl

print_fields_step :
    (fuel c : ℕ) (syntax : List ℕ) (v : ℕ) (values text rest more : List ℕ)
    → print_field c syntax v ≡ ok (text, rest)
    → print_fields fuel rest values ≡ ok more
    → print_fields (suc fuel) (c ∷ syntax) (v ∷ values) ≡ ok (text ++ (separator rest ++ more))
unfolding print_fields
print_fields_step fuel c syntax v values text rest more e em = rw (e, em) refl

-- The fields beyond those that the syntax asks for are not printed.
pub print_fields-AreRead :
    (fuel : ℕ) {syntax values : List ℕ} {texts : List (List ℕ)} (extra : List ℕ)
    → AreRead syntax values texts
    → length syntax ≤ fuel
    → print_fields fuel syntax (values ++ extra) ≡ ok (joined texts)
print_fields-AreRead fuel extra done hf = unfold print_fields in refl
print_fields-AreRead zero extra (next h hs) hf = absurd (omega arith)
print_fields-AreRead (suc fuel) extra (next {c} {syntax} {rest} {v} {values} {text} {texts} h hs)
      hf =
    print_fields_step fuel c syntax v (values ++ extra) text rest (joined texts) h.printed
      (print_fields-AreRead fuel extra hs (omega (arith, h.shorter)))
    ∙ ap ok (separated text hs)

operands_step :
    (fuel offset : ℕ) (labels : List Labeldec) (args : List (List ℕ)) (argidx c : ℕ)
    (syntax text : List ℕ) (v : ℕ) (values rest : List ℕ)
    → argidx < 3
    → get_elem? args argidx ≡ some text
    → operand offset labels c syntax (some text) ≡ ok (v, rest)
    → operands fuel offset labels args (argidx + 1) rest ≡ ok values
    → operands (suc fuel) offset labels args argidx (c ∷ syntax) ≡ ok (v ∷ values)
unfolding operands
operands_step fuel offset labels args argidx c syntax text v values rest h3 ea e em =
    let below : assert (ltb argidx 3) ≡ ok tt = ground arith in rw (below, ea) (rw (e, em) refl)

pub operands-AreRead :
    (fuel offset : ℕ) (labels : List Labeldec) (args : List (List ℕ)) (argidx : ℕ)
    {syntax values : List ℕ} {texts : List (List ℕ)}
    → AreRead syntax values texts
    → length syntax ≤ fuel
    → argidx + length texts ≤ 3
    → ((k : ℕ) → get_elem? args (argidx + k) ≡ get_elem? texts k)
    → operands fuel offset labels args argidx syntax ≡ ok values
operands-AreRead fuel offset labels args argidx done hf h3 same = unfold operands in refl
operands-AreRead zero offset labels args argidx (next h hs) hf h3 same = absurd (omega arith)
operands-AreRead (suc fuel) offset labels args argidx
      (next {c} {syntax} {rest} {v} {values} {text} {texts} h hs) hf h3 same =
    let now : argidx ≡ argidx + 0 = omega arith in
    operands_step fuel offset labels args argidx c syntax text v values rest (omega arith)
      (ap (get_elem? args) now ∙ same 0) (h.reads offset labels)
      (operands-AreRead fuel offset labels args (argidx + 1) hs (omega (arith, h.shorter))
        (omega arith)
        λ k.
          let later : argidx + 1 + k ≡ argidx + suc k = omega arith in
          ap (get_elem? args) later ∙ same (suc k))

pub AreRead-symbols :
    {syntax values : List ℕ} {texts : List (List ℕ)}
    → AreRead syntax values texts
    → All IsSymbol texts
AreRead-symbols done = tt
AreRead-symbols (next h hs) = (h.symbol, AreRead-symbols hs)

pub AreRead-short :
    {syntax values : List ℕ} {texts : List (List ℕ)}
    → AreRead syntax values texts
    → length (joined texts) ≤ 8 * length texts
AreRead-short done = omega arith
AreRead-short (next h done) = omega (arith, h.short)
AreRead-short (next {text} h (next {text = text'} {texts} h' hs)) = omega (
  arith,
  h.short,
  AreRead-short (next h' hs),
  length-append text (codes ", " ++ joined (text' ∷ texts)),
)

pub AreRead-length :
    {syntax values : List ℕ} {texts : List (List ℕ)}
    → AreRead syntax values texts
    → length texts ≡ length values
AreRead-length done = refl
AreRead-length (next h hs) = ap suc (AreRead-length hs)
