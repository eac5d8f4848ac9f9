-- ===== src/Asm/Arity.antt =====
-- How many operands a syntax asks for, and that the loop over it finds them.
pub mod Table
use cn.Common.{
  ℕ, zero, suc, ◌+◌, ◌*◌, ◌-◌, ◌^◌, ◌≤◌, ◌<◌, ◌≡◌, refl, arith, true, false, ◌&&◌, Option, none,
  some, List, [], ◌∷◌, length, get_elem?, get_elem?-some, Bool, ◌||◌, ltb, leb, ◌==◌, if◌then◌else◌,
  Bool-cases, inl, inr,
}
use cn.Common.Outcome.{Outcome, ok, failed, Defined, bind-Defined, defined, assert}
use cn.Instr.Assemble.{strtol}
use cn.Text.{first}
use cn.Asm.{Labeldec, operand, register_operand, signed_operand, unsigned_operand}
use cn.Asm.Opcodes.{operands}

-- The operands that a syntax asks for: each byte but the digits after an `s` or a `u`.
unfoldable pub arity : Bool → List ℕ → ℕ
arity numbered [] = 0
arity numbered (c ∷ syntax) =
    if numbered && (leb b'0' c && leb c b'9')
    then arity true syntax
    else suc (arity (c == b's' || c == b'u') syntax)

arity-strtol : (acc : ℕ) (syntax : List ℕ) → arity false (strtol acc syntax).1 ≡ arity true syntax
unfolding arity strtol
arity-strtol acc [] = refl
arity-strtol acc (c ∷ syntax) = elim (Bool-cases (leb b'0' c && leb c b'9')) [
  | inl e ↦ rw e (arity-strtol (acc * 10 + (c - b'0')) syntax)
  | inr e ↦ rw e refl
]

length-strtol : (acc : ℕ) (syntax : List ℕ) → length (strtol acc syntax).1 ≤ length syntax
unfolding strtol
length-strtol acc [] = omega arith
length-strtol acc (c ∷ syntax) = elim (Bool-cases (leb b'0' c && leb c b'9')) [
  | inl e ↦ rw e (omega (arith, length-strtol (acc * 10 + (c - b'0')) syntax))
  | inr e ↦ rw e (omega arith)
]

-- What is left of a syntax after its byte `c`.
abbrev pub Remains : ℕ → List ℕ → ℕ × List ℕ → Type 0
Remains c syntax (value, rest) =
    (arity false rest ≡ arity (c == b's' || c == b'u') syntax) × (length rest ≤ length syntax)

pub operand-Remains :
    (offset : ℕ) (labels : List Labeldec) (c : ℕ) (syntax text : List ℕ)
    → Defined (Remains c syntax) (operand offset labels c syntax (some text))
unfolding operand register_operand signed_operand unsigned_operand
operand-Remains offset labels c syntax text =
    ground (arith, arity-strtol 0 syntax, length-strtol 0 syntax)

below-assert : (n : ℕ) → n < 3 → assert (ltb n 3) ≡ ok tt
below-assert n h = ground arith

-- With fuel for its letters and an argument for each of them the loop is defined, and gives as many
-- values as the syntax asks for.
pub operands-Defined :
    (fuel offset : ℕ) (labels : List Labeldec) (args : List (List ℕ)) (argidx : ℕ) (syntax : List ℕ)
    → length syntax ≤ fuel
    → argidx + arity false syntax ≤ 3
    → argidx + arity false syntax ≤ length args
    → Defined
        (λ values. length values ≡ arity false syntax)
        (operands fuel offset labels args argidx syntax)
unfolding operands arity
operands-Defined fuel offset labels args argidx [] hf h3 ha = refl
operands-Defined zero offset labels args argidx (c ∷ syntax) hf h3 ha = absurd (omega arith)
operands-Defined (suc fuel) offset labels args argidx (c ∷ syntax) hf h3 ha =
    let (text, e) = get_elem?-some args argidx (omega arith) in
    rw (below-assert argidx (omega arith), e)
      (bind-Defined (Remains c syntax) _ (operand offset labels c syntax (some text)) _
        (operand-Remains offset labels c syntax text)
        λ (value, rest) _ (same, shorter).
          bind-Defined (λ values. length values ≡ arity false rest) _
            (operands fuel offset labels args (argidx + 1) rest) _
            (operands-Defined fuel offset labels args (argidx + 1) rest (omega arith) (omega arith)
              (omega arith))
            λ values _ h. omega arith)
