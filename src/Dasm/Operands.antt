-- ===== src/Dasm/Operands.antt =====
-- An operand that is printed and read again by the assembler.
use cn.Common.{ℕ, ◌-◌, ◌^◌, ◌<◌, ◌≤◌, ◌≡◌, refl, arith, false, ◌||◌, some, List, [], ◌∷◌, length}
use cn.Common.Outcome.{ok}
use cn.Instr.Fields.{signed_field}
use cn.Instr.Assemble.{strtol}
use cn.Instr.Table.{codes}
use cn.Text.{int_gt, int_lt_neg}
use cn.Asm.{Labeldec, operand, register_operand, signed_operand, unsigned_operand}
use cn.Asm.Tokens.Reading.{IsSymbol}
use cn.Dasm.{print_unsigned, print_signed, print_field}
use cn.Dasm.Numbers.{
  Rereads, print_unsigned-Rereads, register-Rereads, signed_eleven-Rereads, signed_eight-Rereads,
  signed_five-Rereads,
}

-- `value` is printed at the byte `c` of a syntax, with `rest` left of it, and read as itself.
pub record IsRead (c : ℕ) (syntax : List ℕ) (value : ℕ) (text rest : List ℕ) : Type 0 where
  pub printed : print_field c syntax value ≡ ok (text, rest)
  pub reads :
      (offset : ℕ) (labels : List Labeldec)
      → operand offset labels c syntax (some text) ≡ ok (value, rest)
  pub symbol : IsSymbol text
  pub shorter : length rest ≤ length syntax
  pub short : length text ≤ 6

pub register-IsRead :
    (syntax : List ℕ) (v : ℕ) → v < 8 → IsRead b'r' syntax v (b'r' ∷ print_unsigned v) syntax
unfolding print_field operand register_operand
register-IsRead syntax v h =
    let reread = register-Rereads v (omega arith) in
    record {
      printed = refl;
      reads = λ offset labels. ground (arith, reread.value);
      symbol = ground (arith, reread.symbol);
      short = omega (arith, reread.short);
      shorter = omega arith;
    }

pub control-IsRead :
    (syntax : List ℕ) (v : ℕ) → v < 32 → IsRead b'q' syntax v (b'q' ∷ print_unsigned v) syntax
unfolding print_field operand register_operand
control-IsRead syntax v h =
    let reread = register-Rereads v h in
    record {
      printed = refl;
      reads = λ offset labels. ground (arith, reread.value);
      symbol = ground (arith, reread.symbol);
      short = omega (arith, reread.short);
      shorter = omega arith;
    }

pub coproc-IsRead :
    (syntax : List ℕ) (v : ℕ) → v < 8 → IsRead b'c' syntax v (b'c' ∷ print_unsigned v) syntax
unfolding print_field operand register_operand
coproc-IsRead syntax v h =
    let reread = register-Rereads v (omega arith) in
    record {
      printed = refl;
      reads = λ offset labels. ground (arith, reread.value);
      symbol = ground (arith, reread.symbol);
      short = omega (arith, reread.short);
      shorter = omega arith;
    }

pub coproc_register-IsRead :
    (syntax : List ℕ) (v : ℕ) → v < 32 → IsRead b'x' syntax v (b'x' ∷ print_unsigned v) syntax
unfolding print_field operand register_operand
coproc_register-IsRead syntax v h =
    let reread = register-Rereads v h in
    record {
      printed = refl;
      reads = λ offset labels. ground (arith, reread.value);
      symbol = ground (arith, reread.symbol);
      short = omega (arith, reread.short);
      shorter = omega arith;
    }

pub unsigned-IsRead :
    (syntax rest : List ℕ) (numbits v : ℕ)
    → strtol 0 syntax ≡ (numbits, rest)
    → length rest ≤ length syntax
    → v < 2 ^ numbits
    → v < 2048
    → IsRead b'u' syntax v (b'#' ∷ print_unsigned v) rest
unfolding print_field operand unsigned_operand
unsigned-IsRead syntax rest numbits v e less h small =
    let reread = print_unsigned-Rereads v small in
    record {
      printed = ground (arith, e);
      reads = λ offset labels. ground (arith, reread.value, e);
      symbol = ground (arith, reread.symbol);
      short = omega (arith, reread.short);
      shorter = omega arith;
    }

-- The test for an overflow lets the value through.
abbrev InRange : ℕ → ℕ → Type 0
InRange numbits v = (int_gt v (2 ^ (numbits - 1) - 1) || int_lt_neg v (2 ^ (numbits - 1))) ≡ false

signed-IsRead :
    (syntax rest : List ℕ) (numbits v : ℕ)
    → strtol 0 syntax ≡ (numbits, rest)
    → length rest ≤ length syntax
    → InRange numbits v
    → Rereads 0 v (print_signed v)
    → IsRead b's' syntax v (b'#' ∷ print_signed v) rest
unfolding print_field operand signed_operand
signed-IsRead syntax rest numbits v e less h reread = record {
  printed = ground (arith, e);
  reads = λ offset labels. ground (arith, reread.value, e, h);
  symbol = ground (arith, reread.symbol);
  short = omega (arith, reread.short);
  shorter = omega arith;
}

module _ (v : ℕ) where
  abbrev pub SignedIsRead : ℕ → List ℕ → Type 0
  SignedIsRead numbits syntax =
      let field = signed_field numbits v in IsRead b's' syntax field (b'#' ∷ print_signed field) []

  pub signed_eleven-IsRead : v < 2 ^ 11 → SignedIsRead 11 (codes "11")
  unfolding strtol
  signed_eleven-IsRead h =
      signed-IsRead (codes "11") [] 11 (signed_field 11 v) refl (omega arith) (ground arith)
        (signed_eleven-Rereads v h)

  pub signed_eight-IsRead : v < 2 ^ 8 → SignedIsRead 8 (codes "8")
  unfolding strtol
  signed_eight-IsRead h =
      signed-IsRead (codes "8") [] 8 (signed_field 8 v) refl (omega arith) (ground arith)
        (signed_eight-Rereads v h)

  pub signed_five-IsRead : v < 2 ^ 5 → SignedIsRead 5 (codes "5")
  unfolding strtol
  signed_five-IsRead h =
      signed-IsRead (codes "5") [] 5 (signed_field 5 v) refl (omega arith) (ground arith)
        (signed_five-Rereads v h)
