-- ===== src/Dasm/Lines.antt =====
-- The line that is printed for a word.
use mathlib.Core.List.{append_assoc}
use cn.Common.{
  ℕ, ◌/◌, ◌%◌, ◌^◌, ◌<◌, ◌≤◌, ◌≡◌, refl, arith, ap, sym, ◌∙◌, Bool, true, false, not, Option, List,
  [], ◌∷◌, ◌++◌, every, every-append, every-implies, length, length-append, ◌==◌,
}
use cn.Common.Outcome.{ok}
use cn.Instr.Table.{codes}
use cn.Asm.Tokens.{issymchar, c_string, strip_comment}
use cn.Asm.Tokens.Reading.{joined, split_at-none, split_at-append, c_string-every}
use cn.Asm.Tokens.Lines.{plain, inner, written, written-plain, unended-inner, Leaves}
use cn.Dasm.{print_line, print_word, hex_digit}
use cn.Dasm.Fields.{AreRead-symbols, AreRead-short}
use cn.Dasm.Words.{IsUnderstood}
use cn.Dasm.Instructions.{disassemble-joined, three_texts}

hex_digit-inner : (n : ℕ) → inner (hex_digit (n % 16)) ≡ true
hex_digit-inner n = ground arith

remark : ℕ → List ℕ
remark w = codes " ; " ++ print_word w

remark-inner : (w : ℕ) → every inner (remark w) ≡ true
unfolding remark
remark-inner w =
    rw
      (
        hex_digit-inner (w / 2 ^ 12),
        hex_digit-inner (w / 2 ^ 8),
        hex_digit-inner (w / 2 ^ 4),
        hex_digit-inner w,
      )
      refl

-- A line of a word: its bytes before the newline, and the byte that ends what is left without a
-- comment.
pub record IsLine (comment : Bool) (w : ℕ) (nmemonic : List ℕ) (texts : List (List ℕ))
    : Type 0 where
  pub body : List ℕ
  pub stop : ℕ
  pub printed : print_line false comment w ≡ ok (body ++ 10 ∷ [])
  pub leaves : Leaves body (written nmemonic texts stop)
  pub inside : every inner body ≡ true
  pub short : length body < 255
  pub some_byte : 0 < length body
  pub ends : issymchar stop ≡ false
  pub fine : plain stop ≡ true

nonzero-inner : (c : ℕ) → inner c ≡ true → not (c == 0) ≡ true
nonzero-inner c h = ground arith

module _ {w : ℕ} (u : IsUnderstood w) where
  text : List ℕ
  text = u.spec.nmemonic ++ 32 ∷ joined u.operands.texts

  text-ended : (stop : ℕ) → text ++ stop ∷ [] ≡ written u.spec.nmemonic u.operands.texts stop
  unfolding text
  text-ended stop = append_assoc u.spec.nmemonic (32 ∷ joined u.operands.texts) (stop ∷ [])

  text-inner : every inner text ≡ true
  unfolding text
  text-inner =
      unended-inner u.spec.nmemonic u.operands.texts u.row.symbol (AreRead-symbols u.operands.reads)

  text-plain :
      (stop : ℕ)
      → plain stop ≡ true
      → every plain (written u.spec.nmemonic u.operands.texts stop) ≡ true
  text-plain stop =
      written-plain u.spec.nmemonic u.operands.texts stop u.row.symbol
        (AreRead-symbols u.operands.reads)

  text-short : length text ≤ 30
  unfolding text
  text-short = omega (
    arith,
    u.row.short,
    AreRead-short u.operands.reads,
    three_texts u,
    length-append u.spec.nmemonic (32 ∷ joined u.operands.texts),
  )

  text-some : 0 < length text
  unfolding text
  text-some = omega (arith, length-append u.spec.nmemonic (32 ∷ joined u.operands.texts))

  bare-Leaves : Leaves text (written u.spec.nmemonic u.operands.texts 10)
  bare-Leaves =
      let fine = text-plain 10 refl in
      ap (λ (t : List ℕ). strip_comment (c_string t)) (text-ended 10)
      ∙ ap strip_comment (c_string-every plain _ refl fine)
      ∙ ap (λ (r : List ℕ × Option (List ℕ)). r.0) (split_at-none plain b';' _ refl fine)

  -- What follows the semicolon.
  comment : List ℕ
  comment = 32 ∷ (print_word w ++ 10 ∷ [])

  remarked-split :
      (text ++ remark w) ++ 10 ∷ [] ≡ written u.spec.nmemonic u.operands.texts 32 ++ b';' ∷ comment
  unfolding remark comment
  remarked-split =
      append_assoc text (remark w) (10 ∷ [])
      ∙ sym (append_assoc text (32 ∷ []) (b';' ∷ comment))
      ∙ ap (λ (t : List ℕ). t ++ b';' ∷ comment) (text-ended 32)

  remarked-nonzero : every (λ c. not (c == 0)) ((text ++ remark w) ++ 10 ∷ []) ≡ true
  remarked-nonzero =
      every-append (λ c. not (c == 0)) (text ++ remark w) (10 ∷ [])
        (every-implies inner (λ c. not (c == 0)) (text ++ remark w) nonzero-inner
          (every-append inner text (remark w) text-inner (remark-inner w)))
        refl

  remarked-Leaves : Leaves (text ++ remark w) (written u.spec.nmemonic u.operands.texts 32)
  remarked-Leaves =
      ap strip_comment (c_string-every (λ c. not (c == 0)) _ refl remarked-nonzero ∙ remarked-split)
      ∙ ap (λ (r : List ℕ × Option (List ℕ)). r.0)
          (split_at-append plain b';' _ comment refl (text-plain 32 refl))

  bare-IsLine : IsLine false w u.spec.nmemonic u.operands.texts
  unfolding print_line text
  bare-IsLine = record {
    body = text;
    stop = 10;
    printed = rw (disassemble-joined u) refl;
    leaves = bare-Leaves;
    inside = text-inner;
    short = omega (arith, text-short);
    some_byte = text-some;
    ends = refl;
    fine = refl;
  }

  remarked-IsLine : IsLine true w u.spec.nmemonic u.operands.texts
  unfolding print_line text remark
  remarked-IsLine = record {
    body = text ++ remark w;
    stop = 32;
    printed = rw (disassemble-joined u) (ap ok (sym (append_assoc text (remark w) (10 ∷ []))));
    leaves = remarked-Leaves;
    inside = every-append inner text (remark w) text-inner (remark-inner w);
    short = omega (arith, text-short, length-append text (remark w));
    some_byte = omega (arith, text-some, length-append text (remark w));
    ends = refl;
    fine = refl;
  }

  -- With or without comments, a word has a line.
  pub word-IsLine : (b : Bool) → IsLine b w u.spec.nmemonic u.operands.texts
  word-IsLine false = bare-IsLine
  word-IsLine true = remarked-IsLine
