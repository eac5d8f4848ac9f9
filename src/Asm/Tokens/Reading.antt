-- ===== src/Asm/Tokens/Reading.antt =====
-- How the symbols of a line are read.
use mathlib.Core.List.{append_assoc}
use cn.Common.{
  ℕ, zero, suc, ◌≤◌, ◌<◌, ◌≡◌, refl, ap, ◌∙◌, arith, Bool, true, false, none, some, List, [], ◌∷◌,
  ◌++◌, every, All, length, ◌==◌, Bool-cases, inl, inr,
}
use cn.Instr.Table.{codes}
use cn.Asm.Tokens.{readline, c_string, issymchar, symbol, nextsym, split_at, split_args}

module _ (stop : ℕ) (rest : List ℕ) (ends : issymchar stop ≡ false) where
  symbol-append :
      (text : List ℕ)
      → every issymchar text ≡ true
      → symbol (text ++ stop ∷ rest) ≡ (text, stop ∷ rest)
  unfolding symbol
  symbol-append [] h = rw ends refl
  symbol-append (c ∷ text) h = ground (arith, symbol-append text)

  pub nextsym-append :
      (c : ℕ) (text : List ℕ)
      → every issymchar (c ∷ text) ≡ true
      → nextsym (c ∷ text ++ stop ∷ rest) ≡ some (c ∷ text, stop ∷ rest)
  unfolding nextsym
  nextsym-append c text h = ground (arith, symbol-append (c ∷ text))

nextsym-skip : (c : ℕ) (text : List ℕ) → issymchar c ≡ false → nextsym (c ∷ text) ≡ nextsym text
unfolding nextsym
nextsym-skip c text h = rw h refl

-- The printed operands.
abbrev pub joined : List (List ℕ) → List ℕ
joined [] = []
joined (text ∷ []) = text
joined (text ∷ next ∷ texts) = text ++ (codes ", " ++ joined (next ∷ texts))

-- A symbol is not empty.
abbrev pub IsSymbol : List ℕ → Type 0
IsSymbol [] = ⊥
IsSymbol (c ∷ text) = every issymchar (c ∷ text) ≡ true

split_args-none : (left : ℕ) (text : List ℕ) → nextsym text ≡ none → split_args left text ≡ []
unfolding split_args
split_args-none zero text h = refl
split_args-none (suc left) text h = ground arith

pub split_args-skip :
    (left c : ℕ) (text : List ℕ)
    → issymchar c ≡ false
    → split_args left (c ∷ text) ≡ split_args left text
unfolding split_args
split_args-skip zero c text h = refl
split_args-skip (suc left) c text h = ground (arith, nextsym-skip c text h)

split_args-some :
    (left : ℕ) (text arg rest : List ℕ)
    → nextsym text ≡ some (arg, rest)
    → split_args (suc left) text ≡ arg ∷ split_args left rest
unfolding split_args
split_args-some left text arg rest h = ground arith

pub split_args-joined :
    (left : ℕ) (texts : List (List ℕ)) (stop : ℕ)
    → length texts ≤ left
    → All IsSymbol texts
    → issymchar stop ≡ false
    → split_args left (joined texts ++ stop ∷ []) ≡ texts
split_args-joined left [] stop hl all ends =
    split_args-skip left stop [] ends ∙ split_args-none left [] (unfold nextsym in refl)
split_args-joined zero (text ∷ texts) stop hl all ends = elim hl [ ]
split_args-joined (suc left) ([] ∷ texts) stop hl (empty, all) ends = absurd empty
split_args-joined (suc left) ((c ∷ text) ∷ []) stop hl (h, all) ends =
    split_args-some left _ (c ∷ text) (stop ∷ []) (nextsym-append stop [] ends c text h)
    ∙ ap (λ (t : List (List ℕ)). (c ∷ text) ∷ t)
        (split_args-joined left [] stop (omega arith) tt ends)
split_args-joined (suc left) ((c ∷ text) ∷ next ∷ texts) stop hl (h, all) ends =
    let tail = joined (next ∷ texts) ++ stop ∷ [] in
    let regroup : joined ((c ∷ text) ∷ next ∷ texts) ++ stop ∷ [] ≡ c ∷ text ++ 44 ∷ 32 ∷ tail =
      simp append_assoc in
    rw regroup (
      split_args-some left _ (c ∷ text) (44 ∷ 32 ∷ tail)
        (nextsym-append 44 (32 ∷ tail) refl c text h)
      ∙ ap (λ (t : List (List ℕ)). (c ∷ text) ∷ t)
          (split_args-skip left 44 (32 ∷ tail) refl
            ∙ split_args-skip left 32 tail refl
            ∙ split_args-joined left (next ∷ texts) stop (omega arith) all ends))

-- What a class of bytes does not have does not divide a text of that class.
pub split_at-none :
    (p : ℕ → Bool) (mark : ℕ) (text : List ℕ)
    → p mark ≡ false
    → every p text ≡ true
    → split_at mark text ≡ (text, none)
unfolding split_at
split_at-none p mark [] out h = refl
split_at-none p mark (c ∷ text) out h = elim (Bool-cases (c == mark)) [
  | inl e ↦ let same : c ≡ mark = ground arith in absurd (ground (arith, ap p same))
  | inr e ↦ rw e (rw (split_at-none p mark text out (ground arith)) refl)
]

pub split_at-append :
    (p : ℕ → Bool) (mark : ℕ) (text rest : List ℕ)
    → p mark ≡ false
    → every p text ≡ true
    → split_at mark (text ++ mark ∷ rest) ≡ (text, some rest)
unfolding split_at
split_at-append p mark [] rest out h = ground arith
split_at-append p mark (c ∷ text) rest out h = elim (Bool-cases (c == mark)) [
  | inl e ↦ let same : c ≡ mark = ground arith in absurd (ground (arith, ap p same))
  | inr e ↦ rw e (rw (split_at-append p mark text rest out (ground arith)) refl)
]

pub c_string-every :
    (p : ℕ → Bool) (text : List ℕ) → p 0 ≡ false → every p text ≡ true → c_string text ≡ text
unfolding c_string
c_string-every p [] out h = refl
c_string-every p (c ∷ text) out h = elim (Bool-cases (c == 0)) [
  | inl e ↦ let same : c ≡ 0 = ground arith in absurd (ground (arith, ap p same))
  | inr e ↦ rw e (ap (λ (t : List ℕ). c ∷ t) (c_string-every p text out (ground arith)))
]

-- A line of at most 254 bytes before its newline is read whole.
pub readline-append :
    (p : ℕ → Bool) (left : ℕ) (text input : List ℕ)
    → p 0 ≡ false
    → p 10 ≡ false
    → every p text ≡ true
    → length text < left
    → readline left (text ++ 10 ∷ input) ≡ (text ++ 10 ∷ [], input)
unfolding readline
readline-append p zero text input out0 out10 h short = elim short [ ]
readline-append p (suc left) [] input out0 out10 h short = refl
readline-append p (suc left) (c ∷ text) input out0 out10 h short = elim (Bool-cases (c == 0)) [
  | inl e ↦ let same : c ≡ 0 = ground arith in absurd (ground (arith, ap p same))
  | inr e ↦ elim (Bool-cases (c == 10)) [
    | inl n ↦ let same : c ≡ 10 = ground arith in absurd (ground (arith, ap p same))
    | inr n ↦
        rw (e, n)
          (rw (readline-append p left text input out0 out10 (ground arith) (omega arith)) refl)
  ]
]
