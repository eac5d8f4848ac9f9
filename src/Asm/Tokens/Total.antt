-- ===== src/Asm/Tokens/Total.antt =====
-- Reading the input ends.
use cn.Common.{
  ℕ, zero, suc, ◌+◌, ◌≤◌, ◌<◌, ◌≡◌, refl, arith, true, false, ◌||◌, ◌&&◌, some, List, [], ◌∷◌,
  length, ◌==◌, Bool-cases, inl, inr, ◌⊎◌,
}
use cn.Asm.{Linedec, is_null}
use cn.Asm.Tokens.{readline, c_string, splitline, strip_comment, tokenize_lines, tokenize}

readline-rest : (left : ℕ) (input : List ℕ) → length (readline left input).1 ≤ length input
unfolding readline
readline-rest left [] = omega arith
readline-rest zero (c ∷ input) = omega (arith, readline-rest zero input)
readline-rest (suc left) (c ∷ input) = elim (Bool-cases (c == 10 || c == 0)) [
  | inl e ↦ rw e (omega arith)
  | inr e ↦ rw e (omega (arith, readline-rest left input))
]

-- A line with room for a byte takes one.
readline-shorter :
    (left c : ℕ) (input : List ℕ) → length (readline (suc left) (c ∷ input)).1 ≤ length input
unfolding readline
readline-shorter left c input = elim (Bool-cases (c == 10 || c == 0)) [
  | inl e ↦ rw e (omega arith)
  | inr e ↦ rw e (readline-rest left input)
]

List-cases {ℓ} : {A : Type ℓ} (xs : List A) → (xs ≡ []) ⊎ ((x : A) × (ys : List A) × (xs ≡ x ∷ ys))
List-cases [] = inl refl
List-cases (x ∷ xs) = inr (x, xs, refl)

module _ (fuel before linenum : ℕ) (input : List ℕ) where
  tokenize_lines-nil :
      (readline 255 input).0 ≡ [] → tokenize_lines (suc fuel) before linenum input ≡ some []
  unfolding tokenize_lines
  tokenize_lines-nil e = ground arith

  module _ (c : ℕ) (text : List ℕ) (e : (readline 255 input).0 ≡ c ∷ text) {lines : List Linedec}
      (h : tokenize_lines fuel before (linenum + 1) (readline 255 input).1 ≡ some lines) where
    line : Linedec
    line = splitline before (linenum + 1) (strip_comment (c_string (c ∷ text)))

    tokenize_lines-blank :
        (is_null line.op && is_null line.label) ≡ true
        → tokenize_lines (suc fuel) before linenum input ≡ some lines
    unfolding tokenize_lines line
    tokenize_lines-blank b = ground arith

    tokenize_lines-line :
        (is_null line.op && is_null line.label) ≡ false
        → tokenize_lines (suc fuel) before linenum input ≡ some (line ∷ lines)
    unfolding tokenize_lines line
    tokenize_lines-line b = ground arith

  -- One more line, or an empty one, is as good as those that follow.
  tokenize_lines_more :
      {lines : List Linedec}
      → tokenize_lines fuel before (linenum + 1) (readline 255 input).1 ≡ some lines
      → (found : List Linedec) × (tokenize_lines (suc fuel) before linenum input ≡ some found)
  tokenize_lines_more {lines} h = elim (List-cases (readline 255 input).0) [
    | inl e ↦ ([], tokenize_lines-nil e)
    | inr (c, text, e) ↦
        elim (Bool-cases (is_null (line c text e h).op && is_null (line c text e h).label)) [
          | inl b ↦ (lines, tokenize_lines-blank c text e h b)
          | inr b ↦ (line c text e h ∷ lines, tokenize_lines-line c text e h b)
        ]
  ]

-- With more fuel than bytes the loop gives lines.
tokenize_lines-some :
    (fuel before linenum : ℕ) (input : List ℕ)
    → length input < fuel
    → (lines : List Linedec) × (tokenize_lines fuel before linenum input ≡ some lines)
tokenize_lines-some zero before linenum input h = elim h [ ]
tokenize_lines-some (suc fuel) before linenum [] h =
    ([], unfold tokenize_lines in (unfold readline in refl))
tokenize_lines-some (suc fuel) before linenum (c ∷ input) h =
    let (lines, e) =
      tokenize_lines-some fuel before (linenum + 1) (readline 255 (c ∷ input)).1
        (omega (arith, readline-shorter 254 c input)) in
    tokenize_lines_more fuel before linenum (c ∷ input) e

-- `tokenize` comes to the end of every input: each call of `readline` on what is left of it takes
-- at least one byte.
pub tokenize-some :
    (before : ℕ) (input : List ℕ) → (lines : List Linedec) × (tokenize before input ≡ some lines)
unfolding tokenize
tokenize-some before input = tokenize_lines-some (suc (length input)) before 0 input (omega arith)
