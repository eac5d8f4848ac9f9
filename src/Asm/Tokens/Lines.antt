-- ===== src/Asm/Tokens/Lines.antt =====
-- A line as it is written for one instruction, read by `splitline` and `tokenize`.
use cn.Common.{
  ℕ, suc, ◌+◌, ◌≤◌, ◌<◌, ◌≡◌, refl, ap, ◌∙◌, arith, Bool, true, false, ◌||◌, ◌&&◌, not, Option,
  none, some, List, [], ◌∷◌, ◌++◌, every, every-append, every-implies, All, length, ◌==◌,
}
use cn.Instr.Table.{codes}
use cn.Asm.{Linedec}
use cn.Asm.Tokens.{
  readline, c_string, issymchar, nextsym, split_at, split_args, split_op, splitline, strip_comment,
  tokenize_lines,
}
use cn.Asm.Tokens.Reading.{
  IsSymbol, joined, nextsym-append, split_args-joined, split_args-skip, split_at-none,
  readline-append,
}

-- The bytes of such a line, without a comment and with its newline.
abbrev pub plain : ℕ → Bool
plain c = issymchar c || c == 32 || c == 44 || c == 10

-- Every byte but the newline and the NUL.
abbrev pub inner : ℕ → Bool
inner c = not (c == 0) && not (c == 10)

plain-issymchar : (c : ℕ) → issymchar c ≡ true → plain c ≡ true
plain-issymchar c h = rw h refl

inner-issymchar : (c : ℕ) → issymchar c ≡ true → inner c ≡ true
inner-issymchar c h = ground arith

-- A class of bytes with those of symbols, the space and the comma.
module _ (p : ℕ → Bool) (symbols : (c : ℕ) → issymchar c ≡ true → p c ≡ true) (space : p 32 ≡ true)
    (comma : p 44 ≡ true) where
  IsSymbol-every : (text : List ℕ) → IsSymbol text → every p text ≡ true
  IsSymbol-every [] h = refl
  IsSymbol-every (c ∷ text) h = every-implies issymchar p (c ∷ text) symbols h

  separator-every : every p (codes ", ") ≡ true
  separator-every = rw (comma, space) refl

  joined-every : (texts : List (List ℕ)) → All IsSymbol texts → every p (joined texts) ≡ true
  joined-every [] all = refl
  joined-every (text ∷ []) (h, all) = IsSymbol-every text h
  joined-every (text ∷ next ∷ texts) (h, all) = every-append p text _ (IsSymbol-every text h) (
      every-append p (codes ", ") (joined (next ∷ texts)) separator-every
        (joined-every (next ∷ texts) all))

  spaced-every :
      (nmemonic rest : List ℕ)
      → IsSymbol nmemonic
      → every p rest ≡ true
      → every p (nmemonic ++ 32 ∷ rest) ≡ true
  spaced-every nmemonic rest h hr =
      every-append p nmemonic (32 ∷ rest) (IsSymbol-every nmemonic h) (rw space hr)

-- The line of an instruction, ended by the byte `stop`.
abbrev pub written : List ℕ → List (List ℕ) → ℕ → List ℕ
written nmemonic texts stop = nmemonic ++ 32 ∷ (joined texts ++ stop ∷ [])

abbrev pub instruction : ℕ → List ℕ → List (List ℕ) → Linedec
instruction linenum nmemonic texts = record {
  linenum = linenum;
  label = none;
  op = some nmemonic;
  args = texts;
}

pub written-plain :
    (nmemonic : List ℕ) (texts : List (List ℕ)) (stop : ℕ)
    → IsSymbol nmemonic
    → All IsSymbol texts
    → plain stop ≡ true
    → every plain (written nmemonic texts stop) ≡ true
written-plain nmemonic texts stop h all hs =
    spaced-every plain plain-issymchar refl refl nmemonic _ h (
      every-append plain (joined texts) (stop ∷ [])
        (joined-every plain plain-issymchar refl refl texts all) (rw hs refl))

-- The same without its end has no newline.
pub unended-inner :
    (nmemonic : List ℕ) (texts : List (List ℕ))
    → IsSymbol nmemonic
    → All IsSymbol texts
    → every inner (nmemonic ++ 32 ∷ joined texts) ≡ true
unended-inner nmemonic texts h all =
    spaced-every inner inner-issymchar refl refl nmemonic _ h
      (joined-every inner inner-issymchar refl refl texts all)

split_op-some :
    (linenum : ℕ) (label : Option (List ℕ)) (line op rest : List ℕ) (before : ℕ)
    → nextsym line ≡ some (op, rest)
    → split_op linenum label line before
      ≡ record { linenum = linenum; label = label; op = some op; args = split_args 3 rest }
unfolding split_op
split_op-some linenum label line op rest before e = ground arith

splitline-unlabelled :
    (before linenum : ℕ) (text line : List ℕ)
    → split_at b';' text ≡ (line, none)
    → split_at b':' line ≡ (line, none)
    → splitline before linenum text ≡ split_op linenum none line before
unfolding splitline
splitline-unlabelled before linenum text line e e' = ground arith

tokenize_lines-step :
    (fuel before linenum c : ℕ) (input text input' : List ℕ) (line : Linedec) (op : List ℕ)
    {lines : List Linedec}
    → readline 255 input ≡ (c ∷ text, input')
    → splitline before (linenum + 1) (strip_comment (c_string (c ∷ text))) ≡ line
    → line.op ≡ some op
    → tokenize_lines fuel before (linenum + 1) input' ≡ some lines
    → tokenize_lines (suc fuel) before linenum input ≡ some (line ∷ lines)
unfolding tokenize_lines
tokenize_lines-step fuel before linenum c input text input' line op e es eo more = ground arith

split_op-written :
    (linenum : ℕ) (nmemonic : List ℕ) (texts : List (List ℕ)) (stop before : ℕ)
    → IsSymbol nmemonic
    → All IsSymbol texts
    → length texts ≤ 3
    → issymchar stop ≡ false
    → split_op linenum none (written nmemonic texts stop) before
      ≡ instruction linenum nmemonic texts
split_op-written linenum [] texts stop before empty all three ends = absurd empty
split_op-written linenum (c ∷ nmemonic) texts stop before h all three ends =
    let rest = joined texts ++ stop ∷ [] in
    split_op-some linenum none _ _ _ before (nextsym-append 32 rest refl c nmemonic h)
    ∙ ap (λ (t : List (List ℕ)). instruction linenum (c ∷ nmemonic) t)
        (split_args-skip 3 32 rest refl ∙ split_args-joined 3 texts stop three all ends)

splitline-written :
    (before linenum : ℕ) (nmemonic : List ℕ) (texts : List (List ℕ)) (stop : ℕ)
    → IsSymbol nmemonic
    → All IsSymbol texts
    → length texts ≤ 3
    → issymchar stop ≡ false
    → plain stop ≡ true
    → splitline before linenum (written nmemonic texts stop) ≡ instruction linenum nmemonic texts
splitline-written before linenum nmemonic texts stop h all three ends hs =
    let line = written nmemonic texts stop in
    let fine = written-plain nmemonic texts stop h all hs in
    splitline-unlabelled before linenum line line (split_at-none plain b';' line refl fine)
      (split_at-none plain b':' line refl fine)
    ∙ split_op-written linenum nmemonic texts stop before h all three ends

-- What is left of a printed line, ended by its newline, once its comment is cut off.
abbrev pub Leaves : List ℕ → List ℕ → Type 0
Leaves body line = strip_comment (c_string (body ++ 10 ∷ [])) ≡ line

-- A printed line at the front of the input becomes an instruction.
pub tokenize_lines-written :
    (fuel before linenum c : ℕ) (body input nmemonic : List ℕ) (texts : List (List ℕ)) (stop : ℕ)
    {lines : List Linedec}
    → every inner (c ∷ body) ≡ true
    → length (c ∷ body) < 255
    → Leaves (c ∷ body) (written nmemonic texts stop)
    → IsSymbol nmemonic
    → All IsSymbol texts
    → length texts ≤ 3
    → issymchar stop ≡ false
    → plain stop ≡ true
    → tokenize_lines fuel before (linenum + 1) input ≡ some lines
    → tokenize_lines (suc fuel) before linenum (c ∷ body ++ 10 ∷ input)
      ≡ some (instruction (linenum + 1) nmemonic texts ∷ lines)
tokenize_lines-written fuel before linenum c body input nmemonic texts stop inside short leaves h
      all three ends hs more =
    tokenize_lines-step fuel before linenum c _ (body ++ 10 ∷ []) input _ nmemonic
      (readline-append inner 255 (c ∷ body) input refl refl inside short)
      (ap (splitline before (linenum + 1)) leaves
        ∙ splitline-written before (linenum + 1) nmemonic texts stop h all three ends hs)
      refl more
