-- ===== src/Asm/Tokens.antt =====
-- `readline`, `nextsym`, `splitline` and `tokenize` of asm.c.
mod Tests
pub mod Reading
pub mod Lines
pub mod Total
use cn.Common.{
  ℕ, zero, suc, ◌+◌, Bool, true, false, ◌||◌, ◌&&◌, Option, none, some, List, [], ◌∷◌, length, ◌==◌,
  if◌then◌else◌,
}
use cn.Text.{isalnum}
use cn.Asm.{Linedec, is_null}

-- `strchr("\n", c)` also finds the NUL.
abbrev is_sentinel : ℕ → Bool
is_sentinel c = c == 10 || c == 0

-- `readline`, where `left` is `bufmax - 1 - bufoff`: the line and what is left of the input. The
-- file ends where `read` gives nothing.
unfoldable pub readline : ℕ → List ℕ → List ℕ × List ℕ
readline left [] = ([], [])
readline zero (c ∷ input) = readline zero input
readline (suc left) (c ∷ input) =
    let (line, rest) = readline left input in
    if is_sentinel c then (c ∷ [], input) else (c ∷ line, rest)

-- What a function that takes a C string sees of a buffer: the bytes before the first NUL.
unfoldable pub c_string : List ℕ → List ℕ
c_string [] = []
c_string (c ∷ text) = let rest = c_string text in if c == 0 then [] else c ∷ rest

abbrev pub issymchar : ℕ → Bool
issymchar c =
    isalnum c
    || c == b'_'
    || c == b'.'
    || c == b'#'
    || c == b'@'
    || c == b'%'
    || c == b'-'
    || c == b'+'

-- The second loop of `nextsym`: the symbol, and the text from `symend` on.
unfoldable pub symbol : List ℕ → List ℕ × List ℕ
symbol [] = ([], [])
symbol (c ∷ text) =
    let (sym, rest) = symbol text in if issymchar c then (c ∷ sym, rest) else ([], c ∷ text)

-- `nextsym` with `issymchar`; `none` is its -1.
unfoldable pub nextsym : List ℕ → Option (List ℕ × List ℕ)
unfolding symbol
nextsym [] = none
nextsym (c ∷ text) =
    let rest = nextsym text in if issymchar c then some (symbol (c ∷ text)) else rest

-- The text before the first `mark`, and what follows it.
unfoldable pub split_at : ℕ → List ℕ → List ℕ × Option (List ℕ)
split_at mark [] = ([], none)
split_at mark (c ∷ text) =
    let (before, after) = split_at mark text in
    if c == mark then ([], some text) else (c ∷ before, after)

-- A comment is cut off.
abbrev pub strip_comment : List ℕ → List ℕ
strip_comment line = (split_at b';' line).0

-- At most `left` symbols: the members of `args`.
unfoldable pub split_args : ℕ → List ℕ → List (List ℕ)
unfolding nextsym
split_args zero line = []
split_args (suc left) line = elim (nextsym line) [
  | none ↦ []
  | some (arg, rest) ↦ arg ∷ split_args left rest
]

abbrev symbol_of : Option (List ℕ × List ℕ) → Option (List ℕ)
symbol_of none = none
symbol_of (some (sym, rest)) = some sym

-- From `extract op` on, where `before` is the byte before `line`. Where there is no `op`, the -1 of
-- `nextsym` moves `line` back to that byte.
unfoldable pub split_op : ℕ → Option (List ℕ) → List ℕ → ℕ → Linedec
unfolding split_args
split_op linenum label line before = elim (nextsym line) [
  | none ↦ record {
    linenum = linenum;
    label = label;
    op = none;
    args = split_args 3 (if before == 0 then [] else before ∷ line);
  }
  | some (op, rest) ↦ record {
    linenum = linenum;
    label = label;
    op = some op;
    args = split_args 3 rest;
  }
]

-- `splitline` into a cleared `split`. `before` is the byte in front of the buffer.
unfoldable pub splitline : ℕ → ℕ → List ℕ → Linedec
unfolding split_op split_at
splitline before linenum text =
    let line = strip_comment text in
    elim (split_at b':' line).1 [
      | none ↦ split_op linenum none line before
      | some rest ↦ split_op linenum (symbol_of (nextsym line)) rest b':'
    ]

-- The loop of `tokenize` with `sizeof(linebuf)` 256. Each line takes fuel.
unfoldable pub tokenize_lines : ℕ → ℕ → ℕ → List ℕ → Option (List Linedec)
unfolding readline c_string splitline
tokenize_lines zero before linenum input = none
tokenize_lines (suc fuel) before linenum input =
    let (linebuf, input') = readline 255 input in
    let line = splitline before (linenum + 1) (strip_comment (c_string linebuf)) in
    let more = tokenize_lines fuel before (linenum + 1) input' in
    elim linebuf [
      | [] ↦ some []
      | c ∷ text ↦
          if is_null line.op && is_null line.label
          then more
          else elim more [ none ↦ none | some lines ↦ some (line ∷ lines) ]
    ]

-- `tokenize`. A line is at least one byte of the input.
unfoldable pub tokenize : ℕ → List ℕ → Option (List Linedec)
unfolding tokenize_lines
tokenize before input = tokenize_lines (suc (length input)) before 0 input
