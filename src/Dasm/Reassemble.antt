-- ===== src/Dasm/Reassemble.antt =====
-- An image that is disassembled and assembled again.
use mathlib.Core.List.{append_assoc}
use cn.Common.{
  ℕ, zero, suc, ◌+◌, ◌-◌, ◌^◌, ◌<◌, ◌≤◌, ◌≡◌, refl, arith, ap, ◌∙◌, Bool, true, false, some, List,
  [], ◌∷◌, ◌++◌, All, every, length, length-append, update, ◌==◌,
}
use cn.Common.Words.{u32}
use cn.Common.Outcome.{ok, ◌>>=◌}
use cn.Instr.{decode_instruction}
use cn.Instr.Table.{codes}
use cn.Text.{same_text}
use cn.Asm.{Linedec, Labeldec, max_words, generate_labels}
use cn.Asm.Opcodes.{Pass, put_word, update_max, assemble_line, opcode_line}
use cn.Asm.Tokens.{issymchar, tokenize_lines}
use cn.Asm.Tokens.Reading.{IsSymbol}
use cn.Asm.Tokens.Lines.{plain, inner, written, instruction, Leaves, tokenize_lines-written}
use cn.Dasm.{print_line, print_lines}
use cn.Dasm.Fields.{AreRead-symbols}
use cn.Dasm.Words.{IsUnderstood, word-IsUnderstood}
use cn.Dasm.Instructions.{three_texts, instruction_line-reads}
use cn.Dasm.Lines.{IsLine, word-IsLine}

-- The line of a word.
pub line_of : ℕ → ℕ → Linedec
line_of linenum w =
    let u = word-IsUnderstood w in instruction linenum u.spec.nmemonic u.operands.texts

unfoldable pub lines_of : ℕ → List ℕ → List Linedec
lines_of linenum [] = []
lines_of linenum (w ∷ words) = line_of (linenum + 1) w ∷ lines_of (linenum + 1) words

tokenize_lines-body :
    (fuel before linenum : ℕ) (body input nmemonic : List ℕ) (texts : List (List ℕ)) (stop : ℕ)
    {lines : List Linedec}
    → 0 < length body
    → every inner body ≡ true
    → length body < 255
    → Leaves body (written nmemonic texts stop)
    → IsSymbol nmemonic
    → All IsSymbol texts
    → length texts ≤ 3
    → issymchar stop ≡ false
    → plain stop ≡ true
    → tokenize_lines fuel before (linenum + 1) input ≡ some lines
    → tokenize_lines (suc fuel) before linenum (body ++ 10 ∷ input)
      ≡ some (instruction (linenum + 1) nmemonic texts ∷ lines)
tokenize_lines-body fuel before linenum [] input nmemonic texts stop h = elim h [ ]
tokenize_lines-body fuel before linenum (c ∷ body) input nmemonic texts stop h =
    tokenize_lines-written fuel before linenum c body input nmemonic texts stop

print_lines_step :
    (comment : Bool) (len w : ℕ) (words line lines : List ℕ)
    → 0 < len
    → len < 2 ^ 32
    → print_line false comment w ≡ ok line
    → print_lines false comment 0 (len - 1) words ≡ ok lines
    → print_lines false comment 0 len (w ∷ words) ≡ ok (line ++ lines)
unfolding print_lines
print_lines_step comment len w words line lines pos small e e' =
    let some_left : (len == 0) ≡ false = ground arith in
    let less : u32 (len + 2 ^ 32 - 1) ≡ len - 1 = omega arith in rw (some_left, less, e, e') refl

-- The text of the words, and the lines that it is read as.
module _ (comment : Bool) (before : ℕ) where
  tokenize_lines-nil :
      (linenum fuel : ℕ) → 0 < fuel → tokenize_lines fuel before linenum [] ≡ some []
  unfolding tokenize_lines
  tokenize_lines-nil linenum zero h = elim h [ ]
  tokenize_lines-nil linenum (suc fuel) h = refl

  line-read :
      {w : ℕ} (u : IsUnderstood w) (l : IsLine comment w u.spec.nmemonic u.operands.texts)
      (fuel linenum : ℕ) (text : List ℕ) (lines : List Linedec)
      → ((f : ℕ) → length text < f → tokenize_lines f before (linenum + 1) text ≡ some lines)
      → length ((l.body ++ 10 ∷ []) ++ text) < fuel
      → tokenize_lines fuel before linenum ((l.body ++ 10 ∷ []) ++ text)
        ≡ some (instruction (linenum + 1) u.spec.nmemonic u.operands.texts ∷ lines)
  line-read u l zero linenum text lines reads h = elim h [ ]
  line-read u l (suc fuel) linenum text lines reads h =
      let sized = length-append (l.body ++ 10 ∷ []) text in
      let ended = length-append l.body (10 ∷ []) in
      ap (tokenize_lines (suc fuel) before linenum) (append_assoc l.body (10 ∷ []) text)
      ∙ tokenize_lines-body fuel before linenum l.body text u.spec.nmemonic u.operands.texts l.stop
          l.some_byte l.inside l.short l.leaves u.row.symbol (AreRead-symbols u.operands.reads)
          (three_texts u) l.ends l.fine (reads fuel (omega arith))

  pub tokenize_lines-print_lines :
      (words : List ℕ) (len linenum : ℕ)
      → length words ≤ len
      → len < 2 ^ 32
      → (text : List ℕ) × (print_lines false comment 0 len words ≡ ok text)
        × ((fuel : ℕ)
            → length text < fuel
            → tokenize_lines fuel before linenum text ≡ some (lines_of linenum words))
  unfolding lines_of line_of
  tokenize_lines-print_lines [] len linenum enough small =
      ([], unfold print_lines in refl, tokenize_lines-nil linenum)
  tokenize_lines-print_lines (w ∷ words) len linenum enough small =
      let u = word-IsUnderstood w in
      let l = word-IsLine u comment in
      let (text, e, reads) =
        tokenize_lines-print_lines words (len - 1) (linenum + 1) (omega arith) (omega arith) in
      (
        (l.body ++ 10 ∷ []) ++ text,
        print_lines_step comment len w words (l.body ++ 10 ∷ []) text (omega arith) small l.printed
            e,
        λ fuel h. line-read u l fuel linenum text (lines_of (linenum + 1) words) reads h,
      )

-- The words of the image from `i` on decode like `words`.
abbrev pub SameInstructions : List ℕ → (ℕ → ℕ) → ℕ → Type 0
SameInstructions [] image i = Unit
SameInstructions (w ∷ words) image i =
    (decode_instruction (image i) ≡ decode_instruction w) × SameInstructions words image (i + 1)

generate_labels_unlabelled :
    (offset linenum : ℕ) (nmemonic : List ℕ) (texts : List (List ℕ)) (lines : List Linedec)
    → same_text nmemonic (codes ".org") ≡ false
    → generate_labels (u32 (offset + 1)) lines ≡ ok []
    → generate_labels offset (instruction linenum nmemonic texts ∷ lines) ≡ ok []
unfolding generate_labels
generate_labels_unlabelled offset linenum nmemonic texts lines e h = rw (e, h) refl

-- The lines hold no labels.
pub generate_labels-lines_of :
    (words : List ℕ) (offset linenum : ℕ) → generate_labels offset (lines_of linenum words) ≡ ok []
unfolding lines_of line_of
generate_labels-lines_of [] offset linenum = unfold generate_labels in refl
generate_labels-lines_of (w ∷ words) offset linenum =
    let u = word-IsUnderstood w in
    generate_labels_unlabelled offset (linenum + 1) u.spec.nmemonic u.operands.texts
      (lines_of (linenum + 1) words) u.row.no_org
      (generate_labels-lines_of words (u32 (offset + 1)) (linenum + 1))

put_word_next :
    (word : ℕ) (p : Pass)
    → p.offset ≡ p.offset_max
    → p.offset + 1 < max_words
    → (put_word word p >>= update_max)
      ≡ ok (record p {
        offset = p.offset + 1;
        offset_max = p.offset + 1;
        outbuf = update p.outbuf p.offset word;
      })
unfolding put_word update_max
put_word_next word p e h = ground arith

pub opcode_line-line_of :
    (labels : List Labeldec) (linenum w : ℕ) (p : Pass)
    → p.offset ≡ p.offset_max
    → p.offset + 1 < max_words
    → (word : ℕ) × (syntax : List ℕ) × (opcode_line labels (line_of linenum w) p
        ≡ ok (record {
          offset = p.offset + 1;
          offset_max = p.offset + 1;
          outbuf = update p.outbuf p.offset word;
          syntax = some syntax;
        }))
      × (decode_instruction word ≡ decode_instruction w)
unfolding opcode_line assemble_line line_of
opcode_line-line_of labels linenum w p e h =
    let u = word-IsUnderstood w in
    let (word, ew, same) = instruction_line-reads u labels linenum p in
    (
      word,
      u.spec.syntax,
      rw (u.row.no_data, u.row.no_org, ew)
          (put_word_next word (record p { syntax = some u.spec.syntax }) e h),
      same,
    )
