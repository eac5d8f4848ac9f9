-- ===== src/Asm/Resolve.antt =====
-- A reference to a label resolves to the offset of its line.
use cn.Common.{
  ℕ, zero, suc, ◌≤◌, ◌≡◌, ◌≢◌, refl, ap, sym, ◌∙◌, arith, false, none, some, List, [], ◌∷◌, ◌++◌,
  All, length, take, Bool-cases, Option-cases, inl, inr, ◌⊎◌,
}
use cn.Common.Outcome.{ok, bind-ok}
use cn.Instr.Table.{codes}
use cn.Text.{same_text}
use cn.Text.Equality.{same_text-eq, same_text_self}
use cn.Asm.{
  Labeldec, Linedec, op_is, next_offset, new_label, generate_labels, cut_dot, lookup_label,
  select_byte, find_offset,
}
use cn.Asm.Opcodes.{Pass, start, opcode_line, opcode_lines}
use cn.Asm.Labels.{opcode_line_offset}

-- A name that `find_offset` looks up as it stands: without a dot, and within its buffer.
pub record IsPlain (name : List ℕ) : Type 0 where
  pub no_dot : All (λ c. c ≢ b'.') name
  pub short : length name ≤ 255

take-all : (n : ℕ) (text : List ℕ) → length text ≤ n → take n text ≡ text
take-all zero [] h = refl
take-all (suc n) [] h = refl
take-all zero (c ∷ text) h = elim h [ ]
take-all (suc n) (c ∷ text) h = ap (λ (t : List ℕ). c ∷ t) (take-all n text (omega arith))

cut_dot-none : (name : List ℕ) → All (λ c. c ≢ b'.') name → cut_dot name ≡ (name, none)
unfolding cut_dot
cut_dot-none [] h = refl
cut_dot-none (c ∷ name) (h, hs) = rw (cut_dot-none name hs) (ground arith)

pub find_offset-IsPlain :
    (name : List ℕ) (table : List Labeldec)
    → IsPlain name
    → find_offset name table ≡ lookup_label name table
unfolding find_offset
find_offset-IsPlain name table plain =
    rw (take-all 255 name plain.short, cut_dot-none name plain.no_dot) (unfold select_byte in refl)

-- A line appends at most its own label.
new_label_cases :
    (offset : ℕ) (line : Linedec) {labels : List Labeldec}
    → new_label offset line ≡ ok labels
    → (labels ≡ [])
      ⊎ ((name : List ℕ) × (line.label ≡ some name)
          × (labels ≡ record { name = name; offset = offset } ∷ []))
unfolding new_label
new_label_cases offset line h = elim (Bool-cases (op_is line (codes ".org"))) [
  | inl o ↦ let same = (rw o at h) in inl (cc)
  | inr o ↦
      let h' = (rw o at h) in
      elim (Option-cases line.label) [
        | inl e ↦ inl (ground arith)
        | inr (name, e) ↦ let same = (rw e at h') in inr (name, e, cc)
      ]
]

lookup_label-ne :
    (name : List ℕ) (l : Labeldec) (rest : List Labeldec)
    → name ≢ l.name
    → lookup_label name (l ∷ rest) ≡ lookup_label name rest
unfolding lookup_label
lookup_label-ne name l rest other = elim (Bool-cases (same_text name l.name)) [
  | inl e ↦ absurd (other (same_text-eq name l.name e))
  | inr e ↦ rw e refl
]

-- The label of another line is passed over.
lookup_label-new_label :
    (name : List ℕ) (offset : ℕ) (line : Linedec) {labels : List Labeldec} (rest : List Labeldec)
    → line.label ≢ some name
    → new_label offset line ≡ ok labels
    → lookup_label name (labels ++ rest) ≡ lookup_label name rest
lookup_label-new_label name offset line rest other h = elim (new_label_cases offset line h) [
  | inl e ↦ rw e refl
  | inr (name', e, e') ↦
      rw e' (lookup_label-ne name _ rest (λ same. other (e ∙ ap some (sym same))))
]

lookup_label-here :
    (name : List ℕ) (offset : ℕ) (line : Linedec) {labels : List Labeldec} (rest : List Labeldec)
    → line.label ≡ some name
    → op_is line (codes ".org") ≡ false
    → new_label offset line ≡ ok labels
    → lookup_label name (labels ++ rest) ≡ offset
unfolding new_label lookup_label
lookup_label-here name offset line {labels} rest e o h =
    let same = (rw (o, e) at h) in
    let single : labels ≡ record { name = name; offset = offset } ∷ [] = cc in
    rw (single, same_text_self name) refl

generate_labels_step :
    (offset : ℕ) (line : Linedec) (lines : List Linedec) {table : List Labeldec}
    → generate_labels offset (line ∷ lines) ≡ ok table
    → (labels : List Labeldec) × (new_label offset line ≡ ok labels)
      × (offset' : ℕ) × (next_offset offset line ≡ ok offset')
      × (rest : List Labeldec) × (generate_labels offset' lines ≡ ok rest)
      × (table ≡ labels ++ rest)
unfolding generate_labels
generate_labels_step offset line lines h =
    let (labels, h1, h2) = bind-ok (new_label offset line) _ h in
    let (offset', h3, h4) = bind-ok (next_offset offset line) _ h2 in
    let (rest, h5, h6) = bind-ok (generate_labels offset' lines) _ h4 in
    (labels, h1, offset', h3, rest, h5, cc)

module _ (name : List ℕ) (line : Linedec) (after : List Linedec) (given : List Labeldec)
    (labelled : line.label ≡ some name) (placed : op_is line (codes ".org") ≡ false) where
  lookup_label-opcode_lines :
      (before : List Linedec) {table : List Labeldec} (p : Pass) {p' : Pass}
      → All (λ l. l.label ≢ some name) before
      → generate_labels p.offset (before ++ line ∷ after) ≡ ok table
      → opcode_lines given before p ≡ ok p'
      → lookup_label name table ≡ p'.offset
  unfolding opcode_lines
  lookup_label-opcode_lines [] p {p'} others hl ho =
      let (labels, h1, _, _, rest, _, e) = generate_labels_step p.offset line after hl in
      let same : p.offset ≡ p'.offset = cc in
      rw e (lookup_label-here name p.offset line rest labelled placed h1 ∙ same)
  lookup_label-opcode_lines (b ∷ before) p (other, others) hl ho =
      let (labels, h1, offset', h3, rest, h5, e) =
        generate_labels_step p.offset b (before ++ line ∷ after) hl in
      let (q, h7, h8) = bind-ok (opcode_line given b p) _ ho in
      let same : offset' ≡ q.offset = cc (opcode_line_offset given b p h7) in
      rw e (
        lookup_label-new_label name p.offset b rest other h1
        ∙ lookup_label-opcode_lines before q others (rw same at h5) h8)

  -- Let a name without a dot, of at most 255 bytes, be the label of a line that is no `.org`, and
  -- of no line before it. Where both passes accept the lines, `find_offset` gives for that name,
  -- from what the first pass has collected, the offset at which the second pass arrives at the
  -- line.
  pub find_offset-opcode_lines :
      (before : List Linedec) {table : List Labeldec} (outbuf : ℕ → ℕ) {p : Pass}
      → IsPlain name
      → All (λ l. l.label ≢ some name) before
      → generate_labels 0 (before ++ line ∷ after) ≡ ok table
      → opcode_lines given before (start outbuf) ≡ ok p
      → find_offset name table ≡ p.offset
  find_offset-opcode_lines before {table} outbuf plain others hl ho =
      find_offset-IsPlain name table plain
      ∙ lookup_label-opcode_lines before (start outbuf) others hl ho
