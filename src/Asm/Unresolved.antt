-- ===== src/Asm/Unresolved.antt =====
-- A reference to a label that is not there.
use native.Mathlib.Nat.{pow-le-pow_right}
use cn.Common.{
  ℕ, ◌+◌, ◌-◌, ◌^◌, ◌≤◌, ◌≡◌, ◌≢◌, refl, arith, sym, ◌∙◌, true, some, List, [], ◌∷◌, All,
  Bool-cases, inl, inr,
}
use cn.Common.Outcome.{ok, failed}
use cn.Text.{same_text, int_gt}
use cn.Text.Equality.{same_text-eq}
use cn.Asm.{
  Labeldec, lookup_label, find_offset, find_reloff, max_words, signed_operand, unsigned_operand,
}
use cn.Asm.Resolve.{IsPlain, find_offset-IsPlain}

lookup_label-missing :
    (name : List ℕ) (labels : List Labeldec)
    → All (λ l. l.name ≢ name) labels
    → lookup_label name labels ≡ 2 ^ 32 - 1
unfolding lookup_label
lookup_label-missing name [] all = refl
lookup_label-missing name (l ∷ labels) (other, all) = elim (Bool-cases (same_text name l.name)) [
  | inl e ↦ absurd (other (sym (same_text-eq name l.name e)))
  | inr e ↦ rw e (lookup_label-missing name labels all)
]

module _ (name : List ℕ) (labels : List Labeldec) (plain : IsPlain name)
    (missing : All (λ l. l.name ≢ name) labels) where
  find_offset-missing : find_offset name labels ≡ 2 ^ 32 - 1
  find_offset-missing =
      find_offset-IsPlain name labels plain ∙ lookup_label-missing name labels missing

  find_reloff-missing : (offset : ℕ) → find_reloff offset name labels ≡ max_words + 1
  unfolding find_reloff
  find_reloff-missing offset = rw find_offset-missing refl

  -- A label that no line declares, named without a dot in at most 255 bytes, is refused as an
  -- operand that is relative, and accepted as one that is absolute: with the value -1.
  pub operand-missing :
      (offset numbits : ℕ)
      → numbits ≤ 17
      → (signed_operand offset labels numbits (some (b'%' ∷ name)) ≡ failed)
        × (unsigned_operand labels numbits (some (b'@' ∷ name)) ≡ ok (2 ^ 32 - 1))
  unfolding signed_operand unsigned_operand
  operand-missing offset numbits h =
      let high : 2 ^ (numbits - 1) ≤ 65536 =
        pow-le-pow_right {n = 2} (omega arith) {i = numbits - 1} {j = 16} (omega arith) in
      let far : int_gt (max_words + 1) (2 ^ (numbits - 1) - 1) ≡ true = ground arith in
      (rw (find_reloff-missing offset, far) refl, rw find_offset-missing refl)
