-- ===== src/Instr/Assemble/Extra.antt =====
-- Fields beyond those of the format are not looked at.
use cn.Common.{
  ℕ, zero, suc, ◌≡◌, refl, arith, Bool, true, false, some, List, [], ◌∷◌, ◌++◌, length, ◌==◌,
  Option-cases, inl, inr,
}
use cn.Instr.Table.{InstrSpec}
use cn.Instr.Assemble.{next_field, strtol, put_field, put_fields, assemble_spec}

next_field-append :
    (blank : Bool) (fields extra : List ℕ) {val : ℕ} {fields' : List ℕ}
    → next_field blank fields ≡ some (val, fields')
    → next_field blank (fields ++ extra) ≡ some (val, fields' ++ extra)
unfolding next_field
next_field-append true fields extra h = ground arith
next_field-append false [] extra h = cc
next_field-append false (f ∷ fields) extra h = ground arith

put_fields_step :
    (fuel c d : ℕ) (format fields : List ℕ) (instr_local : ℕ) {w : ℕ}
    → put_fields (suc fuel) (c ∷ d ∷ format) fields instr_local ≡ some w
    → (val : ℕ) × (fields' : List ℕ) × (next_field (c == b'_') fields ≡ some (val, fields'))
      × (put_fields fuel
            (strtol 0 (d ∷ format)).1
            fields'
            (put_field instr_local (strtol 0 (d ∷ format)).0 val)
          ≡ some w)
unfolding put_fields
put_fields_step fuel c d format fields instr_local h =
    elim (Option-cases (next_field (c == b'_') fields)) [
      | inl e ↦ absurd (ground (arith, e))
      | inr ((val, fields'), e) ↦ (val, fields', e, rw e at h)
    ]

put_fields_join :
    (fuel c d : ℕ) (format fields : List ℕ) (instr_local val : ℕ) (fields' : List ℕ)
    → next_field (c == b'_') fields ≡ some (val, fields')
    → put_fields (suc fuel) (c ∷ d ∷ format) fields instr_local
      ≡ put_fields fuel
          (strtol 0 (d ∷ format)).1
          fields'
          (put_field instr_local (strtol 0 (d ∷ format)).0 val)
unfolding put_fields
put_fields_join fuel c d format fields instr_local val fields' e = rw e refl

put_fields-append :
    (fuel : ℕ) (format fields extra : List ℕ) (instr_local : ℕ) {w : ℕ}
    → put_fields fuel format fields instr_local ≡ some w
    → put_fields fuel format (fields ++ extra) instr_local ≡ some w
put_fields-append fuel [] fields extra instr_local h = unfold put_fields in (unfold put_fields in h)
put_fields-append zero (c ∷ format) fields extra instr_local h = absurd (unfold put_fields in (cc))
put_fields-append (suc fuel) (c ∷ []) fields extra instr_local h =
    absurd (unfold put_fields in (cc))
put_fields-append (suc fuel) (c ∷ d ∷ format) fields extra instr_local h =
    let (val, fields', e, h') = put_fields_step fuel c d format fields instr_local h in
    rw
      (put_fields_join fuel c d format (fields ++ extra) instr_local val (fields' ++ extra)
        (next_field-append (c == b'_') fields extra e))
      (put_fields-append fuel _ fields' extra _ h')

pub assemble_spec-append :
    (spec : InstrSpec) (fields extra : List ℕ) {w : ℕ}
    → assemble_spec spec fields ≡ some w
    → assemble_spec spec (fields ++ extra) ≡ some w
unfolding assemble_spec
assemble_spec-append spec fields extra h =
    elim (Option-cases (put_fields (length spec.format) spec.format fields spec.opcode)) [
      | inl e ↦ absurd (ground (arith, e))
      | inr (w, e) ↦
          rw (put_fields-append (length spec.format) spec.format fields extra spec.opcode e)
            (rw e at h)
    ]
