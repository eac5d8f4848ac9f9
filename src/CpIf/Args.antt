-- ===== src/CpIf/Args.antt =====
-- The arguments of a coprocessor: the splitting of `argstr` in sim_cp_hdr_init.
mod Tests
use cn.Common.{
  ◌>>=◌, ℕ, zero, suc, ◌+◌, ◌≡◌, refl, ap, sym, ◌∙◌, arith, Bool, true, false, not, ◌&&◌, Option,
  none, some, List, [], ◌∷◌, length, every, ◌==◌, if◌then◌else◌, Bool-cases, inl, inr,
}
use cn.Text.{is_nil}
use cn.Text.Fields.{before_all, fields, fields-cons, fields_mark, fields_other}

-- The members `argc` and `argv`; the pointers of `argv` after these texts are a null pointer and
-- what `malloc` gave.
pub record Args : Type 0 where
  pub argc : ℕ
  pub argv : List (List ℕ)

unfoldable pub count_commas : List ℕ → ℕ
count_commas [] = 0
count_commas (c ∷ text) = let later = count_commas text in if c == b',' then suc later else later

-- The loop that fills `argv`, from `argstr + i` on: what is left of the argument that it is in,
-- and the later ones. The character after a comma is not looked at; where that is the end of the
-- text the loop reads past it, and the result is `none`.
unfoldable pub fill_argv : List ℕ → Option (List ℕ × List (List ℕ))
fill_argv [] = some ([], [])
fill_argv (c ∷ []) = if c == b',' then none else some (c ∷ [], [])
fill_argv (c ∷ d ∷ text) =
    let past = fill_argv text in
    let here = fill_argv (d ∷ text) in
    if c == b','
    then past >>= (λ (arg, args). some ([], (d ∷ arg) ∷ args))
    else here >>= (λ (arg, args). some (c ∷ arg, args))

unfoldable pub sim_cp_hdr_init : Option (List ℕ) → Option Args
unfolding count_commas fill_argv
sim_cp_hdr_init none = some (record { argc = 0; argv = [] })
sim_cp_hdr_init (some []) = some (record { argc = 0; argv = [] })
sim_cp_hdr_init (some (c ∷ text)) = fill_argv text >>= (λ (arg, args).
    some (record { argc = suc (count_commas (c ∷ text)); argv = (c ∷ arg) ∷ args }))

abbrev pub non_empty : List ℕ → Bool
non_empty text = not (is_nil text)

fields-count : (text : List ℕ) → length (fields b',' text) ≡ suc (count_commas text)
unfolding fields count_commas
fields-count [] = refl
fields-count (c ∷ text) =
    let (t, ts, e) = fields-cons b',' text in
    let counted : suc (length ts) ≡ suc (count_commas text) = (rw e at (fields-count text)) in
    elim (Bool-cases (c == b',')) [
      | inl h ↦ rw (h, fields, count_commas) (ap suc (fields-count text))
      | inr h ↦ rw (h, e, fields, count_commas) counted
    ]

fields_nil :
    (t : List ℕ) (ts : List (List ℕ)) → fields b',' [] ≡ t ∷ ts → fill_argv [] ≡ some (t, ts)
unfolding fields fill_argv
fields_nil t ts e = cc

fields_single : (t : List ℕ) (ts : List (List ℕ)) → [] ∷ fields b',' [] ≡ t ∷ ts → ts ≡ [] ∷ []
unfolding fields
fields_single t ts e = cc

fields_one : (c : ℕ) → (c == b',') ≡ false → fields b',' (c ∷ []) ≡ (c ∷ []) ∷ []
unfolding fields
fields_one c b = rw b refl

-- An empty text is none of the arguments.
no_empty_first : (ts us : List (List ℕ)) → ts ≡ [] ∷ us → every non_empty ts ≡ true → ⊥
no_empty_first ts us e h = let h' : every non_empty ([] ∷ us) ≡ true = (rw e at h) in cc

fill_argv-fields :
    (text t : List ℕ) (ts : List (List ℕ))
    → fields b',' text ≡ t ∷ ts
    → every non_empty ts ≡ true
    → fill_argv text ≡ some (t, ts)
unfolding fill_argv
fill_argv-fields [] t ts e h = fields_nil t ts e
fill_argv-fields (c ∷ []) t ts e h = elim (Bool-cases (c == b',')) [
  | inl b ↦ absurd (no_empty_first ts [] (fields_single t ts (sym (fields_mark b',' c [] b) ∙ e)) h)
  | inr b ↦ let e' : fields b',' (c ∷ []) ≡ (c ∷ []) ∷ [] = fields_one c b in rw b cc
]
fill_argv-fields (c ∷ d ∷ text) t ts e h =
    let (u, us, f) = fields-cons b',' text in
    elim (Bool-cases (c == b',')) [
      | inl b ↦ elim (Bool-cases (d == b',')) [
        | inl b2 ↦ absurd (
            no_empty_first ts (fields b',' text)
              (cc (fields_mark b',' c (d ∷ text) b, fields_mark b',' d text b2, e)) h)
        | inr b2 ↦
            let e1 : [] ∷ before_all d (fields b',' text) ≡ t ∷ ts =
              cc (fields_mark b',' c (d ∷ text) b, fields_other b',' d text b2, e) in
            let e2 : [] ∷ (d ∷ u) ∷ us ≡ t ∷ ts = (rw f at e1) in
            let rest : ts ≡ (d ∷ u) ∷ us = cc in
            let h' : every non_empty ((d ∷ u) ∷ us) ≡ true = (rw rest at h) in
            let later = fill_argv-fields text u us f h' in rw (b, later) cc
      ]
      | inr b ↦
          let (v, vs, g) = fields-cons b',' (d ∷ text) in
          let e1 : before_all c (fields b',' (d ∷ text)) ≡ t ∷ ts =
            cc (fields_other b',' c (d ∷ text) b, e) in
          let e2 : (c ∷ v) ∷ vs ≡ t ∷ ts = (rw g at e1) in
          let rest : ts ≡ vs = cc in
          let later = fill_argv-fields (d ∷ text) v vs g (rw rest at h) in rw (b, later) cc
    ]

-- If no argument of a text is empty, `argv` gets the texts between the commas, and `argc` is
-- their number.
pub sim_cp_hdr_init-fields :
    (c : ℕ) (text : List ℕ)
    → every non_empty (fields b',' (c ∷ text)) ≡ true
    → sim_cp_hdr_init (some (c ∷ text))
      ≡ some (record { argc = length (fields b',' (c ∷ text)); argv = fields b',' (c ∷ text) })
unfolding sim_cp_hdr_init
sim_cp_hdr_init-fields c text h =
    let (u, us, f) = fields-cons b',' text in
    elim (Bool-cases (c == b',')) [
      | inl b ↦
          absurd (
            no_empty_first (fields b',' (c ∷ text)) (fields b',' text) (fields_mark b',' c text b)
              h)
      | inr b ↦
          let whole : fields b',' (c ∷ text) ≡ (c ∷ u) ∷ us =
            fields_other b',' c text b ∙ ap (before_all c) f in
          let h' : every non_empty ((c ∷ u) ∷ us) ≡ true = (rw whole at h) in
          let filled = fill_argv-fields text u us f h' in
          let counted : suc (count_commas (c ∷ text)) ≡ suc (length us) =
            sym (fields-count (c ∷ text)) ∙ ap length whole in
          rw (filled, whole, counted) refl
    ]
